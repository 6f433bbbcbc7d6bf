-- ===== src/SessionLog/Disk.antt =====
-- The standard library's `File`, as `session_log.rs` uses it: the bytes on disk and the position of
-- the handle. Each call takes the operating system's answer and returns a result beside the file.
use hytch.Common.{
  ℕ, ◌+◌, ◌-◌, ◌≡◌, arith, Bool, true, false, Option, none, some, List, ◌++◌, length, take, drop,
  replicate,
}
use hytch.Common.Results.{Result, ok, err}

pub record File : Type 0 where
  pub content : List ℕ
  pub pos : ℕ

-- A call fails, or the program panics on a slice out of range.
pub data Fault : Type 0 where
  io_error panicked : Fault

pub data ReadAnswer : Type 0 where
  full : ReadAnswer
  short : ℕ → ReadAnswer
  failed : ReadAnswer

abbrev pub M : Type 0 → Type 0
M A = File → Result Fault A × File

infixl 5 ◌>>=◌ ◌>>◌
abbrev pub ◌>>=◌ : {A B : Type 0} → M A → (A → M B) → M B
◌>>=◌ m f file = let (r, file') = m file in elim r [ ok a ↦ f a file' | err e ↦ (err e, file') ]

abbrev pub ◌>>◌ : {B : Type 0} → M (Unit {0}) → M B → M B
m >> k = m >>= λ _. k

-- A call that succeeds hands its result and its file to the next one.
pub >>=-ok :
    {A B : Type 0} (m : M A) (k : A → M B) (file file' : File) (a : A)
    → m file ≡ (ok a, file')
    → (m >>= k) file ≡ k a file'
>>=-ok m k file file' a e = ground arith

abbrev pub done : {A : Type 0} → A → M A
done a file = (ok a, file)

abbrev pub fault : {A : Type 0} → Fault → M A
fault e file = (err e, file)

-- `seek(SeekFrom::End(0))` returns the size.
abbrev pub seek_end : Bool → M ℕ
seek_end true file = (ok (length file.content), record file { pos = length file.content })
seek_end false file = (err io_error, file)

abbrev pub seek_start : Bool → ℕ → M (Unit {0})
seek_start true n file = (ok tt, record file { pos = n })
seek_start false n file = (err io_error, file)

-- `read` into a buffer of `n` bytes: the bytes read, which may be fewer than there are.
abbrev pub read : ReadAnswer → ℕ → M (List ℕ)
read full n file =
    let got = take n (drop file.pos file.content) in
    (ok got, record file { pos = file.pos + length got })
read (short k) n file =
    let got = take k (take n (drop file.pos file.content)) in
    (ok got, record file { pos = file.pos + length got })
read failed n file = (err io_error, file)

-- `set_len` cuts the file, or fills it up with zeros.
abbrev pub set_len : Bool → ℕ → M (Unit {0})
set_len true n file =
    (ok tt, record file { content = take n file.content ++ replicate (n - length file.content) 0 })
set_len false n file = (err io_error, file)

-- The file after `bytes` are written at its position; a gap is filled with zeros.
abbrev pub written : List ℕ → File → File
written bytes file = record {
  content =
      take file.pos file.content
      ++ (replicate (file.pos - length file.content) 0
          ++ (bytes ++ drop (file.pos + length bytes) file.content));
  pos = file.pos + length bytes;
}

-- `write_all`: `none` if everything is written, else how much is written before the error.
abbrev pub write_all : Option ℕ → List ℕ → M (Unit {0})
write_all none bytes file = (ok tt, written bytes file)
write_all (some k) bytes file = (err io_error, written (take k bytes) file)
