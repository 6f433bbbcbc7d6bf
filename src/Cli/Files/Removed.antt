-- ===== src/Cli/Files/Removed.antt =====
-- What `rm` and `clear` leave, path by path.
use hytch.Common.{
  ℕ, ◌≡◌, ◌≢◌, refl, sym, ap, ◌∙◌, inl, inr, Option, none, some, List, [], ◌∷◌, Bool, true, false,
  Bool-cases, not, ◌&&◌, ◌||◌, arith, if◌then◌else◌,
}
use hytch.Session.{same_text}
use hytch.Cli.Files.{
  Node, socket, regular, directory, Files, lookup, exists, unlink, remove_file, rm,
}

same_text_sound : (xs ys : List ℕ) → same_text xs ys ≡ true → xs ≡ ys
same_text_sound [] [] e = refl
same_text_sound [] (y ∷ ys) e = absurd (cc)
same_text_sound (x ∷ xs) [] e = absurd (cc)
same_text_sound (x ∷ xs) (y ∷ ys) e = ground (arith, same_text_sound xs ys)

same_text_refl : (xs : List ℕ) → same_text xs xs ≡ true
same_text_refl [] = refl
same_text_refl (x ∷ xs) = ground (arith, same_text_refl xs)

lookup-unlink :
    (path q : List ℕ) (files : Files)
    → lookup q (unlink path files) ≡ (if same_text path q then none else lookup q files)
unfolding lookup unlink
lookup-unlink path q [] = ground arith
lookup-unlink path q ((p, n) ∷ files) =
    let ih = lookup-unlink path q files in
    elim (Bool-cases (same_text p path)) [
      | inl e ↦ let same = ap (λ x. same_text x q) (same_text_sound p path e) in ground arith
      | inr e ↦ elim (Bool-cases (same_text path q)) [
        | inl e' ↦
            let other : same_text p q ≡ false =
              ap (same_text p) (sym (same_text_sound path q e')) ∙ e in
            ground arith
        | inr e' ↦ ground arith
      ]
    ]

-- A path that holds no directory is gone once its removal is granted.
abbrev pub IsFile : List ℕ → Files → Type 0
IsFile path files = lookup path files ≢ some directory

lookup-remove_file :
    (path q : List ℕ) (files : Files)
    → IsFile path files
    → lookup q (remove_file true path files) ≡ (if same_text path q then none else lookup q files)
unfolding remove_file
lookup-remove_file path q files h = go (lookup path files) refl
  where
    go :
        (n : Option Node)
        → lookup path files ≡ n
        → lookup q (remove_file true path files)
          ≡ (if same_text path q then none else lookup q files)
    go (some directory) e = absurd (h e)
    go (some socket) e = rw (remove_file, e) (lookup-unlink path q files)
    go (some (regular bytes)) e = rw (remove_file, e) (lookup-unlink path q files)
    go none e = elim (Bool-cases (same_text path q)) [
      | inl e' ↦
          let gone = ap (λ x. lookup x files) (sym (same_text_sound path q e')) ∙ e in
          rw (remove_file, e, e') gone
      | inr e' ↦ rw (remove_file, e, e') refl
    ]

IsFile-remove_file :
    (path q : List ℕ) (files : Files)
    → IsFile path files
    → IsFile q files
    → IsFile q (remove_file true path files)
IsFile-remove_file path q files h h' e =
    let found = lookup-remove_file path q files h in
    elim (Bool-cases (same_text path q)) [
      | inl e' ↦ absurd (ground arith)
      | inr e' ↦ absurd (h' (ground arith))
    ]

-- `rm` of a session that nobody listens for removes its socket and its log, and nothing else, and
-- exits with 0 if there was one of them; of a session that runs it removes nothing, and it exits with
-- 1. Neither path is a directory, and the removals are granted.
pub lookup-rm :
    (listening : Bool) (socket_path log_path name : List ℕ) (quiet : Bool) (files : Files)
    (q : List ℕ)
    → IsFile socket_path files
    → IsFile log_path files
    → let r = rm listening true true socket_path log_path name quiet files in
      (lookup q r.2 ≡ (
        if not listening && (same_text socket_path q || same_text log_path q)
        then none
        else lookup q files))
      × (r.0
          ≡ (if not listening && (exists socket_path files || exists log_path files) then 0 else 1))
unfolding rm
lookup-rm true socket_path log_path name quiet files q h h' = (refl, refl)
lookup-rm false socket_path log_path name quiet files q h h' =
    let first = lookup-remove_file socket_path q files h in
    let second =
      lookup-remove_file log_path q (remove_file true socket_path files)
        (IsFile-remove_file socket_path log_path files h h') in
    let left = remove_file true log_path (remove_file true socket_path files) in
    let both : lookup q left
        ≡ (if same_text socket_path q || same_text log_path q then none else lookup q files) =
      ground arith in
    elim (Bool-cases (exists socket_path files)) [
      | inl e ↦ rw e (both, refl)
      | inr e ↦ elim (Bool-cases (exists log_path files)) [
        | inl e' ↦ rw (e, e') (both, refl)
        | inr e' ↦ rw (e, e') (both, refl)
      ]
    ]
