-- ===== src/Daemon/Pty/Spawned.antt =====
-- What `spawn` has done when it fails and when it does not.
use hytch.Common.{
  ℕ, ◌≡◌, refl, ap, ◌⊎◌, inl, inr, Option, none, some, Option-cases, List, [], ◌∷◌, ◌++◌, Bool,
  true, false, Bool-cases,
}
use hytch.Daemon.Pty.{
  ProcessCrate, Call, openpt, grantpt, unlockpt, set_nonblocking, set_size, ptsname, open_noctty,
  dup_stdio, fork, setsid, set_controlling, exec, Answers, attempt, path_of, steps, Pty, adopt,
  spawn,
}

-- The calls of a sequence.
abbrev pub calls_of : List (Bool × Call) → List Call
calls_of [] = []
calls_of ((granted, call) ∷ rest) = call ∷ calls_of rest

attempt-prefix :
    (l : List (Bool × Call)) → (rest : List Call) × ((attempt l).1 ++ rest ≡ calls_of l)
unfolding attempt
attempt-prefix [] = ([], refl)
attempt-prefix ((true, call) ∷ l) = let (rest, e) = attempt-prefix l in (rest, ap (λ c. call ∷ c) e)
attempt-prefix ((false, call) ∷ l) = (calls_of l, refl)

attempt-all : (l : List (Bool × Call)) → (attempt l).0 ≡ true → (attempt l).1 ≡ calls_of l
unfolding attempt
attempt-all [] e = refl
attempt-all ((true, call) ∷ l) e = ap (λ c. call ∷ c) (attempt-all l e)
attempt-all ((false, call) ∷ l) e = absurd (cc)

-- The calls of a child on a pty, in their order.
abbrev pub whole : List ℕ → List ℕ → List (List ℕ) → ℕ → ℕ → List ℕ → List Call
whole slave program args rows cols session_chain =
    openpt
    ∷ grantpt
    ∷ unlockpt
    ∷ set_nonblocking
    ∷ set_size rows cols
    ∷ ptsname
    ∷ open_noctty slave
    ∷ dup_stdio
    ∷ dup_stdio
    ∷ dup_stdio
    ∷ fork
    ∷ setsid
    ∷ set_controlling 0
    ∷ exec program args session_chain
    ∷ []

adopt-cases :
    (p : ProcessCrate) (id : Option ℕ) (registered : Bool)
    → (adopt p id registered ≡ none)
      ⊎ ((raw_pid : ℕ) × (group : Pty p) × (adopt p id registered ≡ some group)
          × (id ≡ some raw_pid)
          × (p.from_raw raw_pid ≡ some group.pgid))
adopt-cases p none registered = inl refl
adopt-cases p (some raw_pid) registered = elim (Option-cases (p.from_raw raw_pid)) [
  | inl e ↦ inl (rw (adopt, e) refl)
  | inr (pid, e) ↦ elim (Bool-cases registered) [
    | inl e' ↦ inr (raw_pid, record { pgid = pid }, rw (adopt, e, e') refl, refl, e)
    | inr e' ↦ inl (rw (adopt, e, e') refl)
  ]
]

-- Whatever is refused, the calls made are the first ones of the whole sequence: the program is not
-- run before the size of its terminal is set, nor outside a session with that terminal. A pty that is
-- returned has made them all, and its process group is the one of the child's id.
pub spawn-whole :
    (p : ProcessCrate) (a : Answers) (program : List ℕ) (args : List (List ℕ)) (rows cols : ℕ)
    (chain : List ℕ)
    → let (pty, calls) = spawn p a program args rows cols chain in
      let all = whole (path_of a.slave_name) program args rows cols chain in
      ((rest : List Call) × (calls ++ rest ≡ all))
      × ((pty ≡ none)
          ⊎ ((raw_pid : ℕ) × (group : Pty p) × (pty ≡ some group)
              × (calls ≡ all)
              × (a.id ≡ some raw_pid)
              × (p.from_raw raw_pid ≡ some group.pgid)))
unfolding spawn steps
spawn-whole p a program args rows cols chain =
    let made = steps a program args rows cols chain in
    (
      attempt-prefix made,
      elim (Bool-cases (attempt made).0) [
        | inr e ↦ inl (rw e refl)
        | inl e ↦ elim (adopt-cases p a.id a.registered) [
          | inl f ↦ inl (rw e f)
          | inr (raw_pid, group, f, id, pid) ↦
              inr (raw_pid, group, rw e f, attempt-all made e, id, pid)
        ]
      ],
    )
