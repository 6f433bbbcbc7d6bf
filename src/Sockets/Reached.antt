-- ===== src/Sockets/Reached.antt =====
-- What a socket's path reaches, however long it is.
use hytch.Common.{
  ℕ, ◌≡◌, ◌≤◌, sym, ap, ◌∙◌, ◌⊎◌, inl, inr, some, Option-cases, List, ◌++◌, Bool, true, false,
  Bool-cases, length, leb, arith, append_assoc,
}
use hytch.Common.Results.{Result, ok}
use hytch.Session.{file_name}
use hytch.Session.Address.{max_socket_path_len, is_absolute, shorten_for_unix_socket}
use hytch.Session.Address.Place.{Place, names, resolve}
use hytch.Session.Address.Shorten.{shorten-names, shorten-some, shorten-fits}
use hytch.Sockets.{SocketCrate, Grants, from_directory, connect, connect_probe, bind_listener}

-- The working directory is known, and both changes of it are granted.
abbrev pub IsGranted : Grants → Type 0
IsGranted g = (g.known ≡ true) × (g.enter ≡ true) × (g.back ≡ true)

-- A path that fits, or one whose file has a name that does.
abbrev pub HasAddress : List ℕ → Type 0
HasAddress path =
    (length path ≤ max_socket_path_len)
    ⊎ ((name : List ℕ) × (file_name path ≡ some name) × (length name ≤ max_socket_path_len))

-- The short form is the same place, seen from the directory.
resolve-shorten :
    (cwd : Place) (path dir name : List ℕ)
    → shorten_for_unix_socket path ≡ some (dir, name)
    → resolve (resolve cwd dir) name ≡ resolve cwd path
unfolding resolve
resolve-shorten cwd path dir name e =
    let (parts, start, below, named) = shorten-names path dir name e in
    elim (Bool-cases (is_absolute path)) [
      | inl a ↦ rw (below, start ∙ a, a) (sym parts)
      | inr a ↦
          rw (below, start ∙ a, a)
            (append_assoc cwd (names dir) (names name) ∙ ap (λ p. cwd ++ p) (sym parts))
    ]

module _ (c : SocketCrate) where
  from_directory-at :
      (g : Grants) (cwd : Place) (path dir name : List ℕ)
      → IsGranted g
      → length name ≤ max_socket_path_len
      → shorten_for_unix_socket path ≡ some (dir, name)
      → from_directory c g cwd dir name ≡ (c.at (resolve cwd path), cwd)
  from_directory-at g cwd path dir name (known, enter, back) fits e =
      rw (known, enter, back)
        (ap (λ r. (r, cwd))
          (c.call-fits (resolve cwd dir) name fits ∙ ap c.at (resolve-shorten cwd path dir name e)))

  -- A path with an address reaches the place that it denotes, however long it is, and the working
  -- directory is then what it was: in the daemon, and in both calls of the client. The changes of the
  -- directory are granted.
  pub connect-at :
      (g : Grants) (cwd : Place) (path : List ℕ)
      → IsGranted g
      → HasAddress path
      → (bind_listener c g cwd path ≡ (c.at (resolve cwd path), cwd))
        × (connect c g cwd path ≡ (c.at (resolve cwd path), cwd))
        × (connect_probe c g cwd path ≡ (c.at (resolve cwd path), cwd))
  unfolding connect connect_probe bind_listener
  connect-at g cwd path granted address =
      elim (Bool-cases (leb (length path) max_socket_path_len)) [
        | inl fits ↦
            let found = ap (λ r. (r, cwd)) (c.call-fits cwd path (ground arith)) in
            rw (bind_listener, connect, connect_probe, shorten-fits path fits) (found, found, found)
        | inr long ↦ elim address [
          | inl fits ↦ absurd (ground arith)
          | inr (name, named, fits) ↦
              let (dir, e) = shorten-some path name named long in
              let found = from_directory-at g cwd path dir name granted fits e in
              rw (bind_listener, connect, connect_probe, e) (found, found, found)
        ]
      ]

  call-ok :
      (cwd : Place) (address : List ℕ) (s : c.Socket)
      → c.call cwd address ≡ ok s
      → c.at (resolve cwd address) ≡ ok s
  call-ok cwd address s e = elim (Bool-cases (leb (length address) max_socket_path_len)) [
    | inl fits ↦ sym (c.call-fits cwd address (ground arith)) ∙ e
    | inr long ↦ let refused = c.call-long cwd address (ground arith) in absurd (cc)
  ]

  from_directory-ok :
      (g : Grants) (cwd after : Place) (dir name : List ℕ) (s : c.Socket)
      → from_directory c g cwd dir name ≡ (ok s, after)
      → (c.call (resolve cwd dir) name ≡ ok s) × (after ≡ cwd)
  from_directory-ok g cwd after dir name s e = go g.known g.enter g.back e
    where
      go :
          (known enter back : Bool)
          → from_directory c (record { known = known; enter = enter; back = back }) cwd dir name
            ≡ (ok s, after)
          → (c.call (resolve cwd dir) name ≡ ok s) × (after ≡ cwd)
      go true true true e' = (ap (λ p. p.0) e', sym (ap (λ p. p.1) e'))
      go true true false e' = absurd (let refused = ap (λ p. p.0) e' in cc)
      go true false back e' = absurd (let refused = ap (λ p. p.0) e' in cc)
      go false enter back e' = absurd (let refused = ap (λ p. p.0) e' in cc)

  -- A socket is only had at the place that the path denotes, and with the working directory as it
  -- was, whatever the path and whichever changes of the directory are refused.
  pub bind_listener-ok :
      (g : Grants) (cwd after : Place) (path : List ℕ) (s : c.Socket)
      → bind_listener c g cwd path ≡ (ok s, after)
      → (c.at (resolve cwd path) ≡ ok s) × (after ≡ cwd)
  unfolding bind_listener
  bind_listener-ok g cwd after path s e = elim (Option-cases (shorten_for_unix_socket path)) [
    | inl n ↦
        let direct : ◌≡◌ {A = Result c.Error c.Socket × Place} (c.call cwd path, cwd)
            (ok s, after) =
          ground arith in
        (call-ok cwd path s (ap (λ p. p.0) direct), sym (ap (λ p. p.1) direct))
    | inr ((dir, name), f) ↦
        let near : from_directory c g cwd dir name ≡ (ok s, after) = ground arith in
        let (found, same) = from_directory-ok g cwd after dir name s near in
        (
          ap c.at (sym (resolve-shorten cwd path dir name f))
              ∙ call-ok (resolve cwd dir) name s found,
          same,
        )
  ]
