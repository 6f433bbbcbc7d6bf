-- ===== src/Sockets.antt =====
-- `connect` and `connect_probe` of crates/cli/src/sockets.rs and `bind_listener` of
-- crates/daemon/src/daemon.rs: a socket's file by a short name, from its directory.
pub mod Reached
pub mod Tests
use hytch.Common.{
  ℕ, ◌≡◌, ◌<◌, ◌≤◌, Option, none, some, List, [], ◌∷◌, Bool, true, false, length, if◌then◌else◌,
}
use hytch.Common.Results.{Result, ok, err}
use hytch.Session.Address.{max_socket_path_len, shorten_for_unix_socket}
use hytch.Session.Address.Place.{Place, resolve}

-- The sockets of the system: what an address gives from a working directory. An address that fits
-- counts for the place that it denotes, and a longer one is refused.
pub record SocketCrate : Type 1 where
  pub Socket : Type 0
  pub Error : Type 0
  pub denied : Error
  pub too_long : Error
  pub at : Place → Result Error Socket
  pub call : Place → List ℕ → Result Error Socket
  pub call-fits :
      (cwd : Place) (address : List ℕ)
      → length address ≤ max_socket_path_len
      → call cwd address ≡ at (resolve cwd address)
  pub call-long :
      (cwd : Place) (address : List ℕ)
      → max_socket_path_len < length address
      → call cwd address ≡ err too_long

-- Whether the working directory can be had, entered and gone back to.
pub record Grants : Type 0 where
  pub known : Bool
  pub enter : Bool
  pub back : Bool

module _ (c : SocketCrate) where
  abbrev pub go_back :
      Bool → Place → Place → Result c.Error c.Socket → Result c.Error c.Socket × Place
  go_back true cwd dir result = (result, cwd)
  go_back false cwd dir result = (err c.denied, dir)

  abbrev pub from_directory : Grants → Place → List ℕ → List ℕ → Result c.Error c.Socket × Place
  from_directory g cwd dir short_name =
      if g.known
      then if g.enter
        then go_back g.back cwd (resolve cwd dir) (c.call (resolve cwd dir) short_name)
        else (err c.denied, cwd)
      else (err c.denied, cwd)

  -- The result, and the working directory after the call.
  pub connect : Grants → Place → List ℕ → Result c.Error c.Socket × Place
  connect g cwd path = elim (shorten_for_unix_socket path) [
    | none ↦ (c.call cwd path, cwd)
    | some (dir, short_name) ↦ from_directory g cwd dir short_name
  ]

  pub connect_probe : Grants → Place → List ℕ → Result c.Error c.Socket × Place
  connect_probe g cwd path = elim (shorten_for_unix_socket path) [
    | none ↦ (c.call cwd path, cwd)
    | some (dir, short_name) ↦ from_directory g cwd dir short_name
  ]

  pub bind_listener : Grants → Place → List ℕ → Result c.Error c.Socket × Place
  bind_listener g cwd path = elim (shorten_for_unix_socket path) [
    | none ↦ (c.call cwd path, cwd)
    | some (dir, short_name) ↦ from_directory g cwd dir short_name
  ]
