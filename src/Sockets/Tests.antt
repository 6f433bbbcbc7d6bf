-- ===== src/Sockets/Tests.antt =====
-- Tests of sockets: a system where every place has a socket, and a directory with a long name.
use hytch.Common.{
  ℕ, ◌≡◌, ◌<◌, ◌≤◌, refl, inr, List, [], ◌∷◌, Bool, true, false, replicate, length, leb, arith,
  if◌then◌else◌,
}
use hytch.Common.Results.{Result, ok, err}
use hytch.Common.Text.{codes}
use hytch.Session.{slash, is_valid_bare_name, resolve_socket_path}
use hytch.Session.Names.{file_name-resolve_socket_path}
use hytch.Session.Address.{max_socket_path_len}
use hytch.Session.Address.Place.{Place, resolve}
use hytch.Sockets.{SocketCrate, Grants, connect, connect_probe, bind_listener}
use hytch.Sockets.Reached.{connect-at, bind_listener-ok}

abbrev pub refusing : Place → List ℕ → Result Bool Place
refusing cwd address =
    if leb (length address) max_socket_path_len then ok (resolve cwd address) else err true

pub refusing-fits :
    (cwd : Place) (address : List ℕ)
    → length address ≤ max_socket_path_len
    → refusing cwd address ≡ ok (resolve cwd address)
refusing-fits cwd address fits = ground arith

pub refusing-long :
    (cwd : Place) (address : List ℕ)
    → max_socket_path_len < length address
    → refusing cwd address ≡ err true
refusing-long cwd address long = ground arith

abbrev pub everywhere : SocketCrate
everywhere = record {
  Socket = Place;
  Error = Bool;
  denied = false;
  too_long = true;
  at = ok;
  call = refusing;
  call-fits = refusing-fits;
  call-long = refusing-long;
}

abbrev pub all_granted : Grants
all_granted = record { known = true; enter = true; back = true }

abbrev pub home : Place
home = codes "home" ∷ []

abbrev long_path : List ℕ
long_path = resolve_socket_path (codes "work") (slash ∷ replicate 120 b'd')

work_valid : is_valid_bare_name (codes "work") ≡ true
unfolding is_valid_bare_name hytch.Session.contains
work_valid = refl

connect-at_example :
    (bind_listener everywhere all_granted home long_path ≡ (ok (resolve home long_path), home))
    × (connect everywhere all_granted home long_path ≡ (ok (resolve home long_path), home))
    × (connect_probe everywhere all_granted home long_path ≡ (ok (resolve home long_path), home))
connect-at_example =
    connect-at everywhere all_granted home long_path (refl, refl, refl)
      (inr (
        codes "work",
        file_name-resolve_socket_path (codes "work") (slash ∷ replicate 120 b'd') work_valid,
        omega arith,
      ))

bound_long :
    bind_listener everywhere all_granted home long_path ≡ (ok (resolve home long_path), home)
bound_long = connect-at_example.0

bind_listener-ok_example :
    (everywhere.at (resolve home long_path) ≡ ok (resolve home long_path)) × (home ≡ home)
bind_listener-ok_example =
    bind_listener-ok everywhere all_granted home home long_path (resolve home long_path) bound_long
