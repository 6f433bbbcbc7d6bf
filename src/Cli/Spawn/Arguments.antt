-- ===== src/Cli/Spawn/Arguments.antt =====
-- The hidden subcommand reads the request that the arguments were made from.
use hytch.Common.{
  ℕ, ◌^◌, ◌-◌, ◌<◌, ◌≡◌, ◌≢◌, refl, ap, Option, none, some, List, [], ◌∷◌, arith, if◌then◌else◌,
}
use hytch.Common.Decimal.{parse_uint, parse_uint-decimal}
use hytch.Common.Text.{codes}
use hytch.Session.{same_text}
use hytch.Cli.Paths.{log_path_for}
use hytch.Cli.Spawn.{SpawnRequest, daemon_subcommand, log_argument, daemon_run_args}

-- The fields of the subcommand, as the argument parser hands them over.
pub record DaemonRun : Type 0 where
  pub socket_path : List ℕ
  pub log_path : List ℕ
  pub log_max_size : ℕ
  pub scrollback_size : ℕ
  pub rows : ℕ
  pub cols : ℕ
  pub program : List ℕ
  pub args : List (List ℕ)

-- Not an option to the argument parser.
abbrev pub IsPositional : List ℕ → Type 0
IsPositional [] = Unit
IsPositional (c ∷ []) = Unit
IsPositional (c ∷ d ∷ s) = c ≢ b'-'

abbrev pub IsPlain : List ℕ → Type 0
IsPlain [] = Unit
IsPlain (c ∷ s) = c ≢ b'-'

-- What may follow the program: `clap` takes the first of these values for an option if it knows it as
-- one, and drops `--`, although values with hyphens are allowed; from the second one on it takes them as
-- they are.
abbrev pub AreTrailing : List (List ℕ) → Type 0
AreTrailing [] = Unit
AreTrailing (arg ∷ args) = IsPositional arg

plain-IsPositional : (s : List ℕ) → IsPlain s → IsPositional s
plain-IsPositional [] h = tt
plain-IsPositional (c ∷ []) h = tt
plain-IsPositional (c ∷ d ∷ s) h = h

-- What is used of the `clap` crate, which is not part of the repository: the arguments of the
-- subcommand are its fields in order, and a number is parsed to its field's type. Nothing is said of
-- arguments of which one before the second trailing value looks like an option.
pub record ClapCrate : Type 0 where
  pub parse : List (List ℕ) → Option DaemonRun
  pub parse_lem :
      (socket log program : List ℕ) (max_size scrollback rows cols : List ℕ) (args : List (List ℕ))
      (a b c d : ℕ)
      → IsPositional socket
      → IsPositional log
      → IsPositional program
      → AreTrailing args
      → parse_uint (2 ^ 64 - 1) max_size ≡ some a
      → parse_uint (2 ^ 64 - 1) scrollback ≡ some b
      → parse_uint (2 ^ 16 - 1) rows ≡ some c
      → parse_uint (2 ^ 16 - 1) cols ≡ some d
      → parse
          (daemon_subcommand ∷ socket ∷ log ∷ max_size ∷ scrollback ∷ rows ∷ cols ∷ program ∷ args)
        ≡ some (record {
          socket_path = socket;
          log_path = log;
          log_max_size = a;
          scrollback_size = b;
          rows = c;
          cols = d;
          program = program;
          args = args;
        })

-- A parser that does so: the four numbers, and the fields.
abbrev pub numbers_of : List ℕ → List ℕ → List ℕ → List ℕ → Option (ℕ × ℕ × ℕ × ℕ)
numbers_of max_size scrollback rows cols = elim (parse_uint (2 ^ 64 - 1) max_size) [
  | none ↦ none
  | some a ↦ elim (parse_uint (2 ^ 64 - 1) scrollback) [
    | none ↦ none
    | some b ↦ elim (parse_uint (2 ^ 16 - 1) rows) [
      | none ↦ none
      | some c ↦ elim (parse_uint (2 ^ 16 - 1) cols) [ none ↦ none | some d ↦ some (a, b, c, d) ]
    ]
  ]
]

abbrev fields_of : List (List ℕ) → Option DaemonRun
fields_of (sub ∷ socket ∷ log ∷ max_size ∷ scrollback ∷ rows ∷ cols ∷ program ∷ args) =
    elim (numbers_of max_size scrollback rows cols) [
      | none ↦ none
      | some (a, b, c, d) ↦ some (record {
        socket_path = socket;
        log_path = log;
        log_max_size = a;
        scrollback_size = b;
        rows = c;
        cols = d;
        program = program;
        args = args;
      })
    ]
fields_of _ = none

pub fields_of_lem :
    (socket log program : List ℕ) (max_size scrollback rows cols : List ℕ) (args : List (List ℕ))
    (a b c d : ℕ)
    → parse_uint (2 ^ 64 - 1) max_size ≡ some a
    → parse_uint (2 ^ 64 - 1) scrollback ≡ some b
    → parse_uint (2 ^ 16 - 1) rows ≡ some c
    → parse_uint (2 ^ 16 - 1) cols ≡ some d
    → fields_of
        (daemon_subcommand ∷ socket ∷ log ∷ max_size ∷ scrollback ∷ rows ∷ cols ∷ program ∷ args)
      ≡ some (record {
        socket_path = socket;
        log_path = log;
        log_max_size = a;
        scrollback_size = b;
        rows = c;
        cols = d;
        program = program;
        args = args;
      })
fields_of_lem socket log program max_size scrollback rows cols args a b c d ea eb ec ed =
    ground arith

abbrev pub parsed_in_order : ClapCrate
parsed_in_order = record {
  parse = fields_of;
  parse_lem = λ socket log program max_size scrollback rows cols args a b c d p q r t.
      fields_of_lem socket log program max_size scrollback rows cols args a b c d;
}

-- `(log_path != "-").then(..)`.
pub log_of : List ℕ → Option (List ℕ)
log_of path = if same_text path (codes "-") then none else some path

-- The request that `main` makes from the subcommand (crates/cli/src/main.rs).
pub request_of : DaemonRun → SpawnRequest
request_of d = record {
  socket_path = d.socket_path;
  log_path = log_of d.log_path;
  log_max_size = d.log_max_size;
  scrollback_size = d.scrollback_size;
  rows = d.rows;
  cols = d.cols;
  program = d.program;
  args = d.args;
}

-- A log beside the socket, or none.
abbrev pub IsLog : List ℕ → Option (List ℕ) → Type 0
IsLog socket none = Unit
IsLog socket (some path) = path ≡ log_path_for socket

log_of-log_argument :
    (socket : List ℕ) (log : Option (List ℕ)) → IsLog socket log → log_of (log_argument log) ≡ log
unfolding log_of
log_of-log_argument socket none h = refl
log_of-log_argument [] (some path) h = rw h
log_of-log_argument (x ∷ []) (some path) h = rw h (ground arith)
log_of-log_argument (x ∷ y ∷ ys) (some path) h = rw h (ground arith)

log_argument-IsPositional :
    (socket : List ℕ) (log : Option (List ℕ))
    → IsPlain socket
    → IsLog socket log
    → IsPositional (log_argument log)
log_argument-IsPositional socket none p h = tt
log_argument-IsPositional [] (some path) p h = rw h (λ e. omega (arith, e))
log_argument-IsPositional (x ∷ []) (some path) p h = rw h p
log_argument-IsPositional (x ∷ y ∷ ys) (some path) p h = rw h p

-- The daemon's process runs the request it was started with: the arguments that are made from a request
-- parse, and what is made of them is the request. Its numbers fit their types, its log is beside the
-- socket, and neither the socket's path nor the program nor the program's first argument looks like an option.
pub request_of-daemon_run_args :
    (clap : ClapCrate) (r : SpawnRequest)
    → r.log_max_size < 2 ^ 64
    → r.scrollback_size < 2 ^ 64
    → r.rows < 2 ^ 16
    → r.cols < 2 ^ 16
    → IsLog r.socket_path r.log_path
    → IsPlain r.socket_path
    → IsPositional r.program
    → AreTrailing r.args
    → (d : DaemonRun) × (clap.parse (daemon_run_args r) ≡ some d) × (request_of d ≡ r)
unfolding daemon_run_args request_of
request_of-daemon_run_args clap r a b c d log socket program trailing =
    let parsed =
      clap.parse_lem r.socket_path (log_argument r.log_path) r.program _ _ _ _ r.args r.log_max_size
        r.scrollback_size r.rows r.cols (plain-IsPositional r.socket_path socket)
        (log_argument-IsPositional r.socket_path r.log_path socket log) program trailing
        (parse_uint-decimal (2 ^ 64 - 1) r.log_max_size (omega arith))
        (parse_uint-decimal (2 ^ 64 - 1) r.scrollback_size (omega arith))
        (parse_uint-decimal (2 ^ 16 - 1) r.rows (omega arith))
        (parse_uint-decimal (2 ^ 16 - 1) r.cols (omega arith)) in
    (
      _,
      parsed,
      ap (λ l. record r { log_path = l }) (log_of-log_argument r.socket_path r.log_path log),
    )
