-- ===== src/Cli/Dispatch/ExitCode.antt =====
-- The exit code that says that a session has ended.
use mathlib.Core.Option.{some-injective}
use hytch.Common.{
  subst, ◌≤◌, ℕ, ◌≡◌, ◌≢◌, refl, ◌⊎◌, inl, inr, Option, none, some, List, [], ◌∷◌, Bool, true,
  false, arith, Bool-cases, Option-cases,
}
use hytch.Common.Results.{ok, Result-cases}
use hytch.Proto.Buffer.{BytesCrate}
use hytch.Proto.Message.{Message}
use hytch.Proto.Codec.{encode}
use hytch.Cli.Command.{Command, Cli, is_internal}
use hytch.Cli.Push.{Round, push_loop, push}
use hytch.Cli.Kill.{Poll, wait_gone, verdict, max_wait, escalate, kill}
use hytch.Cli.Files.{
  Files, Opened, opened, missing, failed, rm, clear, cmd_rm, cmd_clear, current, named,
}
use hytch.Cli.List.{ReadDir, list}
use hytch.Cli.Main.{
  cmd_attach_replayed, cmd_attach, cmd_new_after_replay, cmd_new, cmd_start, cmd_default,
}
use hytch.Cli.Main.Replay.{HasEnded, attach_code-HasEnded, create-HasEnded, cmd_default-HasEnded}
use hytch.Cli.Dispatch.{World, dispatch}

-- A code of 0 or 1, or none yet.
abbrev pub IsPlain : Option ℕ → Type 0
IsPlain none = Unit
IsPlain (some code) = code ≤ 1

IsPlain-ne : (code : Option ℕ) → IsPlain code → code ≢ some 90
IsPlain-ne code h e = let too_large = subst IsPlain e h in omega (arith, too_large)

push_loop-IsPlain :
    (b : BytesCrate) (rounds : List Round) (wire : List ℕ) → IsPlain (push_loop b rounds wire).0
unfolding push_loop
push_loop-IsPlain b [] wire = tt
push_loop-IsPlain b (r ∷ rs) wire = elim (Result-cases r.read) [
  | inr (e, h) ↦ rw (push_loop, h) (omega arith)
  | inl ([], h) ↦ rw (push_loop, h) (omega arith)
  | inl (c ∷ cs, h) ↦ elim (Result-cases (encode b (Message.push (c ∷ cs)) []).0) [
    | inr (e, h') ↦ rw (push_loop, h, h') (omega arith)
    | inl (u, h') ↦ elim (Option-cases r.writing) [
      | inr (k, h'') ↦ rw (push_loop, h, h', h'') (omega arith)
      | inl h'' ↦ rw (push_loop, h, h', h'') (push_loop-IsPlain b rs _)
    ]
  ]
]

push-IsPlain :
    (b : BytesCrate) (connected : Bool) (rounds : List Round) → IsPlain (push b connected rounds).0
unfolding push
push-IsPlain b true rounds = push_loop-IsPlain b rounds []
push-IsPlain b false rounds = omega arith

verdict-IsPlain : (gone : Option Bool) (signals : List ℕ) → IsPlain (verdict gone signals).0
verdict-IsPlain none signals = tt
verdict-IsPlain (some true) signals = omega arith
verdict-IsPlain (some false) signals = omega arith

kill-IsPlain :
    (force sent : Bool) (polls : List Poll) (sent_again : Bool) (more_polls : List Poll)
    → IsPlain (kill force sent polls sent_again more_polls).0
unfolding kill escalate
kill-IsPlain force false polls sent_again more_polls = omega arith
kill-IsPlain force true polls sent_again more_polls =
    go force (wait_gone (max_wait force) polls) refl
  where
    go :
        (force' : Bool) (gone : Option Bool)
        → wait_gone (max_wait force) polls ≡ gone
        → IsPlain (kill force true polls sent_again more_polls).0
    go force' none e = rw e tt
    go force' (some true) e = rw e (omega arith)
    go force' (some false) e = elim (Bool-cases force) [
      | inl f ↦ rw (e, f) (omega arith)
      | inr f ↦ rw (e, f) (verdict-IsPlain (wait_gone 2000 more_polls) _)
    ]

rm-IsPlain :
    (listening socket_granted log_granted : Bool) (socket log name : List ℕ) (quiet : Bool)
    (files : Files)
    → IsPlain (some (rm listening socket_granted log_granted socket log name quiet files).0)
unfolding rm
rm-IsPlain listening socket_granted log_granted socket log name quiet files = ground arith

clear-IsPlain :
    (answer : Opened) (granted : Bool) (log name : List ℕ) (quiet : Bool) (files : Files)
    → IsPlain (some (clear answer granted log name quiet files).0)
unfolding clear
clear-IsPlain opened granted log name quiet files = omega arith
clear-IsPlain missing granted log name quiet files = omega arith
clear-IsPlain (failed text) granted log name quiet files = omega arith

list-IsPlain :
    (probe there : List ℕ → Bool) (dir : List ℕ) (all quiet : Bool) (found : ReadDir)
    → IsPlain (some (list probe there dir all quiet found).0)
unfolding list
list-IsPlain probe there dir all quiet (ReadDir.entries names) = omega arith
list-IsPlain probe there dir all quiet ReadDir.missing = omega arith
list-IsPlain probe there dir all quiet (ReadDir.failed text) = omega arith

current-IsPlain : (chain : Option (List ℕ)) → IsPlain (some (current chain).0)
unfolding current
current-IsPlain none = omega arith
current-IsPlain (some []) = omega arith
current-IsPlain (some (b ∷ bs)) = omega arith

files-IsPlain :
    (w : World) (quiet all : Bool) (session : Option (List ℕ))
    → IsPlain (some (cmd_clear w.env w.opened w.truncated session w.chain quiet w.files).0)
      × IsPlain (
          some
            (cmd_rm w.env w.listening w.socket_granted w.log_granted all session quiet w.files).0)
unfolding cmd_clear cmd_rm
files-IsPlain w quiet all session = (cleared (named session w.chain) refl, removed all session)
  where
    cleared :
        (name : Option (List ℕ))
        → named session w.chain ≡ name
        → IsPlain (some (cmd_clear w.env w.opened w.truncated session w.chain quiet w.files).0)
    cleared none e = rw (cmd_clear, e) (omega arith)
    cleared (some name) e =
        rw (cmd_clear, e) (clear-IsPlain w.opened w.truncated _ name quiet w.files)

    removed :
        (all' : Bool) (session' : Option (List ℕ))
        → IsPlain (
            some
              (cmd_rm w.env w.listening w.socket_granted w.log_granted all' session' quiet
                w.files).0)
    removed true session' = omega arith
    removed false none = omega arith
    removed false (some name) =
        rm-IsPlain w.listening w.socket_granted w.log_granted _ _ name quiet w.files

-- A command other than the hidden one exits with 90, on which a login shell exits too, only if an attach
-- ended with its session: the first one, or the one after a spawn that succeeded.
pub dispatch-HasEnded :
    (b : BytesCrate) (w : World) (cli : Cli) (command : Command)
    → is_internal command ≡ false
    → dispatch b w cli command ≡ some 90
    → HasEnded w.calls.first_attach ⊎ ((w.calls.spawn ≡ ok tt) × HasEnded w.calls.second_attach)
unfolding dispatch cmd_attach cmd_new cmd_new_after_replay cmd_attach_replayed cmd_start cmd_default
dispatch-HasEnded b w cli (Command.attach session) i e =
    inl
      (attach_code-HasEnded w.calls.error_text session w.calls.first_attach (some-injective _ _ e))
dispatch-HasEnded b w cli (Command.new session cmd) i e =
    let (spawned, ended) =
      create-HasEnded session w.calls _ w.calls.spawn _ _ refl (some-injective _ _ e) in
    inr (spawned, attach_code-HasEnded w.calls.error_text session w.calls.second_attach ended)
dispatch-HasEnded b w cli (Command.start session cmd) i e =
    let (spawned, ended) =
      create-HasEnded session w.calls _ w.calls.spawn _ _ refl (some-injective _ _ e) in
    absurd (omega (arith, ended))
dispatch-HasEnded b w cli (Command.push session) i e =
    absurd (IsPlain-ne _ (push-IsPlain b w.connected w.rounds) e)
dispatch-HasEnded b w cli (Command.kill force session) i e =
    absurd (IsPlain-ne _ (kill-IsPlain force w.sent w.polls w.sent_again w.more_polls) e)
dispatch-HasEnded b w cli (Command.clear session) i e =
    absurd (IsPlain-ne _ (files-IsPlain w cli.quiet true session).0 e)
dispatch-HasEnded b w cli (Command.list all) i e =
    absurd (IsPlain-ne _ (list-IsPlain w.probe w.there _ all cli.quiet w.directory) e)
dispatch-HasEnded b w cli (Command.rm all session) i e =
    absurd (IsPlain-ne _ (files-IsPlain w cli.quiet all session).1 e)
dispatch-HasEnded b w cli Command.current i e = absurd (IsPlain-ne _ (current-IsPlain w.chain) e)
dispatch-HasEnded b w cli (Command.daemon_run d) i e = absurd (cc)
dispatch-HasEnded b w cli (Command.default []) i e =
    absurd (let code = some-injective _ _ e in omega (arith, code))
dispatch-HasEnded b w cli (Command.default (session ∷ cmd)) i e =
    elim (cmd_default-HasEnded w.env session cmd _ _ cli.quiet w.calls (some-injective _ _ e)) [
      | inl (exists, ended) ↦ inl ended
      | inr (why, spawned, ended) ↦ inr (spawned, ended)
    ]
