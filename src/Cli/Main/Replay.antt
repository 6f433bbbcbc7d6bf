-- ===== src/Cli/Main/Replay.antt =====
-- What is shown of the log, and the exit codes, on every way through the commands that attach.
use hytch.Common.{
  ℕ, ◌≡◌, refl, ◌∙◌, ◌⊎◌, inl, inr, Option, List, [], ◌∷◌, ◌++◌, Bool, true, false, arith,
}
use hytch.Common.Results.{Result, ok, err}
use hytch.Client.Attach.{AttachOutcome, detached, suspended, session_ended, input_closed}
use hytch.Cli.Attach.{AttachError, not_found, refused, within_itself, other, replay_log_to_stdout}
use hytch.Cli.Paths.{Environment, socket_path}
use hytch.Cli.Spawn.{SpawnRequest, SpawnError}
use hytch.Cli.Main.{
  Effect, attach_to, spawn_daemon, print, Calls, build_spawn_request, attach_code,
  cmd_attach_replayed, replay_effect, behind, after_spawn, create, created, cmd_new_after_replay,
  attach_or_create, cmd_default,
}

-- No replay, and each attach is told the same of an earlier one.
pub data Follows (shown : Bool) : List Effect → Type 0 where
  done : Follows shown []
  attach :
      {es : List Effect} (path : List ℕ) (detach_char : Option ℕ)
      → Follows shown es
      → Follows shown (attach_to path detach_char shown ∷ es)
  spawn :
      {es : List Effect} (req : SpawnRequest)
      → Follows shown es
      → Follows shown (spawn_daemon req ∷ es)
  say : {es : List Effect} (text : List ℕ) → Follows shown es → Follows shown (print text ∷ es)

attach_code-Follows :
    (shown : Bool) (text session : List ℕ) (answer : Result AttachError AttachOutcome)
    → Follows shown (attach_code text session answer).1
attach_code-Follows shown text session (ok o) = done
attach_code-Follows shown text session (err not_found) = say _ done
attach_code-Follows shown text session (err refused) = say _ done
attach_code-Follows shown text session (err within_itself) = say _ done
attach_code-Follows shown text session (err other) = say _ done

cmd_attach_replayed-Follows :
    (shown : Bool) (text session path : List ℕ) (detach_char : Option ℕ)
    (answer : Result AttachError AttachOutcome)
    → Follows shown (cmd_attach_replayed text session path detach_char shown answer).1
unfolding cmd_attach_replayed
cmd_attach_replayed-Follows shown text session path detach_char answer =
    attach path detach_char (attach_code-Follows shown text session answer)

after_spawn-Follows :
    (shown : Bool) (text session : List ℕ) (answer : Result SpawnError (Unit {0})) (quiet : Bool)
    (next : ℕ × List Effect)
    → Follows shown next.1
    → Follows shown (after_spawn text session answer (created quiet session) next).1
after_spawn-Follows shown text session (err e) quiet next h = say _ done
after_spawn-Follows shown text session (ok u) true next h = h
after_spawn-Follows shown text session (ok u) false next h = say _ h

create-Follows :
    (shown : Bool) (session : List ℕ) (calls : Calls) (req : Result (List ℕ) SpawnRequest)
    (quiet : Bool) (next : ℕ × List Effect)
    → Follows shown next.1
    → Follows shown (create session calls req (created quiet session) next).1
create-Follows shown session calls (err e) quiet next h = say _ done
create-Follows shown session calls (ok req) quiet next h =
    spawn req (after_spawn-Follows shown calls.error_text session calls.spawn quiet next h)

attach_or_create-Follows :
    (shown exists : Bool) (path : List ℕ) (detach_char : Option ℕ)
    (answer : Result AttachError AttachOutcome) (fallback : ℕ × List Effect)
    → Follows shown fallback.1
    → Follows shown (attach_or_create exists (attach_to path detach_char shown) answer fallback).1
attach_or_create-Follows shown true path detach_char (ok o) fallback h =
    attach path detach_char done
attach_or_create-Follows shown true path detach_char (err e) fallback h = attach path detach_char h
attach_or_create-Follows shown false path detach_char answer fallback h = h

-- However the bare command goes, whether it attaches to a session, fails to and creates one, or creates
-- one at once, it shows the log at most once, before all else, and every attach that it makes is told
-- whether it did.
pub cmd_default-Follows :
    (env : Environment) (session : List ℕ) (cmd : List (List ℕ)) (log_max_size : ℕ)
    (detach_char : Option ℕ) (quiet : Bool) (calls : Calls)
    → let (shown, bytes) = replay_log_to_stdout calls.log in
      (rest : List Effect) × ((cmd_default env
          (session ∷ cmd)
          log_max_size
          detach_char
          quiet
          calls).1
        ≡ replay_effect (shown, bytes) ++ rest)
      × Follows shown rest
unfolding cmd_default cmd_new_after_replay
cmd_default-Follows env session cmd log_max_size detach_char quiet calls =
    let (shown, bytes) = replay_log_to_stdout calls.log in
    (
      _,
      refl,
      attach_or_create-Follows shown calls.exists (socket_path env session) detach_char
          calls.first_attach _
          (create-Follows shown session calls (build_spawn_request env session cmd log_max_size)
            quiet _
            (cmd_attach_replayed-Follows shown calls.error_text session (socket_path env session)
              detach_char calls.second_attach)),
    )

-- An attach that ended with its session.
abbrev pub HasEnded : Result AttachError AttachOutcome → Type 0
HasEnded answer = answer ≡ ok session_ended

pub attach_code-HasEnded :
    (text session : List ℕ) (answer : Result AttachError AttachOutcome)
    → (attach_code text session answer).0 ≡ 90
    → HasEnded answer
attach_code-HasEnded text session (ok session_ended) h = refl
attach_code-HasEnded text session (ok detached) h = absurd (omega (arith, h))
attach_code-HasEnded text session (ok suspended) h = absurd (omega (arith, h))
attach_code-HasEnded text session (ok input_closed) h = absurd (omega (arith, h))
attach_code-HasEnded text session (err e) h = absurd (omega (arith, h))

pub create-HasEnded :
    (session : List ℕ) (calls : Calls) (req : Result (List ℕ) SpawnRequest)
    (answer : Result SpawnError (Unit {0})) (note : List Effect) (next : ℕ × List Effect)
    → calls.spawn ≡ answer
    → (create session calls req note next).0 ≡ 90
    → (calls.spawn ≡ ok tt) × (next.0 ≡ 90)
create-HasEnded session calls (err e) answer note next e' h = absurd (omega (arith, h))
create-HasEnded session calls (ok req) (err e) note next e' h = absurd (ground arith)
create-HasEnded session calls (ok req) (ok tt) note next e' h = (e', ground arith)

-- The bare command exits with 90, on which a login shell exits too, only if the attach that it made
-- last ended with its session: the first one, to a path that exists, or the one after a spawn that
-- succeeded, where there was no first one or it failed.
pub cmd_default-HasEnded :
    (env : Environment) (session : List ℕ) (cmd : List (List ℕ)) (log_max_size : ℕ)
    (detach_char : Option ℕ) (quiet : Bool) (calls : Calls)
    → (cmd_default env (session ∷ cmd) log_max_size detach_char quiet calls).0 ≡ 90
    → ((calls.exists ≡ true) × HasEnded calls.first_attach)
      ⊎ (((calls.exists ≡ false) ⊎ ((e : AttachError) × (calls.first_attach ≡ err e)))
          × (calls.spawn ≡ ok tt)
          × HasEnded calls.second_attach)
unfolding cmd_default cmd_new_after_replay cmd_attach_replayed
cmd_default-HasEnded env session cmd log_max_size detach_char quiet calls h =
    go calls.exists calls.first_attach refl refl h
  where
    created_next : ℕ × List Effect
    created_next =
        create session calls (build_spawn_request env session cmd log_max_size)
          (created quiet session)
          (behind
            (attach_to (socket_path env session) detach_char (replay_log_to_stdout calls.log).0
              ∷ [])
            (attach_code calls.error_text session calls.second_attach))

    made : created_next.0 ≡ 90 → (calls.spawn ≡ ok tt) × HasEnded calls.second_attach
    made h' =
        let (e, h'') =
          create-HasEnded session calls (build_spawn_request env session cmd log_max_size)
            calls.spawn (created quiet session) _ refl h' in
        (e, attach_code-HasEnded calls.error_text session calls.second_attach h'')

    go :
        (exists : Bool) (first : Result AttachError AttachOutcome)
        → calls.exists ≡ exists
        → calls.first_attach ≡ first
        → (attach_or_create exists
            (attach_to (socket_path env session) detach_char (replay_log_to_stdout calls.log).0)
            first
            created_next).0
          ≡ 90
        → ((calls.exists ≡ true) × HasEnded calls.first_attach)
          ⊎ (((calls.exists ≡ false) ⊎ ((e : AttachError) × (calls.first_attach ≡ err e)))
              × (calls.spawn ≡ ok tt)
              × HasEnded calls.second_attach)
    go true (ok o) e e' h' = inl (e, e' ∙ attach_code-HasEnded [] session (ok o) h')
    go true (err x) e e' h' = let (p, q) = made h' in inr (inr (x, e'), p, q)
    go false first e e' h' = let (p, q) = made h' in inr (inl e, p, q)
