-- ===== src/Daemon/System/Tests.antt =====
-- One client of a daemon with a scrollback of two bytes: output before it comes, and after.
use hytch.Common.{
  if◌then◌else◌, ℕ, ◌≡◌, refl, sym, ap, ◌∙◌, append-nil, map, some, none, List, [], ◌∷◌, ◌++◌, true,
  false, concat, drop, last, length, length-drop, arith, ◌≤◌, ◌+◌, ◌<◌,
}
use hytch.Common.Results.{ok}
use hytch.Proto.ListBytes.{list_bytes}
use hytch.Proto.Message.{Message}
use hytch.Fanout
use hytch.Fanout.LogChannel.{log_channel}
use hytch.Daemon.Signals.{numbers}
use hytch.Daemon.Client.{ControlCommand, send_control, handle_event, on_message, on_attach}
use hytch.Daemon.Loop.{Ready, round, late_branches}
use hytch.Daemon.Loop.Tests.{fresh, fresh_started, quiet, speaks}
use hytch.Daemon.Loop.Output.{output_of}
use hytch.Daemon.System.{System, output, init, Fits, update, taken, given, Step, Reach}
use hytch.Daemon.System.Lagging.{HasRoom, InTime, NeverLags}
use hytch.Daemon.System.Invariant.{attached-view}
use hytch.Daemon.System.Screen.{terminal_shows}
use hytch.Daemon.System.Queues.{queues-in_order}
use hytch.Daemon.Loop.Order.{input_of, commands_of}
use hytch.Common.Tagged.{Interleaves}
use hytch.Client.Attach.{run}
use hytch.Client.Attach.Happening.{event_of, new_link}
use hytch.Client.Attach.Tests.{options, read_so_far, read-goes_on}

abbrev S : Type 0
S = System log_channel numbers

abbrev after_round : Ready log_channel numbers → S → S
after_round r t = record t { daemon = (round log_channel numbers r t.daemon).1 }

abbrev came : S
came = after_round (record quiet { accepted = some true }) (init log_channel numbers fresh)

abbrev spoke : S
spoke = after_round (speaks (1 ∷ 2 ∷ 3 ∷ [])) came

abbrev joined : S
joined = taken log_channel numbers spoke 0 true (some (ok (Message.attach false))) none

abbrev more : S
more = after_round (speaks (4 ∷ [])) joined

abbrev seen : S
seen = given log_channel numbers more 0 true 1

one_client : spoke.daemon.clients ≡ 1
unfolding round late_branches
one_client = refl

opened : (joined.handlers 0).attached ≡ some (some 1)
unfolding handle_event on_message on_attach update round late_branches
opened = unfold Fanout.attach Fanout.push in refl

room_left : HasRoom log_channel numbers 0 joined
unfolding handle_event on_message on_attach round late_branches
room_left rx e =
    unfold Fanout.attach Fanout.push in
    omega (arith, length-drop {A = List ℕ} rx ((1 ∷ 2 ∷ 3 ∷ []) ∷ []))

new_chunk : drop 1 more.daemon.fanout.tx.chunks ≡ (4 ∷ []) ∷ []
unfolding handle_event on_message on_attach round late_branches
new_chunk = unfold Fanout.attach Fanout.push in refl

fits : Fits log_channel numbers joined.daemon
unfolding handle_event on_message on_attach round late_branches
fits = (omega arith, omega arith)

served : 0 < spoke.daemon.clients
served = omega (arith, one_client)

abbrev way_in : Reach log_channel numbers fresh joined
way_in =
    Reach.later
      (Reach.later (Reach.later Reach.here (Step.loops (record quiet { accepted = some true })))
        (Step.loops (speaks (1 ∷ 2 ∷ 3 ∷ []))))
      (Step.takes 0 true (some (ok (Message.attach false))) none served refl fits)

abbrev way : Reach log_channel numbers fresh more
way = Reach.later way_in (Step.loops (speaks (4 ∷ [])))

served_still : 0 < more.daemon.clients
unfolding handle_event on_message on_attach round late_branches
served_still = omega arith

opened_still : (more.handlers 0).attached ≡ some (some 1)
opened_still = opened

abbrev whole_way : Reach log_channel numbers fresh seen
whole_way = Reach.later way (Step.gives 0 true 1 (4 ∷ []) [] served_still opened_still new_chunk)

never_lags : NeverLags 0 whole_way
unfolding NeverLags InTime
never_lags = (((((tt, λ rx e. cc), λ rx e. cc), tt), room_left), tt)

opened_at_end : (seen.handlers 0).attached ≡ some (some 2)
unfolding handle_event on_message on_attach update round late_branches
opened_at_end = unfold Fanout.attach Fanout.push in refl

attached-view_example :
    let h = seen.handlers 0 in
    let out = output log_channel numbers seen.daemon in
    let since = drop h.joined out in
    (h.joined ≤ length out)
    × (h.wrote ++ concat (drop 2 seen.daemon.fanout.tx.chunks)
        ≡ h.earlier ++ (if h.skipped then since else last (2 + length since) out))
attached-view_example =
    attached-view log_channel numbers true 2 whole_way 0 2 never_lags (omega arith) fresh_started
      opened_at_end

-- What was read in all, and that nothing waits for the client.
whole_output : output log_channel numbers seen.daemon ≡ 1 ∷ 2 ∷ 3 ∷ 4 ∷ []
unfolding handle_event on_message on_attach round late_branches output_of
whole_output = unfold Fanout.attach Fanout.push in refl

nothing_waits : drop 2 seen.daemon.fanout.tx.chunks ≡ []
unfolding handle_event on_message on_attach round late_branches
nothing_waits = unfold Fanout.attach Fanout.push in refl

joined_there :
    seen.handlers 0 ≡ record (seen.handlers 0) { earlier = []; joined = 3; skipped = false }
unfolding handle_event on_message on_attach update round late_branches output_of
joined_there = unfold Fanout.attach Fanout.push in refl

-- The ring's two bytes and the one that came since.
written : (seen.handlers 0).wrote ≡ 2 ∷ 3 ∷ 4 ∷ []
written =
    let out = output log_channel numbers seen.daemon in
    let view =
      (attached-view log_channel numbers true 2 whole_way 0 2 never_lags (omega arith) fresh_started
        opened_at_end).1 in
    sym (append-nil (seen.handlers 0).wrote)
    ∙ ap (λ l. (seen.handlers 0).wrote ++ concat l) (sym nothing_waits)
    ∙ view
    ∙ ap
        (λ h.
          h.earlier
          ++ (if h.skipped then drop h.joined out else last (2 + length (drop h.joined out)) out))
        joined_there
    ∙ ap (λ l. last (2 + length (drop 3 l)) l) whole_output

-- The client has read the ring's bytes, and the last byte is on its way.
terminal_shows_example :
    let out = output log_channel numbers seen.daemon in
    let since = drop (seen.handlers 0).joined out in
    (run list_bytes options none none (map event_of read_so_far) new_link).1.screen
      ++ ((4 ∷ []) ++ concat (drop 2 seen.daemon.fanout.tx.chunks))
    ≡ (if (seen.handlers 0).skipped then since else last (2 + length since) out)
terminal_shows_example =
    terminal_shows log_channel numbers list_bytes true 2 whole_way 0 2 options read_so_far (4 ∷ [])
      never_lags (omega arith) fresh_started opened_at_end (ap (λ h. h.earlier) joined_there)
      (omega arith, omega arith) (tt, tt) (sym written) read-goes_on

-- The client sends input, and then its size, which wait for the loop.
abbrev typed : S
typed = taken log_channel numbers joined 0 true (some (ok (Message.push (7 ∷ [])))) (some 1)

abbrev sized : S
sized = taken log_channel numbers typed 0 true (some (ok (Message.winch 24 80))) (some 1)

served_there : 0 < joined.daemon.clients
unfolding handle_event on_message on_attach round late_branches
served_there = omega arith

enough_room : Fits log_channel numbers typed.daemon
unfolding handle_event on_message on_attach round late_branches
enough_room = (omega arith, omega arith)

room_for_both : Fits log_channel numbers sized.daemon
unfolding handle_event on_message send_control on_attach round late_branches
room_for_both = (omega arith, omega arith)

served_typing : 0 < typed.daemon.clients
unfolding handle_event on_message on_attach round late_branches
served_typing = omega arith

still_there : (typed.handlers 0).attached ≡ some (some 1)
unfolding handle_event on_message on_attach update round late_branches
still_there = unfold Fanout.attach Fanout.push in refl

both_wait :
    (sized.daemon.pushes ≡ (7 ∷ []) ∷ [])
    × (sized.daemon.controls ≡ ControlCommand.resize 24 80 ∷ [])
unfolding handle_event on_message send_control on_attach round late_branches
both_wait = unfold Fanout.attach Fanout.push in (refl, refl)

queues-in_order_example :
    Interleaves (input_of sized.daemon.pty ++ sized.daemon.pushes) (λ i. (sized.handlers i).pushed)
    × Interleaves
        (commands_of sized.daemon.pty ++ sized.daemon.controls)
        (λ i. (sized.handlers i).commanded)
queues-in_order_example =
    queues-in_order log_channel numbers true 2
      (Reach.later
        (Reach.later way_in (
          Step.takes 0 true (some (ok (Message.push (7 ∷ [])))) (some 1) served_there opened
            enough_room))
        (Step.takes 0 true (some (ok (Message.winch 24 80))) (some 1) served_typing still_there
          room_for_both))
      fresh_started
