-- ===== src/Cli/Attach/Terminal.antt =====
-- The terminal's attributes, on every way out of an attach.
use hytch.Common.{
  ℕ, ◌≡◌, ◌≢◌, if◌then◌else◌, refl, ◌⊎◌, inl, inr, Option, none, some, List, Bool, true, false,
  Bool-cases, arith,
}
use hytch.Common.Results.{Result, ok, err}
use hytch.Proto.Buffer.{BytesCrate}
use hytch.Client.RawMode.{TermiosCrate, RawModeGuard, enable}
use hytch.Client.Attach.{AttachOutcome, IoError, Link, run}
use hytch.Cli.Attach.{
  Answers, AttachError, other, Attached, refuse, leave, options, no_link, blank_line, attach_with,
  attach_connected, attach_foreground, self_attach_error,
}

module _ (b : BytesCrate) (t : TermiosCrate) where
  -- While the loop runs a terminal is raw, and once the attach has ended it is as before.
  abbrev pub Kept : Bool → t.Termios → Attached b t → Type 0
  Kept is_tty tty r =
      ((r.result ≡ ok none) × (r.attrs ≡ (if is_tty then t.make_raw tty else tty)))
      ⊎ ((r.result ≢ ok none) × (r.attrs ≡ tty))

  leave-Kept :
      (quiet : Bool) (guard : RawModeGuard t) (out : Result IoError (Option AttachOutcome) × Link)
      (tty : t.Termios) (notes : List ℕ)
      → guard.original ≡ tty
      → Kept true tty (leave b t quiet true (some guard) out (t.make_raw tty) notes)
  leave-Kept quiet guard (ok none, link) tty notes e = inl (refl, refl)
  leave-Kept quiet guard (ok (some o), link) tty notes e = inr (λ e'. cc, e)
  leave-Kept quiet guard (err x, link) tty notes e = inr (λ e'. cc, e)

  leave_plain :
      (quiet restored : Bool) (out : Result IoError (Option AttachOutcome) × Link) (tty : t.Termios)
      (notes : List ℕ)
      → Kept false tty (leave b t quiet restored none out tty notes)
  leave_plain quiet restored (ok none, link) tty notes = inl (refl, refl)
  leave_plain quiet restored (ok (some o), link) tty notes = inr (λ e. cc, refl)
  leave_plain quiet restored (err x, link) tty notes = inr (λ e. cc, refl)

  leave-link :
      (quiet restored : Bool) (guard : Option (RawModeGuard t))
      (out : Result IoError (Option AttachOutcome) × Link) (tty : t.Termios) (notes : List ℕ)
      → (leave b t quiet restored guard out tty notes).link ≡ out.1
  leave-link quiet restored guard (ok none, link) tty notes = refl
  leave-link quiet restored (some guard) (ok (some o), link) tty notes = refl
  leave-link quiet restored none (ok (some o), link) tty notes = refl
  leave-link quiet restored (some guard) (err x, link) tty notes = refl
  leave-link quiet restored none (err x, link) tty notes = refl

module _ (b : BytesCrate) (t : TermiosCrate) (a : Answers) (detach_char : Option ℕ)
    (replayed quiet : Bool) (tty : t.Termios) where
  pub attach_with-link :
      (guard : Option (RawModeGuard t)) (tty' : t.Termios)
      → (attach_with b t a detach_char replayed quiet guard tty').link
        ≡ (run b
            (options a detach_char replayed)
            a.first_write
            a.second_write
            a.events
            (no_link b t)).1
  unfolding attach_with
  attach_with-link guard tty' =
      leave-link b t quiet a.restored guard
        (run b (options a detach_char replayed) a.first_write a.second_write a.events (no_link b t))
        tty' (blank_line b t quiet replayed)

  pub connected_raw :
      a.is_tty ≡ true
      → a.got_attrs ≡ true
      → a.set_attrs ≡ true
      → attach_connected b t a detach_char replayed quiet tty
        ≡ attach_with b t a detach_char replayed quiet
            (some (record { original = tty }))
            (t.make_raw tty)
  unfolding attach_connected enable
  connected_raw e e' e'' = ground arith

  pub connected_plain :
      a.is_tty ≡ false
      → attach_connected b t a detach_char replayed quiet tty
        ≡ attach_with b t a detach_char replayed quiet none tty
  unfolding attach_connected
  connected_plain e = ground arith

  connected_refused :
      a.is_tty ≡ true
      → (a.got_attrs ≡ false) ⊎ (a.set_attrs ≡ false)
      → attach_connected b t a detach_char replayed quiet tty ≡ refuse b t other tty
  unfolding attach_connected enable
  connected_refused e h = ground arith

  connected-Kept :
      a.restored ≡ true
      → Kept b t a.is_tty tty (attach_connected b t a detach_char replayed quiet tty)
  unfolding attach_with
  connected-Kept h = elim (Bool-cases a.is_tty) [
    | inr e ↦ rw (connected_plain e, e) (leave_plain b t quiet a.restored _ tty _)
    | inl e ↦ elim (Bool-cases a.got_attrs) [
      | inr e' ↦ rw (connected_refused e (inl e')) (inr (λ x. cc, refl))
      | inl e' ↦ elim (Bool-cases a.set_attrs) [
        | inr e'' ↦ rw (connected_refused e (inr e'')) (inr (λ x. cc, refl))
        | inl e'' ↦
            rw (connected_raw e e' e'', e, h)
              (leave-Kept b t quiet (record { original = tty }) _ tty _ refl)
      ]
    ]
  ]

module _ (b : BytesCrate) (t : TermiosCrate) where
  -- However an attach ends, at a refusal, an error or an outcome, the terminal has the attributes that
  -- it had before; while its loop runs, a terminal is in raw mode, and what is no terminal is left
  -- alone. The terminal takes its attributes back when it is asked to.
  pub attach_foreground-Kept :
      (a : Answers) (socket_path : List ℕ) (detach_char : Option ℕ) (replayed quiet : Bool)
      (tty : t.Termios)
      → a.restored ≡ true
      → Kept b t a.is_tty tty (attach_foreground b t a socket_path detach_char replayed quiet tty)
  unfolding attach_foreground
  attach_foreground-Kept a socket_path detach_char replayed quiet tty h =
      go (self_attach_error a.chain socket_path) a.connection
    where
      go :
          (e : Option AttachError) (conn : Result AttachError (Unit {0}))
          → Kept b t a.is_tty tty (elim e [
            | some x ↦ refuse b t x tty
            | none ↦ elim conn [
              | err x ↦ refuse b t x tty
              | ok u ↦ attach_connected b t a detach_char replayed quiet tty
            ]
          ])
      go (some x) conn = inr (λ e. cc, refl)
      go none (err x) = inr (λ e. cc, refl)
      go none (ok u) = connected-Kept b t a detach_char replayed quiet tty h
