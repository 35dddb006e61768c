-- ===== src/Dp8/Engine/Addressees.antt =====
-- Messages go only to clients from which something came (internal/dp8/engine.go).
use open_zone.Base.{ℕ, ◌≤◌, ◌≡◌, false, [], ◌∷◌, nat_eq, arith, eqb, ap}
use open_zone.Dp8.Engine.{wire, sweep}
use open_zone.Dp8.Engine.Runs.{handle_event-out_q}
use open_zone.Dp8.Engine.Silence.{
  waiting, messages_for, waiting-other, waiting-enqueue-le, delivered-append,
}
use open_zone.Dp8.Engine.Steps.{World, Step, handled, offered, sends, swept, Steps, done, step}

-- No event of the run is one of `d`.
abbrev pub OthersStep : ℕ → (u v : World) → Step u v → Type 0
OthersStep d u v (handled evt w idle) = eqb evt.dpnid d ≡ false
OthersStep d u v (offered o rest w e) = Unit
OthersStep d u v (sends o rest w e) = Unit
OthersStep d u v (swept wall now w) = Unit

abbrev pub OthersAll : ℕ → (u v : World) → Steps u v → Type 0
OthersAll d u v (done w) = Unit
OthersAll d u v (step x y z s r) = OthersStep d x y s × OthersAll d y z r

Step-others :
    (d : ℕ) (u v : World) (s : Step u v) → OthersStep d u v s → messages_for d v ≤ messages_for d u
Step-others d u v (handled evt w idle) other =
    omega
      (arith, waiting-other d evt w.engine other, ap (waiting d) (handle_event-out_q evt w.engine))
Step-others d u v (offered o rest w e) other =
    omega (arith, waiting-enqueue-le d o w.engine.out_q, ap (waiting d) e)
Step-others d u v (sends o rest w e) other =
    unfold wire in omega (arith, delivered-append d w.sent (wire o ∷ []), ap (waiting d) e)
Step-others d u v (swept wall now w) other = unfold sweep in omega arith

-- A client gets nothing but answers: over a run in which no event is its own, the messages for it that are
-- sent, queued and waiting together do not grow, whatever the other clients send.
pub Steps-others :
    (d : ℕ) (u v : World) (r : Steps u v) → OthersAll d u v r → messages_for d v ≤ messages_for d u
Steps-others d u v (done w) others = omega arith
Steps-others d u v (step x y z s r) others =
    omega (arith, Step-others d x y s others.0, Steps-others d y z r others.1)
