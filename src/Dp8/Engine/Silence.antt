-- ===== src/Dp8/Engine/Silence.antt =====
-- Over a whole run, an evicted client gets nothing but what was already waiting for it.
use open_zone.Base.{
  ℕ, ◌+◌, ◌≤◌, ◌≡◌, refl, sym, ap, subst, false, none, some, List, [], ◌∷◌, ◌++◌, nat_eq, text_eq,
  arith, eqb, eqb_iff, map, if◌then◌else◌, Bool-cases, inl, inr, Option,
}
use open_zone.Base.Dict.{get}
use open_zone.State.Players.Lifetime.{perform, sweep_call}
use open_zone.Proto.Xmlish.{Msg, parse}
use open_zone.Proto.Engine.{Outbound}
use open_zone.Proto.Engine.Dispatch.{handle}
use open_zone.Dp8.Engine.{
  Engine, Event, OutMsg, Sent, apply_kind, apply_message, handle_event, answer, out_msg, enqueue,
  wire, sweep, or_no_remote,
}
use open_zone.Dp8.Engine.Steps.{World, Step, handled, offered, sends, swept, Steps, done, step}
use open_zone.Dp8.Engine.Evicted.{
  HasEvicted, SparesClient, on_players-HasEvicted, handle_event-HasEvicted, handle_event-evicted,
  apply_kind-pending,
}
use open_zone.Dp8.Engine.Runs.{handle_event-out_q}

-- How many messages for a client a list holds.
abbrev pub waiting : ℕ → List OutMsg → ℕ
waiting d [] = 0
waiting d (o ∷ os) = (if eqb o.dpnid d then 1 else 0) + waiting d os

abbrev pub delivered : ℕ → List Sent → ℕ
delivered d [] = 0
delivered d (o ∷ os) = (if eqb o.dpnid d then 1 else 0) + delivered d os

-- All messages for a client: sent, in the queue, or still to be offered to it.
abbrev pub messages_for : ℕ → World → ℕ
messages_for d w = delivered d w.sent + (waiting d w.engine.out_q + waiting d w.engine.pending)

waiting-append : (d : ℕ) (a b : List OutMsg) → waiting d (a ++ b) ≡ waiting d a + waiting d b
waiting-append d [] b = omega arith
waiting-append d (o ∷ a) b = omega (arith, waiting-append d a b)

pub delivered-append :
    (d : ℕ) (a b : List Sent) → delivered d (a ++ b) ≡ delivered d a + delivered d b
delivered-append d [] b = omega arith
delivered-append d (o ∷ a) b = omega (arith, delivered-append d a b)

waiting-outs :
    (d k : ℕ) (outs : List Outbound) → eqb k d ≡ false → waiting d (map (out_msg k) outs) ≡ 0
waiting-outs d k [] ne = refl
waiting-outs d k (o ∷ outs) ne = ground (arith, waiting-outs d k outs ne)

answer-waiting :
    (d : ℕ) (evt : Event) (o : Option Msg) (e : Engine)
    → eqb evt.dpnid d ≡ false
    → waiting d (answer evt o e).pending ≡ waiting d e.pending
answer-waiting d evt none e ne = refl
answer-waiting d evt (some m) e ne =
    let ip = (or_no_remote (get e.client_remote evt.dpnid)).ip in
    let outs = (handle evt.now evt.clock evt.dpnid ip m e.proto).1 in
    omega (
      arith,
      waiting-append d e.pending (map (out_msg evt.dpnid) outs),
      waiting-outs d evt.dpnid outs ne,
    )

-- An event of another client adds nothing for `d`.
pub waiting-other :
    (d : ℕ) (evt : Event) (e : Engine)
    → eqb evt.dpnid d ≡ false
    → waiting d (handle_event evt e).pending ≡ waiting d e.pending
unfolding handle_event apply_message
waiting-other d evt e ne = ground (
  arith,
  answer-waiting d evt (parse evt.payload) (apply_kind evt e) ne,
  apply_kind-pending evt e,
  ap (waiting d) (apply_kind-pending evt e).0,
)

waiting-handle_event :
    (d : ℕ) (evt : Event) (e : Engine)
    → SparesClient d evt
    → HasEvicted d e.proto
    → waiting d (handle_event evt e).pending ≡ waiting d e.pending
waiting-handle_event d evt e spares h = elim (Bool-cases (eqb evt.dpnid d)) [
  | inl own ↦
      let same : d ≡ evt.dpnid = sym ((eqb_iff evt.dpnid d).0 own) in
      ap (waiting d)
        (handle_event-evicted evt e (subst (λ k. SparesClient k evt) same spares)
          (subst (λ k. HasEvicted k e.proto) same h)).0
  | inr other ↦ waiting-other d evt e other
]

pub waiting-enqueue-le :
    (d : ℕ) (o : OutMsg) (q : List OutMsg)
    → waiting d (enqueue o q) ≤ waiting d q + (if eqb o.dpnid d then 1 else 0)
unfolding enqueue
waiting-enqueue-le d o q = ground (arith, waiting-append d q (o ∷ []))

-- No event of the run ends the session of `d`.
abbrev pub SparesStep : ℕ → (u v : World) → Step u v → Type 0
SparesStep d u v (handled evt w idle) = SparesClient d evt
SparesStep d u v (offered o rest w e) = Unit
SparesStep d u v (sends o rest w e) = Unit
SparesStep d u v (swept wall now w) = Unit

abbrev pub SparesAll : ℕ → (u v : World) → Steps u v → Type 0
SparesAll d u v (done w) = Unit
SparesAll d u v (step x y z s r) = SparesStep d x y s × SparesAll d y z r

Step-evicted :
    (d : ℕ) (u v : World) (s : Step u v)
    → SparesStep d u v s
    → HasEvicted d u.engine.proto
    → HasEvicted d v.engine.proto × (messages_for d v ≤ messages_for d u)
Step-evicted d u v (handled evt w idle) spares h = (
  handle_event-HasEvicted evt d w.engine spares h,
  omega (
    arith,
    waiting-handle_event d evt w.engine spares h,
    ap (waiting d) (handle_event-out_q evt w.engine),
  ),
)
Step-evicted d u v (offered o rest w e) spares h =
    (h, omega (arith, waiting-enqueue-le d o w.engine.out_q, ap (waiting d) e))
Step-evicted d u v (sends o rest w e) spares h =
    (h, unfold wire in omega (arith, delivered-append d w.sent (wire o ∷ []), ap (waiting d) e))
Step-evicted d u v (swept wall now w) spares h = (
  unfold sweep perform in on_players-HasEvicted (sweep_call wall now _) d w.engine.proto tt h,
  unfold sweep in omega arith,
)

-- Once a client is evicted, and as long as no event ends its session, it stays evicted, and no new
-- message for it appears: those sent, queued and waiting together do not grow, whatever the client
-- sends and however events, sends and sweeps interleave.
pub Steps-evicted :
    (d : ℕ) (u v : World) (r : Steps u v)
    → SparesAll d u v r
    → HasEvicted d u.engine.proto
    → HasEvicted d v.engine.proto × (messages_for d v ≤ messages_for d u)
Steps-evicted d u v (done w) spares h = (h, omega arith)
Steps-evicted d u v (step x y z s r) spares h =
    let (first, fewer) = Step-evicted d x y s spares.0 h in
    let (last, still) = Steps-evicted d y z r spares.1 first in (last, omega (arith, fewer, still))
