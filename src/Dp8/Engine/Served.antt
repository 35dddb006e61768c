-- ===== src/Dp8/Engine/Served.antt =====
-- From a packet of a client to the bytes that go out to it (internal/dp8/engine.go).
use open_zone.Base.{
  ◌+◌, ◌≤◌, ◌≡◌, refl, ap, ap₂, ◌∙◌, true, false, some, List, [], ◌∷◌, ◌++◌, nat_eq, arith, length,
  map, All,
}
use open_zone.Proto.Xmlish.{Msg, parse, starts_with_byte}
use open_zone.Proto.Xmlish.Scan.{is_nil}
use open_zone.Proto.Engine.{Outbound}
use open_zone.Proto.Engine.Handlers.{cx_of}
use open_zone.Proto.Engine.Wire.{Answers}
use open_zone.Proto.Engine.Cases.{is_known}
use open_zone.Dp8.Summaries.{receive}
use open_zone.Dp8.Engine.{OutMsg, Event, capacity, handle_event, drops, out_msg, wire}
use open_zone.Dp8.Engine.Answered.{handle_event-answered}
use open_zone.Dp8.Engine.Delivery.{Steps-delivery}
use open_zone.Dp8.Engine.Runs.{handle_event-out_q}
use open_zone.Dp8.Engine.Steps.{World, handled, Steps, step}

length-map : (f : Outbound → OutMsg) (os : List Outbound) → length (map f os) ≡ length os
length-map f [] = refl
length-map f (o ∷ os) = omega (arith, length-map f os)

-- A client that is not evicted is served: if a packet of it begins with `<` and parses to one of the six known
-- messages, no answers wait, and the queue has room for three messages more, then the engine can go on to send
-- all that is queued and behind it, to this client and with nothing between, at least one and at most three
-- answers, each of which parses to its tag, the `Cx` of the packet and a result.
pub Steps-served :
    (w : World) (evt : Event) (m : Msg)
    → w.engine.pending ≡ []
    → length w.engine.out_q + 3 ≤ capacity
    → evt.msg_id ≡ receive
    → starts_with_byte b'<' evt.payload ≡ true
    → drops w.engine.proto.players evt.dpnid ≡ false
    → parse evt.payload ≡ some m
    → is_known m.tag ≡ true
    → (outs : List Outbound) × (v : World) × Steps w v
      × (v.sent ≡ w.sent ++ map wire (w.engine.out_q ++ map (out_msg evt.dpnid) outs))
      × (is_nil outs ≡ false)
      × (length outs ≤ 3)
      × All (Answers (cx_of m)) outs
Steps-served w evt m idle room got markup online parsed known =
    let (outs, waiting, some_out, few, answers) =
      handle_event-answered evt w.engine m got markup online parsed known in
    let e = handle_event evt w.engine in
    let served : World = record w { engine = e } in
    let queue = handle_event-out_q evt w.engine in
    let fresh : e.pending ≡ map (out_msg evt.dpnid) outs =
      waiting ∙ ap (λ (os : List OutMsg). os ++ map (out_msg evt.dpnid) outs) idle in
    let fits : length e.out_q + length e.pending ≤ capacity =
      omega
        (arith, room, few, ap length queue, ap length fresh, length-map (out_msg evt.dpnid) outs) in
    (
      outs,
      _,
      step w served _ (handled evt w idle) (Steps-delivery served fits),
      ap₂ (λ (q p : List OutMsg). w.sent ++ map wire (q ++ p)) queue fresh,
      some_out,
      few,
      answers,
    )
