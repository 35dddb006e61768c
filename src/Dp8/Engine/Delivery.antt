-- ===== src/Dp8/Engine/Delivery.antt =====
-- The answers reach the bridge, in order, whenever the queue has room for them.
use open_zone.Base.{
  ◌+◌, ◌≤◌, ◌≡◌, refl, sym, subst, List, [], ◌∷◌, ◌++◌, arith, length, length-append, map,
  append_assoc, append-nil,
}
use open_zone.Dp8.Engine.{OutMsg, Sent, capacity, enqueue, wire}
use open_zone.Dp8.Engine.Steps.{World, offered, sends, Steps, done, step, Steps-append}

-- The world with these messages to offer, in the queue and sent.
abbrev at : World → List OutMsg → List OutMsg → List Sent → World
at w pending out_q sent = record {
  engine = record (w.engine) { pending = pending; out_q = out_q };
  sent = sent;
}

offer_all :
    (w : World) (p q : List OutMsg) (sent : List Sent)
    → length q + length p ≤ capacity
    → Steps (at w p q sent) (at w [] (q ++ p) sent)
offer_all w [] q sent h =
    subst (λ (t : List OutMsg). Steps (at w [] q sent) (at w [] t sent)) (sym (append-nil q))
      (done (at w [] q sent))
offer_all w (o ∷ p) q sent h =
    let room : enqueue o q ≡ q ++ o ∷ [] = unfold enqueue in ground arith in
    let rest = offer_all w p (q ++ o ∷ []) sent (omega (arith, length-append q (o ∷ []))) in
    let to = at w [] (q ++ o ∷ p) sent in
    step (at w (o ∷ p) q sent) (at w p (enqueue o q) sent) to
      (offered o p (at w (o ∷ p) q sent) refl)
      (subst (λ (t : List OutMsg). Steps (at w p t sent) to) (sym room)
        (subst (λ (t : List OutMsg). Steps (at w p (q ++ o ∷ []) sent) (at w [] t sent))
          (append_assoc q (o ∷ []) p) rest))

send_all :
    (w : World) (q : List OutMsg) (sent : List Sent)
    → Steps (at w [] q sent) (at w [] [] (sent ++ map wire q))
send_all w [] sent =
    subst (λ (t : List Sent). Steps (at w [] [] sent) (at w [] [] t)) (sym (append-nil sent))
      (done (at w [] [] sent))
send_all w (o ∷ q) sent =
    step (at w [] (o ∷ q) sent) (at w [] q (sent ++ wire o ∷ [])) _
      (sends o q (at w [] (o ∷ q) sent) refl)
      (subst (λ (t : List Sent). Steps (at w [] q (sent ++ wire o ∷ [])) (at w [] [] t))
        (append_assoc sent (wire o ∷ []) (map wire q)) (send_all w q (sent ++ wire o ∷ [])))

-- From any state in which the queue has room for all the answers that wait, the engine can go on to send
-- everything that is queued and then every answer, each once and in order, with nothing else between.
pub Steps-delivery :
    (w : World)
    → length w.engine.out_q + length w.engine.pending ≤ capacity
    → Steps w (record {
      engine = record (w.engine) { pending = []; out_q = [] };
      sent = w.sent ++ map wire (w.engine.out_q ++ w.engine.pending);
    })
Steps-delivery w room =
    Steps-append w (at w [] (w.engine.out_q ++ w.engine.pending) w.sent) _
      (offer_all w w.engine.pending w.engine.out_q w.sent room)
      (send_all w (w.engine.out_q ++ w.engine.pending) w.sent)
