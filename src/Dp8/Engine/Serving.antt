-- ===== src/Dp8/Engine/Serving.antt =====
-- `Run` is a run of the step relation (internal/dp8/engine.go): it handles an event and offers the answers
-- to the queue, one after the other, before it polls again.
use open_zone.Base.{
  ℕ, zero, suc, ◌≤◌, ◌≡◌, refl, sym, ap, ◌∙◌, subst, inl, inr, take, ltb, Bool-cases, append-nil,
  append_assoc, length-append, true, false, List, [], ◌∷◌, ◌++◌, arith, length,
}
use open_zone.Dp8.Engine.{OutMsg, Event, handle_event, enqueue, capacity}
use open_zone.Dp8.Engine.Steps.{World, handled, offered, Steps, done, step, Steps-append}
use open_zone.Dp8.Engine.Runs.{IsWorld, handle_event-out_q}

-- The second loop over the answers: each is put into the queue, or dropped if that is full.
unfoldable pub offer_all : List OutMsg → List OutMsg → List OutMsg
offer_all [] q = q
offer_all (o ∷ os) q = offer_all os (enqueue o q)

-- The whole of `handleEvent`.
unfoldable pub handle_and_offer : Event → World → World
handle_and_offer evt w =
    let e = handle_event evt w.engine in
    record w { engine = record e { pending = []; out_q = offer_all e.pending e.out_q } }

unfoldable pub serve_events : List Event → World → World
serve_events [] w = w
serve_events (evt ∷ evts) w = serve_events evts (handle_and_offer evt w)

abbrev waits : World → List OutMsg → List OutMsg → World
waits w pending out_q = record w { engine = record (w.engine) { pending = pending; out_q = out_q } }

offer_all-Steps :
    (w : World) (os q : List OutMsg) → Steps (waits w os q) (waits w [] (offer_all os q))
unfolding offer_all
offer_all-Steps w [] q = done (waits w [] q)
offer_all-Steps w (o ∷ os) q =
    step (waits w (o ∷ os) q) (waits w os (enqueue o q)) _ (offered o os (waits w (o ∷ os) q) refl)
      (offer_all-Steps w os (enqueue o q))

handle_and_offer-Steps :
    (evt : Event) (w : World) → w.engine.pending ≡ [] → Steps w (handle_and_offer evt w)
unfolding handle_and_offer
handle_and_offer-Steps evt w idle =
    let e = handle_event evt w.engine in
    step w (record w { engine = e }) _ (handled evt w idle)
      (offer_all-Steps (record w { engine = e }) e.pending e.out_q)

handle_and_offer-pending : (evt : Event) (w : World) → (handle_and_offer evt w).engine.pending ≡ []
unfolding handle_and_offer
handle_and_offer-pending evt w = refl

pub serve_events-Steps :
    (evts : List Event) (w : World)
    → w.engine.pending ≡ []
    → Steps w (serve_events evts w) × ((serve_events evts w).engine.pending ≡ [])
unfolding serve_events
serve_events-Steps [] w idle = (done w, idle)
serve_events-Steps (evt ∷ evts) w idle =
    let (rest, quiet) =
      serve_events-Steps evts (handle_and_offer evt w) (handle_and_offer-pending evt w) in
    (Steps-append w (handle_and_offer evt w) _ (handle_and_offer-Steps evt w idle) rest, quiet)

take_all : {A : Type 0} (n : ℕ) (xs : List A) → length xs ≤ n → take n xs ≡ xs
take_all zero [] h = refl
take_all (suc n) [] h = refl
take_all zero (x ∷ xs) h = absurd (omega arith)
take_all (suc n) (x ∷ xs) h = ap (λ (t : List _). x ∷ t) (take_all n xs (omega arith))

take_full : {A : Type 0} (n : ℕ) (xs ys : List A) → length xs ≡ n → take n (xs ++ ys) ≡ xs
take_full zero [] ys h = refl
take_full zero (x ∷ xs) ys h = absurd (omega arith)
take_full (suc n) [] ys h = absurd (omega arith)
take_full (suc n) (x ∷ xs) ys h = ap (λ (t : List _). x ∷ t) (take_full n xs ys (omega arith))

enqueue-room :
    (o : OutMsg) (q : List OutMsg) → ltb (length q) capacity ≡ true → enqueue o q ≡ q ++ o ∷ []
unfolding enqueue
enqueue-room o q h = rw h refl

enqueue-full : (o : OutMsg) (q : List OutMsg) → ltb (length q) capacity ≡ false → enqueue o q ≡ q
unfolding enqueue
enqueue-full o q h = rw h refl

offer_all-take :
    (os q : List OutMsg) → length q ≤ capacity → offer_all os q ≡ take capacity (q ++ os)
unfolding offer_all
offer_all-take [] q room = sym (ap (take capacity) (append-nil q) ∙ take_all capacity q room)
offer_all-take (o ∷ os) q room = elim (Bool-cases (ltb (length q) capacity)) [
  | inl fits ↦
      ap (offer_all os) (enqueue-room o q fits)
      ∙ offer_all-take os (q ++ o ∷ []) (ground (arith, length-append q (o ∷ [])))
      ∙ ap (take capacity) (append_assoc q (o ∷ []) os)
  | inr full ↦
      let at_capacity : length q ≡ capacity = ground arith in
      ap (offer_all os) (enqueue-full o q full)
      ∙ offer_all-take os q room
      ∙ take_full capacity q os at_capacity
      ∙ sym (take_full capacity q (o ∷ os) at_capacity)
]

-- An event puts its answers behind those that wait in the queue, in order, and of all these the queue keeps
-- as many first ones as it has room for: an answer is dropped only when the queue is full, and none that was
-- queued before is lost.
pub handle_and_offer-queue :
    (evt : Event) (w : World)
    → IsWorld w
    → (handle_and_offer evt w).engine.out_q
      ≡ take capacity (w.engine.out_q ++ (handle_event evt w.engine).pending)
unfolding handle_and_offer
handle_and_offer-queue evt w i =
    let e = handle_event evt w.engine in
    let same = handle_event-out_q evt w.engine in
    let room : length e.out_q ≤ capacity =
      subst (λ (q : List OutMsg). length q ≤ capacity) (sym same) i.room in
    offer_all-take e.pending e.out_q room
    ∙ ap (λ (q : List OutMsg). take capacity (q ++ e.pending)) same
