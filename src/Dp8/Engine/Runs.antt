-- ===== src/Dp8/Engine/Runs.antt =====
-- What holds in every state that the engine can reach (internal/dp8/engine.go).
use open_zone.Base.{
  ◌≤◌, ◌≡◌, refl, sym, ap, subst, Option, none, some, List, [], ◌∷◌, text_eq, nat_eq, arith, length,
  length-append, some_inj,
}
use open_zone.Base.Dict.{get, UniqueKeys}
use open_zone.State.Players.{PlayerStore, upsert, remove}
use open_zone.State.Players.Lifetime.{
  perform, upsert_call, remove_call, sweep_call, perform-UniqueKeys,
}
use open_zone.State.Hosts.{HostStore}
use open_zone.State.Hosts.Rids.{IsStore}
use open_zone.State.Hosts.Calls.{HostCall, run, run-IsStore}
use open_zone.Proto.Xmlish.{Msg, parse}
use open_zone.Proto.Engine.{Engine as ProtoEngine}
use open_zone.Proto.Engine.Handlers.{on_host}
use open_zone.Proto.Engine.Effects.{handle-calls, calls_of}
use open_zone.Dp8.Engine.{
  Engine, Event, OutMsg, capacity, apply_kind, apply_message, handle_event, answer, or_no_remote,
  on_players, enqueue, sweep, client_created, client_destroyed,
}
use open_zone.Dp8.Engine.Cases.{apply_kind-cases, apply_message-cases}
use open_zone.Dp8.Engine.Steps.{World, Step, handled, offered, sends, swept, Steps, done, step}

-- The stores inside a protocol engine are well-formed.
pub record AreStores (p : ProtoEngine) : Type 0 where
  pub hosts : (s : HostStore) → p.host ≡ some s → IsStore s
  pub online : (s : PlayerStore) → p.players ≡ some s → UniqueKeys s.players

on_players-AreStores :
    (f : PlayerStore → PlayerStore) (p : ProtoEngine)
    → ((s : PlayerStore) → UniqueKeys s.players → UniqueKeys (f s).players)
    → AreStores p
    → AreStores (on_players f p)
on_players-AreStores f p keeps i = record {
  hosts = i.hosts;
  online = λ s. by_store p.players i.online s;
}
  where
    by_store :
        (o : Option PlayerStore)
        → ((s : PlayerStore) → o ≡ some s → UniqueKeys s.players)
        → (s : PlayerStore) → elim o [ none ↦ none | some t ↦ some (f t) ] ≡ some s
        → UniqueKeys s.players
    by_store none h s e = absurd (cc)
    by_store (some t) h s e =
        subst (λ (x : PlayerStore). UniqueKeys x.players) (some_inj e) (keeps t (h t refl))

on_host-AreStores :
    (cs : List HostCall) (p : ProtoEngine) → AreStores p → AreStores (on_host (run cs) p)
on_host-AreStores cs p i = record { hosts = λ s. by_store p.host i.hosts s; online = i.online }
  where
    by_store :
        (o : Option HostStore)
        → ((s : HostStore) → o ≡ some s → IsStore s)
        → (s : HostStore) → elim o [ none ↦ none | some t ↦ some (run cs t) ] ≡ some s
        → IsStore s
    by_store none h s e = absurd (cc)
    by_store (some t) h s e = subst IsStore (some_inj e) (run-IsStore cs t (h t refl))

apply_kind-AreStores :
    (evt : Event) (e : Engine) → AreStores e.proto → AreStores (apply_kind evt e).proto
unfolding client_created client_destroyed
apply_kind-AreStores evt e i =
    apply_kind-cases (λ (x : Engine). AreStores x.proto) evt e
      (on_players-AreStores (upsert evt.wall evt.dpnid evt.now) e.proto
        (λ s u. unfold perform in perform-UniqueKeys (upsert_call evt.wall evt.dpnid evt.now) s u)
        i)
      (λ k.
        on_players-AreStores (λ s. (remove evt.dpnid s).0) e.proto
          (λ s u. unfold perform in perform-UniqueKeys (remove_call evt.dpnid) s u) i)
      i i

apply_message-AreStores :
    (evt : Event) (e : Engine) → AreStores e.proto → AreStores (apply_message evt e).proto
apply_message-AreStores evt e i =
    apply_message-cases (λ (x : Engine). AreStores x.proto) evt e i
      (λ m parsed.
        let ip = (or_no_remote (get e.client_remote evt.dpnid)).ip in
        subst AreStores (sym (handle-calls evt.clock evt.dpnid ip m e.proto evt.now))
          (on_host-AreStores (calls_of evt.clock evt.dpnid ip m) e.proto i))

-- Well-formed stores, and no more messages in the queue than it has room for.
pub record IsWorld (w : World) : Type 0 where
  pub stores : AreStores w.engine.proto
  pub room : length w.engine.out_q ≤ capacity

pub apply_kind-out_q : (evt : Event) (e : Engine) → (apply_kind evt e).out_q ≡ e.out_q
unfolding apply_kind client_created client_destroyed
apply_kind-out_q evt e = ground arith

answer-out_q : (evt : Event) (o : Option Msg) (e : Engine) → (answer evt o e).out_q ≡ e.out_q
answer-out_q evt none e = refl
answer-out_q evt (some m) e = refl

pub handle_event-out_q : (evt : Event) (e : Engine) → (handle_event evt e).out_q ≡ e.out_q
unfolding handle_event apply_message
handle_event-out_q evt e =
    ground (arith, answer-out_q evt (parse evt.payload) (apply_kind evt e), apply_kind-out_q evt e)

length-enqueue-le :
    (o : OutMsg) (q : List OutMsg) → length q ≤ capacity → length (enqueue o q) ≤ capacity
unfolding enqueue
length-enqueue-le o q h = ground (arith, length-append q (o ∷ []))

Step-IsWorld : (u v : World) → Step u v → IsWorld u → IsWorld v
Step-IsWorld u v (handled evt w idle) i = record {
  stores =
      unfold handle_event in
      apply_message-AreStores evt (apply_kind evt w.engine)
        (apply_kind-AreStores evt w.engine i.stores);
  room = rw (handle_event-out_q evt w.engine) i.room;
}
Step-IsWorld u v (offered o rest w e) i = record {
  stores = i.stores;
  room = length-enqueue-le o w.engine.out_q i.room;
}
Step-IsWorld u v (sends o rest w e) i = record {
  stores = i.stores;
  room = (let size = i.room in omega (arith, ap length e));
}
Step-IsWorld u v (swept wall now w) i = record {
  stores =
      unfold sweep in
      on_players-AreStores _ w.engine.proto
        (λ s u. unfold perform in perform-UniqueKeys (sweep_call wall now _) s u) i.stores;
  room = unfold sweep in i.room;
}

-- From a state with well-formed stores, one entry for each client and row ids in range, and no more
-- messages in the send queue than its capacity, every state that the engine reaches is such a
-- state, whatever events come and however the sends and sweeps fall between them.
pub Steps-IsWorld : (u v : World) → Steps u v → IsWorld u → IsWorld v
Steps-IsWorld u v (done w) i = i
Steps-IsWorld u v (step x y z s r) i = Steps-IsWorld y z r (Step-IsWorld x y s i)
