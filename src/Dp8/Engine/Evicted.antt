-- ===== src/Dp8/Engine/Evicted.antt =====
-- The hard session cap of internal/dp8/engine.go: an evicted client is not served again.
use open_zone.Base.{
  ℕ, ◌≡◌, ◌≢◌, refl, ap, ◌∙◌, true, false, ◌&&◌, Option, none, some, text_eq, nat_eq, arith, eqb,
  eqb_iff,
}
use open_zone.Base.Dict.{get, UniqueKeys}
use open_zone.State.Players.{PlayerStore, is_evicted}
use open_zone.State.Players.Lifetime.{
  Call, perform, upsert_call, remove_call, Spares, perform-UniqueKeys, perform-evicted,
}
use open_zone.Proto.Xmlish.{Msg, parse}
use open_zone.Proto.Engine.{Engine as ProtoEngine}
use open_zone.Proto.Engine.Effects.{handle-calls}
use open_zone.Dp8.Summaries.{destroy_player}
use open_zone.Dp8.Engine.Cases.{apply_kind-cases}
use open_zone.Dp8.Engine.{
  Engine, Event, apply_kind, apply_message, handle_event, answer, drops, or_no_remote, on_players,
  client_created, client_destroyed,
}

-- The client `d` is in the player store, as evicted.
pub record HasEvicted (d : ℕ) (p : ProtoEngine) : Type 0 where
  pub store : PlayerStore
  pub held : p.players ≡ some store
  pub unique : UniqueKeys store.players
  pub evicted : is_evicted store d ≡ true

pub on_players-HasEvicted :
    (c : Call) (d : ℕ) (p : ProtoEngine)
    → Spares d c
    → HasEvicted d p
    → HasEvicted d (on_players (perform c) p)
on_players-HasEvicted c d p spares h = record {
  store = perform c h.store;
  held = rw h.held refl;
  unique = perform-UniqueKeys c h.store h.unique;
  evicted = perform-evicted c d h.store h.unique spares h.evicted;
}

-- The event does not end the session of `d`.
abbrev pub SparesClient : ℕ → Event → Type 0
SparesClient d evt = eqb evt.msg_id destroy_player && eqb evt.dpnid d ≡ false

apply_kind-HasEvicted :
    (evt : Event) (d : ℕ) (e : Engine)
    → SparesClient d evt
    → HasEvicted d e.proto
    → HasEvicted d (apply_kind evt e).proto
unfolding client_created client_destroyed
apply_kind-HasEvicted evt d e spares h =
    apply_kind-cases (λ (x : Engine). HasEvicted d x.proto) evt e
      (unfold perform in
        on_players-HasEvicted (upsert_call evt.wall evt.dpnid evt.now) d e.proto tt h)
      (λ destroyed.
        let other : evt.dpnid ≢ d = λ same. ground (arith, eqb_iff evt.dpnid d) in
        unfold perform in on_players-HasEvicted (remove_call evt.dpnid) d e.proto other h)
      h h

answer-players :
    (evt : Event) (o : Option Msg) (e : Engine) → (answer evt o e).proto.players ≡ e.proto.players
answer-players evt none e = refl
answer-players evt (some m) e =
    ap (λ (p : ProtoEngine). p.players)
      (handle-calls evt.clock evt.dpnid (or_no_remote (get e.client_remote evt.dpnid)).ip m e.proto
        evt.now)

apply_message-players :
    (evt : Event) (e : Engine) → (apply_message evt e).proto.players ≡ e.proto.players
unfolding apply_message
apply_message-players evt e = ground (arith, answer-players evt (parse evt.payload) e)

transported : (d : ℕ) (p q : ProtoEngine) → q.players ≡ p.players → HasEvicted d p → HasEvicted d q
transported d p q e h = record {
  store = h.store;
  held = e ∙ h.held;
  unique = h.unique;
  evicted = h.evicted;
}

pub handle_event-HasEvicted :
    (evt : Event) (d : ℕ) (e : Engine)
    → SparesClient d evt
    → HasEvicted d e.proto
    → HasEvicted d (handle_event evt e).proto
unfolding handle_event
handle_event-HasEvicted evt d e spares h =
    transported d (apply_kind evt e).proto _ (apply_message-players evt (apply_kind evt e))
      (apply_kind-HasEvicted evt d e spares h)

drops-HasEvicted : (d : ℕ) (p : ProtoEngine) → HasEvicted d p → drops p.players d ≡ true
drops-HasEvicted d p h = rw h.held h.evicted

pub apply_kind-pending :
    (evt : Event) (e : Engine)
    → ((apply_kind evt e).pending ≡ e.pending) × ((apply_kind evt e).proto.host ≡ e.proto.host)
unfolding apply_kind client_created client_destroyed
apply_kind-pending evt e = ground arith

-- An event from an evicted client, other than the end of its session, gets no answer and does not
-- change the hosted games, whatever its payload; the client stays evicted.
pub handle_event-evicted :
    (evt : Event) (e : Engine)
    → SparesClient evt.dpnid evt
    → HasEvicted evt.dpnid e.proto
    → ((handle_event evt e).pending ≡ e.pending)
      × ((handle_event evt e).proto.host ≡ e.proto.host)
      × HasEvicted evt.dpnid (handle_event evt e).proto
handle_event-evicted evt e spares h =
    let unchanged : handle_event evt e ≡ apply_kind evt e = ignored (
      drops-HasEvicted evt.dpnid (apply_kind evt e).proto
        (apply_kind-HasEvicted evt evt.dpnid e spares h)) in
    (
      ap (λ (x : Engine). x.pending) unchanged ∙ (apply_kind-pending evt e).0,
      ap (λ (x : Engine). x.proto.host) unchanged ∙ (apply_kind-pending evt e).1,
      handle_event-HasEvicted evt evt.dpnid e spares h,
    )
  where
    ignored :
        drops (apply_kind evt e).proto.players evt.dpnid ≡ true
        → handle_event evt e ≡ apply_kind evt e
    ignored dropped = unfold handle_event apply_message in ground arith
