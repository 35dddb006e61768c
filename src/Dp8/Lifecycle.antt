-- ===== src/Dp8/Lifecycle.antt =====
-- internal/dp8/engine.go: the structured log (log/slog) of the engine, as entries.
-- An entry has its level, its message and its attributes, in order. Messages has the entries for what a
-- client sends.
pub mod Messages
pub mod Safe
use open_zone.Base.{
  ℕ, zero, suc, Bool, true, false, not, ◌&&◌, ◌||◌, Option, none, some, List, [], ◌∷◌, ◌++◌, Text,
  codes, eqb, ltb, if◌then◌else◌, length, same_text, text_eq, nat_eq,
}
use open_zone.Base.Attrs.{is_empty}
use open_zone.Base.Dict.{Dict, get}
use open_zone.Base.Numbers.{hex8}
use open_zone.State.Players.{PlayerStore, remove}
use open_zone.Proto.Xmlish.{Msg, parse, starts_with_byte}
use open_zone.Proto.Engine.{Outbound}
use open_zone.State.Addresses.{attr}
use open_zone.Proto.Engine.Dispatch.{handle}
use open_zone.Shim.{join}
use open_zone.Dp8.Address.{RemoteSummary, no_remote}
use open_zone.Dp8.Summaries.{
  create_player, destroy_player, terminate_session, indicate_connect, connect_complete,
  dp8_msg_name, summarize_location, HostDataSummary, summarize_host_data, sorted_attr_keys,
  safe_tag_hint,
}
use open_zone.Dp8.Engine.{
  Engine, Event, OutMsg, apply_kind, drops, or_no_remote, remote_of_new, capacity,
}

pub data Level : Type 0 where
  debug : Level
  info : Level
  warn : Level

pub data Shown : Type 0 where
  text : Text → Shown
  int : ℕ → Shown
  flag : Bool → Shown

abbrev pub Attr : Type 0
Attr = Text × Shown

pub record Entry : Type 0 where
  pub level : Level
  pub message : Text
  pub attrs : List Attr

abbrev pub entry : Level → Text → List Attr → Entry
entry l m values = record { level = l; message = m; attrs = values }

-- fmt.Sprintf("0x%08x", n)
abbrev pub hex_id : ℕ → Text
hex_id n = codes "0x" ++ hex8 n

abbrev pub dpnid_attr : ℕ → Attr
dpnid_attr n = (codes "dpnid", text (hex_id n))

-- What is known of the client's address; of a host name only the length.
unfoldable pub remote_attrs : RemoteSummary → List Attr
remote_attrs rs =
    (if is_empty rs.ip then [] else (codes "remote_ip", text rs.ip) ∷ [])
    ++ ((if is_empty rs.port then [] else (codes "remote_port", text rs.port) ∷ [])
        ++ (if is_empty rs.ip && ltb 0 rs.host_len
            then (codes "remote_host_len", int rs.host_len) ∷ []
            else []))

abbrev pub remote_for : Engine → ℕ → RemoteSummary
remote_for e dpnid = or_no_remote (get e.client_remote dpnid)

-- e.players != nil && !e.players.Remove(evt.DPNID)
abbrev pub not_removed : Option PlayerStore → ℕ → Bool
not_removed none dpnid = false
not_removed (some s) dpnid = not (remove dpnid s).1

abbrev pub connected_entry : Event → Engine → Entry
connected_entry evt e =
    entry info (codes "dp8 client connected")
      (dpnid_attr evt.dpnid ∷ remote_attrs (remote_of_new evt.payload e.last_indicate))

abbrev pub disconnected_entry : Event → Engine → Entry
disconnected_entry evt e =
    entry info (codes "dp8 client disconnected")
      (dpnid_attr evt.dpnid ∷ remote_attrs (remote_for e evt.dpnid))

abbrev pub disconnected_entries : Event → Engine → List Entry
disconnected_entries evt e =
    (if not_removed e.proto.players evt.dpnid
      then entry warn (codes "dp8 client disconnected but not present in PlayerStore")
          (dpnid_attr evt.dpnid ∷ [])
        ∷ []
      else [])
    ++ (disconnected_entry evt e ∷ [])

-- The entries of the switch over the kinds of events, by the engine before the event.
unfoldable pub kind_entries : Event → Engine → List Entry
kind_entries evt e =
    if eqb evt.msg_id create_player
    then connected_entry evt e ∷ []
    else if eqb evt.msg_id destroy_player
    then disconnected_entries evt e
    else if eqb evt.msg_id terminate_session
    then entry info (codes "dp8 session terminated") (dpnid_attr evt.dpnid ∷ []) ∷ []
    else if eqb evt.msg_id indicate_connect || eqb evt.msg_id connect_complete
    then entry debug (codes "dp8 connect state")
        ((codes "msg", text (dp8_msg_name evt.msg_id)) ∷ dpnid_attr evt.dpnid ∷ [])
      ∷ []
    else []

-- The entry for an answer that finds the queue full.
unfoldable pub queue_entries : OutMsg → List OutMsg → List Entry
queue_entries o q =
    if ltb (length q) capacity
    then []
    else entry warn (codes "dp8 send queue full; dropping outbound")
        (dpnid_attr o.dpnid ∷ (codes "tag", text o.tag) ∷ (codes "exp", text o.exp) ∷ [])
      ∷ []

-- The entries of a sweep.
unfoldable pub sweep_entries : List ℕ → List Entry
sweep_entries [] = []
sweep_entries (d ∷ ds) =
    entry warn (codes "player evicted due to max online age")
      (dpnid_attr d ∷ (codes "max_age_h", int 12) ∷ [])
    ∷ sweep_entries ds
