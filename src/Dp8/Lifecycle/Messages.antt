-- ===== src/Dp8/Lifecycle/Messages.antt =====
-- internal/dp8/engine.go: the entries of the structured log for the message inside an event.
use open_zone.Base.{
  ℕ, not, Option, none, some, List, [], ◌∷◌, ◌++◌, Text, codes, eqb, if◌then◌else◌, length,
  same_text, text_eq, nat_eq,
}
use open_zone.Proto.Xmlish.{Msg, parse, starts_with_byte}
use open_zone.Proto.Engine.{Outbound}
use open_zone.State.Addresses.{attr}
use open_zone.Proto.Engine.Dispatch.{handle}
use open_zone.Shim.{join}
use open_zone.Dp8.Address.{RemoteSummary}
use open_zone.Dp8.Summaries.{
  dp8_msg_name, summarize_location, summarize_host_data, sorted_attr_keys, safe_tag_hint,
}
use open_zone.Dp8.Engine.{Engine, Event, apply_kind, drops}
use open_zone.Dp8.Lifecycle.{
  info, warn, text, int, flag, Attr, Entry, entry, dpnid_attr, remote_attrs, remote_for,
  kind_entries,
}

-- A named attribute of the message, under a name of the log.
abbrev shown : Text → Msg → Text → Attr
shown name m key = (name, text (attr m.attrs key))

abbrev pub host_data_entries : ℕ → Msg → RemoteSummary → List Entry
host_data_entries dpnid m rs =
    let hs = summarize_host_data m.raw in
    (if eqb hs.item_count 0
      then entry warn (codes "host state update with 0 items")
          (dpnid_attr dpnid ∷ shown (codes "cx") m (codes "Cx") ∷ remote_attrs rs)
        ∷ []
      else [])
    ++ (entry info (codes "host state update") (
          dpnid_attr dpnid
          ∷ shown (codes "cx") m (codes "Cx")
          ∷ (codes "items", int hs.item_count)
          ∷ (codes "has_new", flag hs.has_new)
          ∷ (codes "has_del", flag hs.has_del)
          ∷ (codes "item_ids", text (join (codes ",") hs.item_ids))
          ∷ remote_attrs rs)
        ∷ [])

abbrev location_entry : ℕ → Msg → RemoteSummary → Entry
location_entry dpnid m rs =
    let (kind, n) = summarize_location (attr m.attrs (codes "Location")) in
    entry info (codes "location update") (
      dpnid_attr dpnid
      ∷ shown (codes "cx") m (codes "Cx")
      ∷ shown (codes "flags") m (codes "Flags")
      ∷ (codes "kind", text kind)
      ∷ (codes "len", int n)
      ∷ remote_attrs rs)

-- The entries for a parsed message.
unfoldable pub message_entries : ℕ → Msg → RemoteSummary → List Entry
message_entries dpnid m rs =
    if same_text m.tag (codes "Connect")
    then entry info (codes "client connect request") (
        dpnid_attr dpnid
        ∷ shown (codes "cx") m (codes "Cx")
        ∷ shown (codes "proto_ver") m (codes "ProtoVer")
        ∷ remote_attrs rs)
      ∷ []
    else if same_text m.tag (codes "HostData")
    then host_data_entries dpnid m rs
    else if same_text m.tag (codes "SetLoc")
    then location_entry dpnid m rs ∷ []
    else if same_text m.tag (codes "HdrRow")
    then entry info (codes "header row request") (
        dpnid_attr dpnid
        ∷ shown (codes "cx") m (codes "Cx")
        ∷ shown (codes "vid") m (codes "Vid")
        ∷ remote_attrs rs)
      ∷ []
    else if same_text m.tag (codes "Page")
    then entry info (codes "page request") (
        dpnid_attr dpnid
        ∷ shown (codes "cx") m (codes "Cx")
        ∷ shown (codes "vid") m (codes "Vid")
        ∷ shown (codes "page_no") m (codes "PageNo")
        ∷ remote_attrs rs)
      ∷ []
    else if same_text m.tag (codes "RowPg")
    then entry info (codes "game details request") (
        dpnid_attr dpnid
        ∷ shown (codes "cx") m (codes "Cx")
        ∷ shown (codes "vid") m (codes "Vid")
        ∷ shown (codes "rid") m (codes "Rid")
        ∷ remote_attrs rs)
      ∷ []
    else entry warn (codes "unrecognized proto message") (
        dpnid_attr dpnid
        ∷ (codes "tag", text m.tag)
        ∷ (codes "attr_keys", text (join (codes ",") (sorted_attr_keys m.attrs)))
        ∷ remote_attrs rs)
      ∷ []

-- The first loop over the answers.
unfoldable pub answer_entries : ℕ → Msg → RemoteSummary → List Outbound → List Entry
answer_entries dpnid m rs [] = []
answer_entries dpnid m rs (o ∷ os) =
    (if same_text o.exp (codes "send-fallback")
      then entry warn (codes "proto fallback response used") (
          dpnid_attr dpnid
          ∷ (codes "tag", text m.tag)
          ∷ (codes "resp_tag", text o.tag)
          ∷ remote_attrs rs)
        ∷ []
      else if same_text o.exp (codes "send-rowpg-miss")
      then entry warn (codes "game details request for unknown rid") (
          dpnid_attr dpnid
          ∷ shown (codes "vid") m (codes "Vid")
          ∷ shown (codes "rid") m (codes "Rid")
          ∷ remote_attrs rs)
        ∷ []
      else [])
    ++ answer_entries dpnid m rs os

-- The entries for the message inside an event, by the engine after the switch over the kinds.
abbrev pub parsed_entries : Event → Option Msg → Engine → List Entry
parsed_entries evt none e =
    entry warn (codes "proto message parse failed") (
      dpnid_attr evt.dpnid
      ∷ (codes "msg", text (dp8_msg_name evt.msg_id))
      ∷ (codes "len", int (length evt.payload))
      ∷ (codes "tag_hint", text (safe_tag_hint evt.payload))
      ∷ [])
    ∷ []
parsed_entries evt (some m) e =
    let rs = remote_for e evt.dpnid in
    message_entries evt.dpnid m rs
    ++ answer_entries evt.dpnid m rs (handle evt.now evt.clock evt.dpnid rs.ip m e.proto).1

unfoldable pub payload_entries : Event → Engine → List Entry
payload_entries evt e =
    if not (starts_with_byte b'<' evt.payload)
    then []
    else if drops e.proto.players evt.dpnid
    then entry warn (codes "dropping proto message from evicted player") (
        dpnid_attr evt.dpnid
        ∷ (codes "len", int (length evt.payload))
        ∷ (codes "tag_hint", text (safe_tag_hint evt.payload))
        ∷ [])
      ∷ []
    else parsed_entries evt (parse evt.payload) e

-- All entries of `handleEvent` but those for a full queue.
unfoldable pub event_entries : Event → Engine → List Entry
event_entries evt e = kind_entries evt e ++ payload_entries evt (apply_kind evt e)
