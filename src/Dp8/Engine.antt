-- ===== src/Dp8/Engine.antt =====
-- internal/dp8/engine.go: the engine's state and its goroutines.
-- `Run` handles one event after the other; `sendWorker` takes from the send queue and `playerSweeper`
-- evicts, at any time in between. What `handleEvent` has still to put into the queue is `pending`, so
-- that a send can come between two of its messages.
-- cmd/open-zone gives one player store to the protocol engine and to this one: it is kept once, in the
-- protocol engine. The calls of the log are left out: nothing reads it back.
pub mod Steps
pub mod Cases
pub mod Runs
pub mod Evicted
pub mod Silence
pub mod Delivery
pub mod Answered
pub mod Addresses
pub mod Polls
pub mod Hosted
pub mod Serving
pub mod Addressees
pub mod Served
use open_zone.Base.{
  ℕ, ◌+◌, ◌*◌, Bool, true, false, not, ◌&&◌, ◌||◌, Option, none, some, List, [], ◌∷◌, ◌++◌, Text,
  codes, text_eq, nat_eq, same_text, eqb, ltb, if◌then◌else◌, length, map,
}
use open_zone.Base.Attrs.{is_empty}
use open_zone.Base.Dict.{Dict, get, put, del}
use open_zone.State.Time.{Time, Duration, pos}
use open_zone.State.Players.{PlayerStore, upsert, remove, is_evicted, sweep_evict, count}
use open_zone.Proto.Xmlish.{Msg, parse, starts_with_byte, make_z_text}
use open_zone.Proto.Engine.{Outbound, Engine as ProtoEngine, stats as proto_stats}
use open_zone.Proto.Engine.Handlers.{Readings}
use open_zone.Proto.Engine.Dispatch.{handle}
use open_zone.Dp8.Address.{RemoteSummary, no_remote, parse_remote_from_dp8_url}
use open_zone.Dp8.Summaries.{create_player, destroy_player, indicate_connect}

abbrev pub send_guaranteed : ℕ
send_guaranteed = 0x0008

abbrev pub send_sync_guaranteed : ℕ
send_sync_guaranteed = 0x80000008

pub record OutMsg : Type 0 where
  pub dpnid : ℕ
  pub tag : Text
  pub exp : Text
  pub payload_xml : Text
  pub tail : Text
  pub flags : ℕ

pub record Engine : Type 0 where
  pub proto : ProtoEngine
  pub out_q : List OutMsg
  pub pending : List OutMsg
  pub client_remote : Dict ℕ RemoteSummary
  pub last_indicate : RemoteSummary

-- The capacity of `outQ`.
abbrev pub capacity : ℕ
capacity = 2048

unfoldable pub new_engine : ProtoEngine → Engine
new_engine p = record {
  proto = p;
  out_q = [];
  pending = [];
  client_remote = [];
  last_indicate = no_remote;
}

-- An event of the bridge, and what the clock shows in the calls that it leads to.
pub record Event : Type 0 where
  pub msg_id : ℕ
  pub dpnid : ℕ
  pub payload : Text
  pub flags : ℕ
  pub ts_unix_ms : ℕ
  pub wall : Time
  pub now : Time
  pub clock : Readings

abbrev online : Option PlayerStore → ℕ → ℕ
online none remotes = remotes
online (some s) remotes = count s

-- `Stats`: the players online and the games hosted.
unfoldable pub engine_stats : Engine → ℕ × ℕ
engine_stats e =
    (online e.proto.players (length e.client_remote), (proto_stats e.proto).games_hosted)

abbrev pub on_players : (PlayerStore → PlayerStore) → ProtoEngine → ProtoEngine
on_players f p = record p { players = elim p.players [ none ↦ none | some s ↦ some (f s) ] }

abbrev pub is_unknown : RemoteSummary → Bool
is_unknown rs = is_empty rs.ip && (is_empty rs.port && eqb rs.host_len 0)

-- The address of a new client: from its event, or else from the last INDICATE_CONNECT.
abbrev pub remote_of_new : Text → RemoteSummary → RemoteSummary
remote_of_new payload last =
    let rs = if is_empty payload then no_remote else parse_remote_from_dp8_url payload in
    if is_unknown rs && not (is_unknown last) then last else rs

unfoldable pub client_created : Event → Engine → Engine
client_created evt e =
    let rs = remote_of_new evt.payload e.last_indicate in
    record e {
      client_remote = if is_unknown rs then e.client_remote else put e.client_remote evt.dpnid rs;
      proto = on_players (upsert evt.wall evt.dpnid evt.now) e.proto;
    }

unfoldable pub client_destroyed : Event → Engine → Engine
client_destroyed evt e = record e {
  client_remote = del e.client_remote evt.dpnid;
  proto = on_players (λ s. (remove evt.dpnid s).0) e.proto;
}

-- The switch over the kinds of events; the other kinds are only logged.
unfoldable pub apply_kind : Event → Engine → Engine
unfolding client_created client_destroyed
apply_kind evt e =
    if eqb evt.msg_id create_player
    then client_created evt e
    else if eqb evt.msg_id destroy_player
    then client_destroyed evt e
    else if eqb evt.msg_id indicate_connect && not (is_empty evt.payload)
    then record e { last_indicate = parse_remote_from_dp8_url evt.payload }
    else e

abbrev pub or_no_remote : Option RemoteSummary → RemoteSummary
or_no_remote none = no_remote
or_no_remote (some rs) = rs

-- ConnectRes, ConInfoRes and ConnectEv are sent synchronously.
abbrev pub flags_of : Text → ℕ
flags_of tag =
    if same_text tag (codes "ConnectRes")
      || (same_text tag (codes "ConInfoRes") || same_text tag (codes "ConnectEv"))
    then send_sync_guaranteed
    else send_guaranteed

abbrev pub out_msg : ℕ → Outbound → OutMsg
out_msg dpnid o = record {
  dpnid = dpnid;
  tag = o.tag;
  exp = o.exp;
  payload_xml = o.payload_xml;
  tail = o.tail;
  flags = flags_of o.tag;
}

-- A parsed message goes to the protocol engine, and its answers wait for the queue.
abbrev pub answer : Event → Option Msg → Engine → Engine
answer evt none e = e
answer evt (some m) e =
    let rs = or_no_remote (get e.client_remote evt.dpnid) in
    let (p, outs) = handle evt.now evt.clock evt.dpnid rs.ip m e.proto in
    record e { proto = p; pending = e.pending ++ map (out_msg evt.dpnid) outs }

abbrev pub drops : Option PlayerStore → ℕ → Bool
drops none dpnid = false
drops (some s) dpnid = is_evicted s dpnid

-- The part of `handleEvent` for the application's messages.
unfoldable pub apply_message : Event → Engine → Engine
apply_message evt e =
    if not (starts_with_byte b'<' evt.payload)
    then e
    else if drops e.proto.players evt.dpnid
    then e
    else answer evt (parse evt.payload) e

unfoldable pub handle_event : Event → Engine → Engine
handle_event evt e = apply_message evt (apply_kind evt e)

-- select { case e.outQ <- …: default: … }
unfoldable pub enqueue : OutMsg → List OutMsg → List OutMsg
enqueue o q = if ltb (length q) capacity then q ++ o ∷ [] else q

-- What `SendTo` is called with.
pub record Sent : Type 0 where
  pub dpnid : ℕ
  pub bytes : Text
  pub flags : ℕ

unfoldable pub wire : OutMsg → Sent
wire o = record { dpnid = o.dpnid; bytes = make_z_text o.payload_xml ++ o.tail; flags = o.flags }

abbrev pub max_player_online_age : Duration
max_player_online_age = pos (12 * 3_600_000_000_000)

unfoldable pub sweep : Time → Time → Engine → Engine
sweep wall now e = record e {
  proto = on_players (λ s. (sweep_evict wall now max_player_online_age s).0) e.proto;
}
