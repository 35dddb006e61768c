-- ===== src/Dp8/Telemetry.antt =====
-- internal/dp8/engine.go: what the engine writes to the packet log.
-- `run_id` is the engine's, and `ts` what NowTS returns in the call.
pub mod Served
use open_zone.Base.{
  ℕ, Bool, true, false, not, Option, none, some, List, [], ◌∷◌, ◌++◌, Text, codes, text_eq,
  if◌then◌else◌, length, map,
}
use open_zone.Base.Attrs.{is_empty}
use open_zone.Base.Dict.{Dict, get}
use open_zone.Base.Numbers.{decimal, hex8}
use open_zone.State.Addresses.{attr}
use open_zone.PacketLog.{Record, record_of}
use open_zone.Proto.Xmlish.{Msg, parse, starts_with_byte}
use open_zone.Shim.{Outcome, ok, err, panics, join}
use open_zone.Dp8.Summaries.{dp8_msg_name, sorted_attr_keys}
use open_zone.Dp8.Engine.{Engine, Event, OutMsg, drops, wire, apply_kind}
use open_zone.Dp8.Lifecycle.{hex_id}

-- fmt.Sprintf("dpnid=0x%08x", n)
abbrev dpnid_text : ℕ → Text
dpnid_text n = codes "dpnid=" ++ hex_id n

unfoldable pub event_record : Text → Text → Event → Record
event_record run_id ts evt = record (record_of run_id ts (codes "dp8")) {
  direction = codes "in";
  source = dpnid_text evt.dpnid;
  length = length evt.payload;
  reply_mode = codes "dp8shim";
  experiment = codes "event";
  message =
      codes "msg="
      ++ (dp8_msg_name evt.msg_id
          ++ (codes " msg_id="
              ++ (hex_id evt.msg_id
                  ++ (codes " flags="
                      ++ (hex_id evt.flags ++ (codes " ts_unix_ms=" ++ decimal evt.ts_unix_ms))))));
}

-- `%v` of a map prints its keys in order.
abbrev print_map : Dict Text Text → Text
print_map m =
    codes "map["
    ++ (join (codes " ") (map (λ k. k ++ (b':' ∷ attr m k)) (sorted_attr_keys m)) ++ codes "]")

abbrev pub with_message : Record → Option Msg → Record
with_message r none = r
with_message r (some m) = record r {
  tag = m.tag;
  message = r.message ++ (codes " attrs=" ++ print_map m.attrs);
}

-- The record of an event, by the engine after the switch over the kinds.
unfoldable pub handle_record : Text → Text → Event → Engine → Record
handle_record run_id ts evt e =
    let r = event_record run_id ts evt in
    if not (starts_with_byte b'<' evt.payload)
    then r
    else if drops e.proto.players evt.dpnid
    then r
    else with_message r (parse evt.payload)

-- The record for an answer that finds the queue full.
unfoldable pub drop_record : Text → Text → OutMsg → Record
drop_record run_id ts o = record (record_of run_id ts (codes "event")) {
  reply_mode = codes "dp8shim";
  experiment = codes "sendq";
  tag = o.tag;
  message = codes "drop: send queue full";
}

-- `%v` of the error that SendTo returns.
abbrev print_error : Outcome (Unit {0}) → Text
print_error (ok u) = codes "<nil>"
print_error (err t) = t
print_error panics = []

abbrev tail_note : Text → Text
tail_note tail = if is_empty tail then [] else codes " tail=" ++ decimal (length tail)

-- The record of a message that was sent, by what SendTo returned.
unfoldable pub sent_record : Text → Text → OutMsg → Outcome (Unit {0}) → Record
sent_record run_id ts o result = record (record_of run_id ts (codes "dp8")) {
  direction = codes "out";
  source = codes "dpnid=0x00000000";
  destination = dpnid_text o.dpnid;
  length = length (wire o).bytes;
  reply_mode = codes "dp8shim";
  tag = o.tag;
  experiment = o.exp;
  message =
      codes "err="
      ++ (print_error result ++ (codes " payload=" ++ (o.payload_xml ++ tail_note o.tail)));
}

-- The record at the start of `Run`; `depth` is what QueueDepth returns.
unfoldable pub startup_record : Text → Text → Text → ℕ → Record
startup_record run_id ts port depth = record (record_of run_id ts (codes "startup")) {
  reply_mode = codes "dp8shim";
  experiment = codes "dp8-engine";
  message =
      codes "dp8 engine start port=" ++ (port ++ (codes " shim_queue_depth=" ++ decimal depth));
}
