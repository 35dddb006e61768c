-- ===== src/Tests/Logs.antt =====
-- The logs: the packet log, the entries of an event, and the auto-update sink (internal/packetlog,
-- internal/dp8/engine.go, internal/autoupdate/sink.go).
use open_zone.Base.{
  ℕ, ◌≡◌, refl, true, none, some, [], ◌∷◌, ◌++◌, Text, codes, text_eq, nat_eq, map, same_text,
  every, inl,
}
use open_zone.Base.Numbers.{decimal}
use open_zone.Base.Dict.{get}
use open_zone.Base.Lines.{lines}
use open_zone.PacketLog.{Record, record_of, new_logger, members}
use open_zone.PacketLog.Json.{
  marshal_object, marshal_members, escape, rune_out, rune_rest, escape_ascii, separator,
}
use open_zone.PacketLog.Reader.{
  read_object, read_members, read_member, read_chars, token, read_value, read_digits,
}
use open_zone.PacketLog.Reader.Records.{readable, read_record, records-log_all}
use open_zone.PacketLog.Lines.{log_all, contents}
use open_zone.Proto.Engine.{Engine as ProtoEngine}
use open_zone.Dp8.Summaries.{create_player, receive}
use open_zone.Dp8.Engine.{Event, new_engine, handle_event}
use open_zone.Dp8.Engine.Steps.{World, handled, done, step}
use open_zone.Dp8.Engine.Addresses.{HasAddresses}
use open_zone.Dp8.Lifecycle.Messages.{event_entries}
use open_zone.Dp8.Lifecycle.Safe.{hides_hosts, event_entries-hide}

-- A message with a line feed, a quote and a byte that is no UTF-8.
abbrev odd : Record
odd = record (record_of (codes "run-1") (codes "t") (codes "dp8")) {
  message = b'a' ∷ b'\n' ∷ b'"' ∷ 255 ∷ [];
}

written :
    marshal_object (members odd)
    ≡ codes "{\"run_id\":\"run-1\",\"ts\":\"t\",\"type\":\"dp8\",\"message\":\"a\\n\\\"\\ufffd\"}"
unfolding marshal_object marshal_members members escape rune_out rune_rest escape_ascii separator
written = refl

-- A record with a line feed, a quote, a letter of two bytes, a line separator and a byte that is no
-- UTF-8.
abbrev spoken : Record
spoken = record (record_of (codes "run-1") (codes "t") (codes "dp8")) {
  length = 12;
  message = b'a' ∷ b'\n' ∷ b'"' ∷ 195 ∷ 169 ∷ 226 ∷ 128 ∷ 168 ∷ 255 ∷ [];
}

read_back :
    read_record (marshal_object (members spoken))
    ≡ some (record spoken {
      message = b'a' ∷ b'\n' ∷ b'"' ∷ 195 ∷ 169 ∷ 226 ∷ 128 ∷ 168 ∷ 239 ∷ 191 ∷ 189 ∷ [];
    })
unfolding marshal_object marshal_members members escape rune_out rune_rest escape_ascii separator
    decimal read_record read_object read_members read_member read_chars token read_value read_digits
    get same_text
read_back = refl

records-log_all_example :
    map read_record
      (lines (contents (log_all (spoken ∷ odd ∷ []) (new_logger (some (codes "x\n"))))))
    ≡ map read_record (lines (codes "x\n")) ++ map (λ r. some (readable r)) (spoken ∷ odd ∷ [])
records-log_all_example = records-log_all (spoken ∷ odd ∷ []) (codes "x\n") refl

abbrev proto : ProtoEngine
proto = record { port = 2300; advertise_ip = []; adv_port = 2300; host = none; players = none }

abbrev event : ℕ → Text → Event
event id payload = record {
  msg_id = id;
  dpnid = 7;
  payload = payload;
  flags = 0;
  ts_unix_ms = 5;
  wall = 2000;
  now = 2000;
  clock = (2001, 2002);
}

-- A client connects from a named machine, and asks for a page.
abbrev connect : Event
connect = event create_player (codes "x-directplay:/hostname=ANNA-PC;port=2302")

abbrev page : Event
page = event receive (codes "<Page Vid=\"101\" />")

abbrev idle : World
idle = record { engine = new_engine proto; sent = [] }

abbrev joined : World
joined = record { engine = handle_event connect idle.engine; sent = [] }

idle-HasAddresses : HasAddresses idle.engine
unfolding new_engine
idle-HasAddresses = record { clients = tt; last = inl refl }

idle-pending : idle.engine.pending ≡ []
unfolding new_engine
idle-pending = refl

event_entries-hide_example : every hides_hosts (event_entries page joined.engine) ≡ true
event_entries-hide_example =
    event_entries-hide idle joined page
      (step idle joined joined (handled connect idle idle-pending) (done joined)) idle-HasAddresses
