-- ===== src/Tests/Transport.antt =====
-- Events through the transport engine (internal/dp8/engine.go).
use open_zone.Base.{
  List, length, same_text, ◌≤◌, ◌≡◌, refl, false, none, some, [], ◌∷◌, ◌++◌, Text, codes, text_eq,
  nat_eq, arith, All, map, subst, some_inj,
}
use open_zone.Base.Dict.{get, UniqueKeys}
use open_zone.Base.Strings.{
  trim_space, trim_right, trim_suffix, cut, cut_when, contains, has_prefix,
}
use open_zone.State.Players.{PlayerStore, is_evicted}
use open_zone.Proto.Engine.{Engine as ProtoEngine}
use open_zone.Dp8.Address.{
  no_remote, parse_remote_from_dp8_url, find_dp8_url_kv, looks_like_ipv4, find_ipv4_and_port,
  find_loop, span,
}
use open_zone.Dp8.Summaries.{receive}
use open_zone.Dp8.Engine.{Engine, OutMsg, Event, handle_event, wire, sweep}
use open_zone.Dp8.Engine.Steps.{World, Steps, handled, swept, done, step}
use open_zone.Dp8.Engine.Runs.{IsWorld, Steps-IsWorld}
use open_zone.Dp8.Engine.Evicted.{HasEvicted}
use open_zone.Dp8.Engine.Silence.{messages_for, Steps-evicted}
use open_zone.Dp8.Engine.Addressees.{Steps-others}
use open_zone.Dp8.Engine.Served.{Steps-served}
use open_zone.Dp8.Engine.Answered.{handle_event-answered}
use open_zone.Base.Attrs.{next_attr, attr_loop}
use open_zone.Base.Dict.{put}
use open_zone.Proto.Xmlish.{Msg, parse, parse_head}
use open_zone.Proto.Xmlish.Scan.{is_nil}
use open_zone.Proto.Engine.{Outbound}
use open_zone.Proto.Engine.Handlers.{cx_of}
use open_zone.Proto.Engine.Wire.{Answers}
use open_zone.Dp8.Engine.{out_msg}

abbrev url : Text
url = codes "x-directplay:/hostname=203.0.113.9;port=2302"

parsed_url :
    parse_remote_from_dp8_url url
    ≡ record { ip = codes "203.0.113.9"; port = codes "2302"; host_len = 0 }
unfolding parse_remote_from_dp8_url find_dp8_url_kv looks_like_ipv4 contains cut cut_when has_prefix
parsed_url = refl

found_behind_text : find_ipv4_and_port (codes "at 10.0.0.12:99;") ≡ (codes "10.0.0.12", codes "99")
unfolding find_ipv4_and_port find_loop span looks_like_ipv4 contains cut has_prefix
found_behind_text = refl

-- Player 7 was evicted; player 8 is online, and an answer to it waits.
abbrev players : PlayerStore
players = record {
  players =
      (7, record { dpnid = 7; connected_at = 100; evicted_at = 1000 })
      ∷ (8, record { dpnid = 8; connected_at = 900; evicted_at = 0 })
      ∷ [];
}

abbrev proto : ProtoEngine
proto = record {
  port = 2300;
  advertise_ip = codes "127.0.0.1";
  adv_port = 2300;
  host = none;
  players = some players;
}

abbrev answer_to_8 : OutMsg
answer_to_8 = record {
  dpnid = 8;
  tag = codes "HostDataRes";
  exp = codes "send-host";
  payload_xml = codes "<HostDataRes HR=\"0x00000000\" Cx=\"0x1\" />";
  tail = [];
  flags = 8;
}

abbrev engine : Engine
engine = record {
  proto = proto;
  out_q = answer_to_8 ∷ [];
  pending = [];
  client_remote = [];
  last_indicate = no_remote;
}

abbrev world : World
world = record { engine = engine; sent = [] }

abbrev page_from_7 : Event
page_from_7 = record {
  msg_id = receive;
  dpnid = 7;
  payload = codes "<Page Vid=\"101\" />";
  flags = 0;
  ts_unix_ms = 0;
  wall = 2000;
  now = 2000;
  clock = (2001, 2002);
}

proto-HasEvicted : HasEvicted 7 proto
unfolding is_evicted get
proto-HasEvicted = record {
  store = players;
  held = refl;
  unique = (refl, (refl, tt));
  evicted = refl;
}

-- Player 7 asks for a page, then a sweep comes.
abbrev asked : World
asked = record { engine = handle_event page_from_7 engine; sent = [] }

abbrev run : Steps world (record asked { engine = sweep 3000 3000 asked.engine })
run =
    step world asked _ (handled page_from_7 world refl)
      (step asked _ _ (swept 3000 3000 asked) (done _))

world-IsWorld : IsWorld world
unfolding get
world-IsWorld = record {
  stores = record {
    hosts = λ s e. absurd (cc);
    online =
        λ s e. subst (λ (t : PlayerStore). UniqueKeys t.players) (some_inj e) (refl, (refl, tt));
  };
  room = omega arith;
}

Steps-IsWorld_example : IsWorld (record asked { engine = sweep 3000 3000 asked.engine })
Steps-IsWorld_example =
    Steps-IsWorld world (record asked { engine = sweep 3000 3000 asked.engine }) run world-IsWorld

Steps-evicted_example :
    HasEvicted 7 (sweep 3000 3000 asked.engine).proto
    × (messages_for 7 (record asked { engine = sweep 3000 3000 asked.engine })
        ≤ messages_for 7 world)
Steps-evicted_example =
    Steps-evicted 7 world (record asked { engine = sweep 3000 3000 asked.engine }) run
      (refl, (tt, tt)) proto-HasEvicted

Steps-others_example :
    messages_for 8 (record asked { engine = sweep 3000 3000 asked.engine }) ≤ messages_for 8 world
Steps-others_example =
    Steps-others 8 world (record asked { engine = sweep 3000 3000 asked.engine }) run
      (refl, (tt, tt))

abbrev page_from_8 : Event
page_from_8 = record {
  msg_id = receive;
  dpnid = 8;
  payload = codes "<Page Cx=\"0x1\" Vid=\"101\" />";
  flags = 0;
  ts_unix_ms = 0;
  wall = 2000;
  now = 2000;
  clock = (2001, 2002);
}

abbrev page_msg : Msg
page_msg = record {
  tag = codes "Page";
  attrs = (codes "Cx", codes "0x1") ∷ (codes "Vid", codes "101") ∷ [];
  raw = codes "<Page Cx=\"0x1\" Vid=\"101\" />";
}

parse-page : parse page_from_8.payload ≡ some page_msg
unfolding parse parse_head attr_loop next_attr trim_space trim_right trim_suffix cut cut_when
    has_prefix put same_text
parse-page = refl

handle_event-answered_example :
    (outs : List Outbound) × ((handle_event page_from_8 engine).pending
      ≡ [] ++ map (out_msg 8) outs)
    × (is_nil outs ≡ false)
    × (length outs ≤ 3)
    × All (Answers (cx_of page_msg)) outs
unfolding is_evicted get same_text
handle_event-answered_example =
    handle_event-answered page_from_8 engine page_msg refl refl refl parse-page refl

Steps-served_example :
    (outs : List Outbound) × (v : World) × Steps world v
    × (v.sent ≡ [] ++ map wire (engine.out_q ++ map (out_msg 8) outs))
    × (is_nil outs ≡ false)
    × (length outs ≤ 3)
    × All (Answers (cx_of page_msg)) outs
unfolding is_evicted get same_text
Steps-served_example =
    Steps-served world page_from_8 page_msg refl (omega arith) refl refl refl parse-page refl
