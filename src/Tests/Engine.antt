-- ===== src/Tests/Engine.antt =====
-- Messages through the protocol engine (internal/proto/protocol.go).
use open_zone.Base.{
  ℕ, ◌≤◌, length, ◌≡◌, refl, none, some, List, [], ◌∷◌, Text, codes, text_eq, nat_eq, same_text,
  arith, All, map,
}
use open_zone.Base.Dict.{get, put}
use open_zone.Base.Attrs.{next_attr, attr_loop}
use open_zone.Base.Strings.{trim_space, trim_suffix, cut, cut_when, has_prefix, contains}
use open_zone.State.Items.{scan_self_closing_elements, scan_loop, next_tag, add_tag, parse_attrs}
use open_zone.State.Items.Fuel.{Loop, scan_self_closing_elements-Loop}
use open_zone.State.Hosts.{HostStore, GameRow, new_host_store}
use open_zone.State.Hosts.Calls.{run}
use open_zone.State.Rows.{games_rows, row_by_rid}
use open_zone.Proto.Xmlish.{Msg, parse, make_z_text}
use open_zone.Proto.Xmlish.Head.{put_all}
use open_zone.Proto.Xmlish.Scan.{elements, scan_self_closing_elements-printed}
use open_zone.Proto.Engine.{Engine, Outbound}
use open_zone.Proto.Engine.Handlers.{header_tokens_for_view, row_elements, on_host}
use open_zone.Proto.Engine.Dispatch.{handle}
use open_zone.Proto.Engine.Wire.{name, IsValue-literal}
use open_zone.Proto.Engine.Columns.{cell, read_columns, read_columns-row_elements}
use open_zone.Proto.Engine.Echo.Sorted.{first_of}
use open_zone.Proto.Engine.Echo.{handle-echo}
use open_zone.Proto.Engine.Effects.{calls_of, handle-calls}
use open_zone.Proto.Engine.Serve.{Request, serve, serve-games_rows}

abbrev payload : Text
payload = codes "<HostData><New><Item ItemId=\"0\" GName=\"Alpha\" /></New></HostData>"

scanned :
    scan_self_closing_elements payload (codes "Item")
    ≡ ((codes "ItemId", codes "0") ∷ (codes "GName", codes "Alpha") ∷ []) ∷ []
unfolding scan_self_closing_elements scan_loop next_tag add_tag parse_attrs attr_loop next_attr
    trim_space trim_suffix cut cut_when has_prefix contains put same_text
scanned = refl

scan_self_closing_elements-Loop_example :
    (n : ℕ) × Loop (codes "Item") n payload [] (scan_self_closing_elements payload (codes "Item"))
    × (n ≤ length payload)
scan_self_closing_elements-Loop_example = scan_self_closing_elements-Loop payload (codes "Item")

abbrev item : List (Text × Text)
item = (codes "ItemId", codes "0") ∷ (codes "GName", codes "Alpha") ∷ []

scan_self_closing_elements-printed_example :
    scan_self_closing_elements (elements (codes "Item") (item ∷ []) (codes "</New>")) (codes "Item")
    ≡ map (λ r. put_all r []) (item ∷ [])
unfolding cut has_prefix
scan_self_closing_elements-printed_example =
    scan_self_closing_elements-printed (codes "Item") (item ∷ []) (codes "</New>")
      (name (codes "Item") refl)
      (
        (
          (
            (name (codes "ItemId") refl, IsValue-literal (codes "0") refl),
            ((name (codes "GName") refl, IsValue-literal (codes "Alpha") refl), tt),
          ),
          refl,
        ),
        tt,
      )
      refl

abbrev row : GameRow
row = record {
  rid = codes "1";
  items = (codes "Rid", codes "1") ∷ (codes "GName", codes "a<b>\"c\"") ∷ [];
}

read_columns-row_elements_example :
    map (read_columns (header_tokens_for_view (codes "101"))) (
      scan_self_closing_elements
        (row_elements (header_tokens_for_view (codes "101")) (row ∷ []))
        (codes "Row"))
    ≡ map
        (λ r.
          map
            (cell r (header_tokens_for_view (codes "101")))
            (header_tokens_for_view (codes "101")))
        (row ∷ [])
read_columns-row_elements_example = read_columns-row_elements (codes "101") (row ∷ [])

-- An unknown message with two attributes.
abbrev ping : Msg
ping = record {
  tag = codes "Ping";
  attrs = (codes "Seq", codes "7") ∷ (codes "Cx", codes "0x2") ∷ [];
  raw = codes "<Ping Seq=\"7\" Cx=\"0x2\" />";
}

abbrev empty_engine : Engine
empty_engine = record {
  port = 2300;
  advertise_ip = codes "127.0.0.1";
  adv_port = 2300;
  host = some new_host_store;
  players = none;
}

handle-echo_example :
    (o : Outbound) × (handle 8 (8, 9) 20 [] ping empty_engine ≡ (empty_engine, o ∷ []))
    × ((r : Msg) × (parse (make_z_text o.payload_xml) ≡ some r)
        × (r.tag ≡ codes "PingRes")
        × ((hr : Text) × ((k : Text)
              → get r.attrs k ≡ first_of (get ping.attrs k) (get ((codes "HR", hr) ∷ []) k))))
unfolding cut_when get same_text
handle-echo_example =
    handle-echo 8 (8, 9) 20 [] ping empty_engine refl (name (codes "Ping") refl) refl
      (
        (name (codes "Seq") refl, IsValue-literal (codes "7") refl),
        ((name (codes "Cx") refl, IsValue-literal (codes "0x2") refl), tt),
      )
      (refl, (refl, tt))

abbrev host_data : Msg
host_data = record { tag = codes "HostData"; attrs = (codes "Cx", codes "0x1") ∷ []; raw = payload }

handle-calls_example :
    (handle 7 (8, 9) 20 (codes "203.0.113.9") host_data empty_engine).0
    ≡ on_host (run (calls_of (8, 9) 20 (codes "203.0.113.9") host_data)) empty_engine
handle-calls_example = handle-calls (8, 9) 20 (codes "203.0.113.9") host_data empty_engine 7

abbrev requests : List Request
requests =
    record { now = 7; clock = (8, 9); from = 20; remote_ip = codes "203.0.113.9"; msg = host_data }
    ∷ record { now = 17; clock = (18, 19); from = 30; remote_ip = []; msg = host_data }
    ∷ []

serve-games_rows_example :
    (s : HostStore) × ((serve requests empty_engine).host ≡ some s)
    × All (λ r. row_by_rid r.rid s ≡ some r) (games_rows 0 s)
serve-games_rows_example = serve-games_rows requests empty_engine refl (omega arith)

abbrev tournament : List (Text × Text) → Msg
tournament attrs = record { tag = codes "Tourney"; attrs = attrs; raw = [] }
