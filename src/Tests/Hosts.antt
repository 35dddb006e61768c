-- ===== src/Tests/Hosts.antt =====
-- Runs of the host store and of the games list (internal/state/host_store.go).
use mathlib.Core.List.{Permᴰ}
use open_zone.Base.{
  ℕ, ◌≡◌, refl, some, List, [], ◌∷◌, Text, codes, arith, nat_eq, text_eq, same_text, All,
}
use open_zone.Base.Dict.{Dict, get, UniqueKeys}
use open_zone.Base.Strings.{trim_space, trim_right}
use open_zone.State.Addresses.{attr, parse_host_ip_list, fields_func, first_other}
use open_zone.State.Hosts.{HostSession, HostStore}
use open_zone.State.Hosts.Rids.{IsStore, HasDistinctRids}
use open_zone.State.Hosts.Calls.{
  HostCall, set_loc_call, observe_call, host_data_call, run, run-IsStore, run-HasDistinctRids,
}
use open_zone.State.Hosts.Unordered.{unordered}
use open_zone.State.Hosts.Orders.{run-Perm}
use open_zone.State.Rows.{games_rows, row_by_rid, row_items}
use open_zone.State.Rows.Lookup.{row_by_rid-games_rows}
use open_zone.State.Rows.Order.{run-games_rows_order}
use open_zone.State.Rows.Columns.{row_items-exact}

-- The list that the test `TestParseHostIpList` of the repository reads.
ip_list :
    parse_host_ip_list (codes " 10.0.0.2, 192.168.1.5 ") ≡ (codes "10.0.0.2", codes "192.168.1.5")
unfolding parse_host_ip_list fields_func first_other trim_space trim_right same_text
ip_list = refl

abbrev server_item : Dict Text Text
server_item =
    (codes "GName", codes "Alpha")
    ∷ (codes "IpAddr", codes "192.168.1.5")
    ∷ (codes "Ip2", codes "8.8.8.8,10.0.0.2")
    ∷ []

abbrev game : ℕ → Dict Text Text → HostSession
game r server = record {
  last_update = 5;
  rid = r;
  location = [];
  observed_remote_ip = codes "203.0.113.9";
  server = server;
  players = [];
}

-- Two hosts and a transient session that published nothing.
abbrev three_hosts : HostStore
three_hosts = record {
  hosts =
      (30, game 2 server_item)
      ∷ (20, game 1 ((codes "Map", codes "Ruins") ∷ []))
      ∷ (40, game 3 [])
      ∷ [];
  next_rid = 4;
}

three_hosts-UniqueKeys : UniqueKeys three_hosts.hosts
unfolding get
three_hosts-UniqueKeys = (refl, (refl, (refl, tt)))

three_hosts-IsStore : IsStore three_hosts
unfolding get
three_hosts-IsStore = record {
  unique = three_hosts-UniqueKeys;
  rids = λ d h e. ground arith;
  next = (omega arith, omega arith);
}

three_hosts-HasDistinctRids : HasDistinctRids three_hosts
unfolding get
three_hosts-HasDistinctRids = record {
  below = λ d h e. ground arith;
  distinct = λ d e h g p q r. ground arith;
}

-- Host 20 deletes its items; host 50 is new; host 30 moves.
abbrev some_calls : List HostCall
some_calls =
    host_data_call 10 20 (codes "<Item Num=\"0\" />")
    ∷ observe_call 11 50 (codes "198.51.100.7")
    ∷ set_loc_call 12 30 (codes "Multi_Browse")
    ∷ []

run-HasDistinctRids_example : HasDistinctRids (run some_calls three_hosts)
run-HasDistinctRids_example =
    run-HasDistinctRids some_calls three_hosts three_hosts-IsStore three_hosts-HasDistinctRids
      (omega arith)

-- Host 20 deletes its items while host 30 moves and host 40 is seen.
abbrev racing : List HostCall
racing =
    host_data_call 10 20 (codes "<Item Num=\"0\" />")
    ∷ set_loc_call 12 30 (codes "Multi_Browse")
    ∷ observe_call 13 40 (codes "198.51.100.7")
    ∷ []

abbrev racing_otherwise : List HostCall
racing_otherwise =
    set_loc_call 12 30 (codes "Multi_Browse")
    ∷ host_data_call 10 20 (codes "<Item Num=\"0\" />")
    ∷ observe_call 13 40 (codes "198.51.100.7")
    ∷ []

run-Perm_example :
    unordered (run racing three_hosts) (run-IsStore racing three_hosts three_hosts-IsStore)
    ≡ unordered
        (run racing_otherwise three_hosts)
        (run-IsStore racing_otherwise three_hosts three_hosts-IsStore)
unfolding get
run-Perm_example =
    run-Perm racing racing_otherwise three_hosts three_hosts-IsStore ∣ Permᴰ.swap refl refl ∣₁
      ((omega arith, (omega arith, tt)), ((omega arith, tt), (tt, tt)))
      (
        (game 1 ((codes "Map", codes "Ruins") ∷ []), refl),
        ((game 2 server_item, refl), ((game 3 [], refl), tt)),
      )

row_by_rid-games_rows_example :
    All (λ r. row_by_rid r.rid three_hosts ≡ some r) (games_rows 0 three_hosts)
row_by_rid-games_rows_example =
    row_by_rid-games_rows three_hosts three_hosts-UniqueKeys three_hosts-HasDistinctRids

-- The same three hosts, iterated in another order.
abbrev reordered : HostStore
reordered = record {
  hosts =
      (20, game 1 ((codes "Map", codes "Ruins") ∷ []))
      ∷ (40, game 3 [])
      ∷ (30, game 2 server_item)
      ∷ [];
  next_rid = 4;
}

reordered-UniqueKeys : UniqueKeys reordered.hosts
unfolding get
reordered-UniqueKeys = (refl, (refl, (refl, tt)))

same_hosts : (k : ℕ) → get three_hosts.hosts k ≡ get reordered.hosts k
unfolding get
same_hosts k = ground arith

reordered-IsStore : IsStore reordered
unfolding get
reordered-IsStore = record {
  unique = reordered-UniqueKeys;
  rids = λ d h e. ground arith;
  next = (omega arith, omega arith);
}

run-games_rows_order_example :
    games_rows 0 (run some_calls three_hosts) ≡ games_rows 0 (run some_calls reordered)
run-games_rows_order_example =
    run-games_rows_order some_calls three_hosts reordered three_hosts-IsStore reordered-IsStore
      (same_hosts, refl)

-- A host that publishes its map and that it is in a game: the row shows the one and not the other.
abbrev in_game : Dict Text Text
in_game = (codes "InGame", codes "1") ∷ server_item

row_items-exact_example : attr (row_items (codes "2") (game 2 in_game)) (codes "InGame") ≡ []
unfolding same_text
row_items-exact_example = row_items-exact (codes "2") (game 2 in_game) (codes "InGame")
