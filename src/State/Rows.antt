-- ===== src/State/Rows.antt =====
-- internal/state/host_store.go: the rows of the games list, and the lookup of one row.
-- `maxRows` is 0 where the source means "no cap"; a negative cap means the same.
pub mod Listing
pub mod Lookup
pub mod Order
pub mod Columns
use open_zone.Base.{
  ℕ, suc, ◌+◌, Bool, true, false, not, ◌&&◌, ◌||◌, Option, none, some, List, [], ◌∷◌, ◌++◌, Text,
  codes, text_eq, nat_eq, same_text, eqb, ltb, leb, if◌then◌else◌, length, map,
}
use open_zone.Base.Dict.{Dict, get, put}
use open_zone.Base.Attrs.{is_empty}
use open_zone.Base.Numbers.{decimal}
use open_zone.State.Addresses.{attr, host_browse_ips}
use open_zone.State.Hosts.{HostSession, HostStore, GameRow}

-- A session with none of a game name, a map and an `Ip2` is transient, and shown nowhere.
unfoldable pub is_visible : HostSession → Bool
is_visible h = not (
    is_empty (attr h.server (codes "GName"))
    && (is_empty (attr h.server (codes "Map")) && is_empty (attr h.server (codes "Ip2"))))

pub count_visible : Dict ℕ HostSession → ℕ
count_visible [] = 0
count_visible ((d, h) ∷ m) = (if is_visible h then 1 else 0) + count_visible m

unfoldable pub visible_games_count : HostStore → ℕ
unfolding count_visible is_visible
visible_games_count s = count_visible s.hosts

unfoldable pub copy_if_non_empty : Dict Text Text → Text → Text → Dict Text Text
copy_if_non_empty dst k v = if is_empty v then dst else put dst k v

-- The columns that are copied from the server item, before and after the addresses.
abbrev pub early_columns : List Text
early_columns = codes "GName" ∷ codes "GameV" ∷ codes "Locale" ∷ []

abbrev pub late_columns : List Text
late_columns =
    codes "SFlags"
    ∷ codes "Flags"
    ∷ codes "Map"
    ∷ codes "World"
    ∷ codes "NumP"
    ∷ codes "MaxP"
    ∷ codes "Difficulty"
    ∷ codes "Time"
    ∷ codes "TimeL"
    ∷ []

unfoldable pub copy_columns : Dict Text Text → List Text → Dict Text Text → Dict Text Text
copy_columns server [] dst = dst
copy_columns server (k ∷ ks) dst = copy_columns server ks (copy_if_non_empty dst k (attr server k))

unfoldable pub put_addresses : Text × Text → Dict Text Text → Dict Text Text
put_addresses ips dst =
    if is_empty ips.0 then dst else put (put dst (codes "IpAddr") ips.0) (codes "Ip2") ips.1

-- The items of a row, as `GamesRows` and `RowByRid` both build them.
unfoldable pub row_items : Text → HostSession → Dict Text Text
unfolding copy_columns copy_if_non_empty put_addresses
row_items rid h = copy_columns h.server late_columns (
    put_addresses (host_browse_ips h.observed_remote_ip h.server)
      (copy_columns h.server early_columns (put [] (codes "Rid") rid)))

abbrev pub row_of : HostSession → GameRow
row_of h = record { rid = decimal h.rid; items = row_items (decimal h.rid) h }

pub insert_key : ℕ → List ℕ → List ℕ
insert_key k [] = k ∷ []
insert_key k (x ∷ xs) = let rest = insert_key k xs in if leb k x then k ∷ x ∷ xs else x ∷ rest

-- `sort.Slice` by `<`. The keys of a map are distinct, so every sorting algorithm gives this list.
unfoldable pub sort_keys : List ℕ → List ℕ
unfolding insert_key
sort_keys [] = []
sort_keys (k ∷ ks) = insert_key k (sort_keys ks)

unfoldable pub keys : Dict ℕ HostSession → List ℕ
keys [] = []
keys ((k, h) ∷ m) = k ∷ keys m

-- What one key adds to the rows: nothing for a missing or transient session.
abbrev pub row_for : Option HostSession → List GameRow
row_for none = []
row_for (some h) = if is_visible h then row_of h ∷ [] else []

-- The loop over the sorted keys, with `out` the rows so far.
unfoldable pub rows_loop : ℕ → Dict ℕ HostSession → List ℕ → List GameRow → List GameRow
rows_loop max_rows m [] out = out
rows_loop max_rows m (k ∷ ks) out =
    let rest = rows_loop max_rows m ks (out ++ row_for (get m k)) in
    if ltb 0 max_rows && leb max_rows (length out) then out else rest

unfoldable pub games_rows : ℕ → HostStore → List GameRow
unfolding rows_loop sort_keys keys is_visible row_items
games_rows max_rows s = rows_loop max_rows s.hosts (sort_keys (keys s.hosts)) []

pub search_rid : Text → Dict ℕ HostSession → Option GameRow
search_rid rid [] = none
search_rid rid ((k, h) ∷ m) =
    if same_text (decimal h.rid) rid
    then some (record { rid = rid; items = row_items rid h })
    else search_rid rid m

unfoldable pub row_by_rid : Text → HostStore → Option GameRow
unfolding search_rid
row_by_rid rid s = search_rid rid s.hosts
