-- ===== src/State/Hosts.antt =====
-- internal/state/host_store.go: the hosted games that clients publish.
-- Each method takes the mutex for its whole body, so a method is one step on the store. `now` is what
-- `time.Now().UTC()` returns. DPNIDs and row ids are uint32 values.
-- The map of hosts holds pointers: `Applying` follows the session that `ApplyHostData` works on and
-- whether the map still holds it, since what is written to it after the delete is lost.
pub mod Rids
pub mod Calls
pub mod Payloads
pub mod Deletions
pub mod Items
pub mod Observed
pub mod Contents
pub mod Unordered
pub mod Orders
use open_zone.Base.{
  ℕ, ◌+◌, ◌%◌, ◌^◌, Bool, true, false, not, ◌&&◌, ◌||◌, Option, none, some, List, [], ◌∷◌, ◌++◌,
  Text, codes, text_eq, nat_eq, same_text, eqb, ltb, leb, if◌then◌else◌, length,
}
use open_zone.Base.Dict.{Dict, get, put, del}
use open_zone.Base.Attrs.{is_empty}
use open_zone.Base.Numbers.{decimal}
use open_zone.Base.Strings.{trim_space}
use open_zone.State.Time.{Time}
use open_zone.State.Items.{scan_self_closing_elements}
use open_zone.State.Addresses.{or_empty, attr, host_browse_ips}

pub record HostSession : Type 0 where
  pub last_update : Time
  pub rid : ℕ
  pub location : Text
  pub observed_remote_ip : Text
  pub server : Dict Text Text
  pub players : Dict Text (Dict Text Text)

pub record HostStore : Type 0 where
  pub hosts : Dict ℕ HostSession
  pub next_rid : ℕ

pub record GameRow : Type 0 where
  pub rid : Text
  pub items : Dict Text Text

unfoldable pub new_host_store : HostStore
new_host_store = record { hosts = []; next_rid = 1 }

abbrev pub max_rid : ℕ
max_rid = 0x7fffffff

abbrev pub wrapped : ℕ → ℕ
wrapped n = if eqb n 0 || leb max_rid n then 1 else n

abbrev pub blank_session : ℕ → HostSession
blank_session r = record {
  last_update = 0;
  rid = r;
  location = [];
  observed_remote_ip = [];
  server = [];
  players = [];
}

create : ℕ → HostStore → HostStore × HostSession
create from s =
    let r = wrapped s.next_rid in
    (
      record { hosts = put s.hosts from (blank_session r); next_rid = (r + 1) % 2 ^ 32 },
      blank_session r,
    )

abbrev found_or_created : ℕ → HostStore → Option HostSession → HostStore × HostSession
found_or_created from s none = create from s
found_or_created from s (some h) = (s, h)

unfoldable pub get_or_create : ℕ → HostStore → HostStore × HostSession
unfolding create
get_or_create from s = found_or_created from s (get s.hosts from)

unfoldable pub set_loc : Time → ℕ → Text → HostStore → HostStore
set_loc now from location s =
    let (s', h) = get_or_create from s in
    record s' { hosts = put s'.hosts from (record h { location = location; last_update = now }) }

set_observed : Time → ℕ → Text → HostStore → HostStore
set_observed now from ip s =
    let (s', h) = get_or_create from s in
    record s' {
      hosts = put s'.hosts from (record h { observed_remote_ip = ip; last_update = now });
    }

unfoldable pub set_observed_remote_ip : Time → ℕ → Text → HostStore → HostStore
unfolding set_observed
set_observed_remote_ip now from ip s =
    if is_empty (trim_space ip) then s else set_observed now from (trim_space ip) s

-- for k, v := range attrs { if k == "ItemId" { continue }; m[k] = v }
unfoldable pub merge : Dict Text Text → Dict Text Text → Dict Text Text
merge [] m = m
merge ((k, v) ∷ attrs) m = merge attrs (if same_text k (codes "ItemId") then m else put m k v)

-- The session that `ApplyHostData` works on, and whether the map holds it.
pub record Applying : Type 0 where
  pub session : HostSession
  pub attached : Bool

abbrev pub no_entries {ℓ κ} : {K : Type ℓ} {V : Type κ} → Dict K V → Bool
no_entries [] = true
no_entries (e ∷ m) = false

-- A delete-style item: `num` names the server item or a player.
unfoldable pub delete_item : Text → Applying → Applying
delete_item num a =
    let h =
      if same_text num (codes "0")
      then record (a.session) { server = [] }
      else record (a.session) { players = del (a.session).players num } in
    if no_entries h.server && no_entries h.players
    then record { session = h; attached = false }
    else record { session = h; attached = a.attached }

abbrev delete_by_num : Option Text → Dict Text Text → Applying → Applying
delete_by_num none attrs a = a
delete_by_num (some num) attrs a = if eqb (length attrs) 1 then delete_item num a else a

abbrev pub or_nil : Option (Dict Text Text) → Dict Text Text
or_nil none = []
or_nil (some p) = p

-- The body of the loop over the items.
unfoldable pub apply_item : Dict Text Text → Applying → Applying
unfolding delete_item merge
apply_item attrs a =
    let id = attr attrs (codes "ItemId") in
    let h = a.session in
    if is_empty id
    then delete_by_num (get attrs (codes "Num")) attrs a
    else if same_text id (codes "0")
    then record a { session = record h { server = merge attrs h.server } }
    else record a {
      session = record h { players = put h.players id (merge attrs (or_nil (get h.players id))) };
    }

unfoldable pub apply_items : List (Dict Text Text) → Applying → Applying
apply_items [] a = a
apply_items (attrs ∷ items) a = apply_items items (apply_item attrs a)

-- The map after the loop.
abbrev pub write_back : ℕ → HostStore → Applying → HostStore
write_back from s a = record s {
  hosts = if a.attached then put s.hosts from a.session else del s.hosts from;
}

apply_found : Time → ℕ → List (Dict Text Text) → HostStore → HostStore
apply_found now from items s =
    let (s', h) = get_or_create from s in
    write_back from s'
      (apply_items items (record { session = record h { last_update = now }; attached = true }))

unfoldable pub apply_host_data : Time → ℕ → Text → HostStore → HostStore
unfolding apply_found
apply_host_data now from payload s =
    let items = scan_self_closing_elements payload (codes "Item") in
    if eqb (length items) 0 then s else apply_found now from items s
