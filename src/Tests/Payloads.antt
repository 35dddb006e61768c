-- ===== src/Tests/Payloads.antt =====
-- HostData payloads on the host store (internal/state/host_store.go).
use open_zone.Base.{
  ◌≡◌, refl, none, some, [], ◌∷◌, Text, codes, text_eq, nat_eq, same_text, arith, map,
}
use open_zone.Base.Dict.{get, put}
use open_zone.Base.Attrs.{next_attr, attr_loop}
use open_zone.Base.Strings.{trim_space, trim_suffix, cut, cut_when, has_prefix, contains}
use open_zone.State.Items.{scan_self_closing_elements, scan_loop, next_tag, add_tag, parse_attrs}
use open_zone.State.Hosts.{
  set_observed_remote_ip, merge, apply_item, apply_items, HostSession, HostStore, get_or_create,
  apply_host_data,
}
use open_zone.State.Hosts.Items.{IsApplied, apply_host_data-IsApplied}
use open_zone.State.Hosts.Deletions.{deletion, apply_host_data-deleted, apply_host_data-lost}

-- The session of the test `TestHostStore_DeleteStyleRemovesHost` of the repository, with a player.
abbrev hosting : HostStore
hosting = record {
  hosts =
      (
        20,
        record {
          last_update = 5;
          rid = 1;
          location = [];
          observed_remote_ip = [];
          server = (codes "GName", codes "x") ∷ [];
          players = (codes "2", (codes "User", codes "me") ∷ []) ∷ [];
        },
      )
      ∷ [];
  next_rid = 2;
}

abbrev deleting : Text
deleting = codes "<Del><Item Num=\"0\" /><Item Num=\"2\" /></Del>"

scan-deleting :
    scan_self_closing_elements deleting (codes "Item") ≡ map deletion (codes "0" ∷ codes "2" ∷ [])
unfolding scan_self_closing_elements scan_loop next_tag add_tag parse_attrs attr_loop next_attr
    trim_space trim_suffix cut cut_when has_prefix contains put same_text
scan-deleting = refl

apply_host_data-deleted_example : get (apply_host_data 9 20 deleting hosting).hosts 20 ≡ none
unfolding get_or_create get same_text
apply_host_data-deleted_example =
    apply_host_data-deleted 9 20 deleting hosting (codes "0") (codes "2" ∷ []) scan-deleting refl
      (λ k. ground (arith, text_eq.equals_iff (codes "2") k, text_eq.equals_iff (codes "0") k))

abbrev republishing : Text
republishing = codes "<HostData><Item Num=\"0\" /><Item ItemId=\"0\" GName=\"y\" /></HostData>"

scan-republishing :
    scan_self_closing_elements republishing (codes "Item")
    ≡ deletion (codes "0") ∷ ((codes "ItemId", codes "0") ∷ (codes "GName", codes "y") ∷ []) ∷ []
unfolding scan_self_closing_elements scan_loop next_tag add_tag parse_attrs attr_loop next_attr
    trim_space trim_suffix cut cut_when has_prefix contains put same_text
scan-republishing = refl

-- The host deletes its game and publishes another one, while a player is there.
apply_host_data-IsApplied_example :
    IsApplied
      (codes "0")
      (codes "GName")
      (scan_self_closing_elements republishing (codes "Item"))
      (get_or_create 20 hosting).1
      (get (apply_host_data 9 20 republishing hosting).hosts 20)
unfolding same_text
apply_host_data-IsApplied_example =
    apply_host_data-IsApplied 9 20 republishing hosting (codes "0") (codes "GName")
      (rw scan-republishing refl) refl refl

-- The same session without its player.
abbrev alone : HostStore
alone = record {
  hosts =
      (
        20,
        record {
          last_update = 5;
          rid = 1;
          location = [];
          observed_remote_ip = [];
          server = (codes "GName", codes "x") ∷ [];
          players = [];
        },
      )
      ∷ [];
  next_rid = 2;
}

apply_host_data-lost_example : get (apply_host_data 9 20 republishing alone).hosts 20 ≡ none
unfolding get_or_create get
apply_host_data-lost_example =
    apply_host_data-lost 9 20 republishing alone
      (((codes "ItemId", codes "0") ∷ (codes "GName", codes "y") ∷ []) ∷ []) scan-republishing refl

-- Player 20 is seen at a public address, and publishes a private one.
abbrev private_host : Text
private_host = codes "<HostData><Item ItemId=\"0\" GName=\"x\" Ip2=\"172.25.96.1\" /></HostData>"

abbrev private_session : HostSession
private_session = record {
  last_update = 9;
  rid = 1;
  location = [];
  observed_remote_ip = codes "203.0.113.1";
  server = (codes "GName", codes "x") ∷ (codes "Ip2", codes "172.25.96.1") ∷ [];
  players = [];
}

published_privately :
    get
      (apply_host_data 9 20 private_host
        (set_observed_remote_ip 8 20 (codes "203.0.113.1") alone)).hosts
      20
    ≡ some private_session
unfolding apply_host_data set_observed_remote_ip get_or_create apply_items apply_item merge
    scan_self_closing_elements scan_loop next_tag add_tag parse_attrs attr_loop next_attr trim_space
    trim_suffix cut cut_when has_prefix contains put get same_text
published_privately = refl
