-- ===== src/State/Hosts/Payloads.antt =====
-- What `ApplyHostData` (internal/state/host_store.go) makes of a payload, item by item.
use open_zone.Base.{
  ℕ, ◌≡◌, refl, ap, sym, ◌∙◌, true, false, Option, none, some, List, [], ◌∷◌, Text, codes, text_eq,
  nat_eq, same_text, arith, eqb, length, All, if◌then◌else◌, Bool-cases, inl, inr,
}
use open_zone.Base.Attrs.{is_empty}
use open_zone.Base.Dict.{Dict, get, put, get-put, get-put_self, UniqueKeys}
use open_zone.State.Time.{Time}
use open_zone.State.Addresses.{attr}
use open_zone.State.Items.{scan_self_closing_elements}
use open_zone.State.Items.Unique.{scan-UniqueKeys}
use open_zone.State.Hosts.{
  HostSession, HostStore, get_or_create, merge, Applying, apply_item, apply_items, apply_found,
  apply_host_data,
}
use open_zone.State.Hosts.Calls.{apply_items-rid}

abbrev pub or_else : Option Text → Option Text → Option Text
or_else none d = d
or_else (some v) d = some v

abbrev pub item_id : Dict Text Text → Text
item_id attrs = attr attrs (codes "ItemId")

-- The value that published items leave under a name of the server item, whose `ItemId` is 0: the last
-- one that is given, or the one that stood there.
abbrev pub latest : Text → List (Dict Text Text) → Option Text → Option Text
latest k [] d = d
latest k (attrs ∷ items) d =
    latest k items (if same_text (item_id attrs) (codes "0") then or_else (get attrs k) d else d)

pub get-merge :
    (attrs m : Dict Text Text) (k : Text)
    → UniqueKeys attrs
    → same_text k (codes "ItemId") ≡ false
    → get (merge attrs m) k ≡ or_else (get attrs k) (get m k)
unfolding merge get
get-merge [] m k u h = refl
get-merge ((j, v) ∷ attrs) m k u h =
    get-merge attrs (if same_text j (codes "ItemId") then m else put m j v) k u.1 h
    ∙ elim (Bool-cases (same_text j k)) [
      | inl same ↦
          let equal : j ≡ k = (text_eq.equals_iff j k).0 same in
          let absent : get attrs k ≡ none = rw (sym equal) u.0 in
          rw (absent, or_else) (rw same (rw equal (rw h (get-put_self m k v))))
      | inr other ↦ ground (arith, get-put m j k v)
    ]

-- An item that publishes: it has an `ItemId`.
abbrev pub IsPublished : Dict Text Text → Type 0
IsPublished attrs = is_empty (item_id attrs) ≡ false

apply_item_published :
    (attrs : Dict Text Text) (a : Applying) (k : Text)
    → IsPublished attrs
    → UniqueKeys attrs
    → same_text k (codes "ItemId") ≡ false
    → (get (apply_item attrs a).session.server k ≡ (
        if same_text (item_id attrs) (codes "0")
        then or_else (get attrs k) (get a.session.server k)
        else get a.session.server k))
      × ((apply_item attrs a).attached ≡ a.attached)
unfolding apply_item
apply_item_published attrs a k p u h = elim (Bool-cases (same_text (item_id attrs) (codes "0"))) [
  | inl server ↦ rw p (rw server (get-merge attrs a.session.server k u h, refl))
  | inr player ↦ rw p (rw player (refl, refl))
]

apply_items_published :
    (items : List (Dict Text Text)) (a : Applying) (k : Text)
    → All IsPublished items
    → All UniqueKeys items
    → same_text k (codes "ItemId") ≡ false
    → (get (apply_items items a).session.server k ≡ latest k items (get a.session.server k))
      × ((apply_items items a).attached ≡ a.attached)
unfolding apply_items
apply_items_published [] a k p u h = (refl, refl)
apply_items_published (attrs ∷ items) a k p u h =
    let (first, held) = apply_item_published attrs a k p.0 u.0 h in
    let (later, kept) = apply_items_published items (apply_item attrs a) k p.1 u.1 h in
    (later ∙ ap (latest k items) first, kept ∙ held)

-- The session that the items are applied to.
abbrev pub starting : Time → HostSession → Applying
starting now h = record { session = record h { last_update = now }; attached = true }

-- A payload with at least one item, each of which has an `ItemId`, leaves the sender with a
-- session: its row id is the one it had or was given, and any attribute of its server item, other
-- than `ItemId`, holds the last published value, or the one that stood there.
pub apply_host_data-published :
    (now : Time) (from : ℕ) (payload : Text) (s : HostStore) (k : Text)
    → eqb (length (scan_self_closing_elements payload (codes "Item"))) 0 ≡ false
    → All IsPublished (scan_self_closing_elements payload (codes "Item"))
    → same_text k (codes "ItemId") ≡ false
    → (h : HostSession) × (get (apply_host_data now from payload s).hosts from ≡ some h)
      × (h.rid ≡ (get_or_create from s).1.rid)
      × (get h.server k
          ≡ latest k
              (scan_self_closing_elements payload (codes "Item"))
              (get (get_or_create from s).1.server k))
unfolding apply_host_data apply_found
apply_host_data-published now from payload s k some_items p other =
    let items = scan_self_closing_elements payload (codes "Item") in
    let a = starting now (get_or_create from s).1 in
    let (value, held) =
      apply_items_published items a k p (scan-UniqueKeys payload (codes "Item")) other in
    (
      (apply_items items a).session,
      rw some_items (
          rw held (get-put_self (get_or_create from s).0.hosts from (apply_items items a).session)),
      apply_items-rid items a,
      value,
    )
