-- ===== src/State/Hosts/Items.antt =====
-- `ApplyHostData` (internal/state/host_store.go) against a description of each attribute by itself: what an
-- item publishes or deletes for it, in the order of the payload.
use open_zone.Base.{
  ℕ, ◌≡◌, refl, ap, ◌∙◌, Bool, true, false, ◌||◌, Option, none, some, List, [], ◌∷◌, Text, codes,
  text_eq, nat_eq, same_text, arith, eqb, eqb_iff, length, All, if◌then◌else◌, Bool-cases,
  Option-cases, inl, inr,
}
use open_zone.Base.Attrs.{is_empty}
use open_zone.Base.Dict.{Dict, get, get-put, get-put_self, get-del, UniqueKeys}
use open_zone.State.Time.{Time}
use open_zone.State.Items.{scan_self_closing_elements}
use open_zone.State.Items.Unique.{scan-UniqueKeys}
use open_zone.State.Hosts.{
  HostSession, HostStore, get_or_create, merge, Applying, or_nil, delete_item, apply_item,
  apply_items, apply_found, write_back, apply_host_data,
}
use open_zone.State.Hosts.Calls.{apply_items-rid}
use open_zone.State.Hosts.Payloads.{or_else, item_id, get-merge, starting}

-- What an item without an `ItemId`, and with nothing but a `Num`, deletes.
abbrev deleted_by : Bool → Option Text → ℕ → Option Text
deleted_by true (some num) n = if eqb n 1 then some num else none
deleted_by _ _ n = none

abbrev pub deleted : Dict Text Text → Option Text
deleted attrs = deleted_by (is_empty (item_id attrs)) (get attrs (codes "Num")) (length attrs)

abbrev is_for : Text → Option Text → Bool
is_for id none = false
is_for id (some num) = same_text num id

-- An attribute `k` of the item `id` after one item of a payload.
abbrev pub next_value : Text → Text → Dict Text Text → Option Text → Option Text
next_value id k attrs d =
    if same_text (item_id attrs) id
    then or_else (get attrs k) d
    else if is_for id (deleted attrs)
    then none
    else d

-- And after all of them, in order.
abbrev pub value_after : Text → Text → List (Dict Text Text) → Option Text → Option Text
value_after id k [] d = d
value_after id k (attrs ∷ items) d = value_after id k items (next_value id k attrs d)

abbrev pub is_deletion : Dict Text Text → Bool
is_deletion attrs = elim (deleted attrs) [ none ↦ false | some num ↦ true ]

abbrev pub any_deletion : List (Dict Text Text) → Bool
any_deletion [] = false
any_deletion (attrs ∷ items) = is_deletion attrs || any_deletion items

-- An attribute of the server item, which is item 0, or of a player.
abbrev pub held : HostSession → Text → Text → Option Text
held h id k = if same_text id (codes "0") then get h.server k else get (or_nil (get h.players id)) k

delete_item-held :
    (num : Text) (a : Applying) (id k : Text)
    → held (delete_item num a).session id k
      ≡ (if same_text num id then none else held a.session id k)
unfolding delete_item get
delete_item-held num a id k = ground (
  arith,
  get-del a.session.players num id,
  text_eq.equals_iff num id,
  text_eq.equals_iff num (codes "0"),
  text_eq.equals_iff id (codes "0"),
)

-- An item with an `ItemId`.
published-held :
    (attrs : Dict Text Text) (a : Applying) (id k : Text)
    → is_empty (item_id attrs) ≡ false
    → UniqueKeys attrs
    → same_text k (codes "ItemId") ≡ false
    → (held (apply_item attrs a).session id k ≡ (
        if same_text (item_id attrs) id
        then or_else (get attrs k) (held a.session id k)
        else held a.session id k))
      × ((apply_item attrs a).attached ≡ a.attached)
unfolding apply_item
published-held attrs a id k p u other = elim (Bool-cases (same_text (item_id attrs) (codes "0"))) [
  | inl server ↦
      let at_server = (text_eq.equals_iff (item_id attrs) (codes "0")).0 server in
      rw (p, server)
        (
          ground (
            arith,
            get-merge attrs a.session.server k u other,
            text_eq.equals_iff id (codes "0"),
            text_eq.equals_iff (item_id attrs) id,
            at_server,
          ),
          refl,
        )
  | inr player ↦
      let p_map = or_nil (get a.session.players (item_id attrs)) in
      rw (p, player)
        (
          ground (
            arith,
            get-put a.session.players (item_id attrs) id (merge attrs p_map),
            get-merge attrs p_map k u other,
            text_eq.equals_iff id (codes "0"),
            text_eq.equals_iff (item_id attrs) (codes "0"),
            text_eq.equals_iff (item_id attrs) id,
          ),
          refl,
        )
]

-- An item without one.
unnamed-held :
    (attrs : Dict Text Text) (a : Applying) (id k : Text)
    → is_empty (item_id attrs) ≡ true
    → held (apply_item attrs a).session id k
      ≡ (if is_for id (deleted attrs) then none else held a.session id k)
unfolding apply_item
unnamed-held attrs a id k p = elim (Option-cases (get attrs (codes "Num"))) [
  | inl absent ↦ rw (p, absent) refl
  | inr (num, present) ↦ elim (Bool-cases (eqb (length attrs) 1)) [
    | inl alone ↦ rw (p, present) (rw alone (delete_item-held num a id k))
    | inr more ↦ rw (p, present) (rw more refl)
  ]
]

not_named :
    (id name : Text) → is_empty id ≡ false → is_empty name ≡ true → same_text name id ≡ false
not_named id [] some_id h = unfold same_text in ground arith
not_named id (c ∷ name) some_id h = absurd (cc)

apply_item-held :
    (attrs : Dict Text Text) (a : Applying) (id k : Text)
    → is_empty id ≡ false
    → UniqueKeys attrs
    → same_text k (codes "ItemId") ≡ false
    → held (apply_item attrs a).session id k ≡ next_value id k attrs (held a.session id k)
apply_item-held attrs a id k some_id u other = elim (Bool-cases (is_empty (item_id attrs))) [
  | inl unnamed ↦
      unnamed-held attrs a id k unnamed ∙ rw (not_named id (item_id attrs) some_id unnamed) refl
  | inr named ↦ (published-held attrs a id k named u other).0 ∙ rw named refl
]

apply_items-held :
    (items : List (Dict Text Text)) (a : Applying) (id k : Text)
    → is_empty id ≡ false
    → All UniqueKeys items
    → same_text k (codes "ItemId") ≡ false
    → held (apply_items items a).session id k ≡ value_after id k items (held a.session id k)
unfolding apply_items
apply_items-held [] a id k some_id u other = refl
apply_items-held (attrs ∷ items) a id k some_id u other =
    apply_items-held items (apply_item attrs a) id k some_id u.1 other
    ∙ ap (value_after id k items) (apply_item-held attrs a id k some_id u.0 other)

-- Only a deletion takes the session out of the map.
apply_item-attached :
    (attrs : Dict Text Text) (a : Applying)
    → is_deletion attrs ≡ false
    → (apply_item attrs a).attached ≡ a.attached
unfolding apply_item
apply_item-attached attrs a h = elim (Option-cases (get attrs (codes "Num"))) [
  | inl absent ↦ rw absent (ground arith)
  | inr (num, present) ↦ rw present (ground arith)
]

apply_items-attached :
    (items : List (Dict Text Text)) (a : Applying)
    → a.attached ≡ true
    → (apply_items items a).attached ≡ false
    → any_deletion items ≡ true
unfolding apply_items
apply_items-attached [] a here gone = absurd (cc)
apply_items-attached (attrs ∷ items) a here gone = elim (Bool-cases (is_deletion attrs)) [
  | inl deletes ↦ rw deletes refl
  | inr keeps ↦ rw keeps (
      apply_items-attached items (apply_item attrs a) (apply_item-attached attrs a keeps ∙ here)
        gone)
]

-- What is left of a sender after the items: the session, with an attribute as the items describe it, or
-- nothing, for a deletion.
abbrev pub IsApplied :
    Text → Text → List (Dict Text Text) → HostSession → Option HostSession → Type 0
IsApplied id k items before none = any_deletion items ≡ true
IsApplied id k items before (some h) =
    (h.rid ≡ before.rid) × (held h id k ≡ value_after id k items (held before id k))

write_back-IsApplied :
    (id k : Text) (items : List (Dict Text Text)) (from : ℕ) (s : HostStore) (before : HostSession)
    (a : Applying)
    → ((a.attached ≡ false) → any_deletion items ≡ true)
    → IsApplied id k items before (some a.session)
    → IsApplied id k items before (get (write_back from s a).hosts from)
write_back-IsApplied id k items from s before a lost kept = elim (Bool-cases a.attached) [
  | inl here ↦ rw here (rw (get-put_self s.hosts from a.session) kept)
  | inr gone ↦
      rw gone (rw (get-del s.hosts from from) (rw ((eqb_iff from from).1 refl) (lost gone)))
]

-- After a payload with items, whatever they publish and delete and in whatever order, the sender has its
-- session, with the row id it had or was given, where each attribute, other than `ItemId`, of the server
-- item and of each player has the value that it last got after its item was last deleted, or else the
-- one that it had; or it has none, and then the payload deletes something.
pub apply_host_data-IsApplied :
    (now : Time) (from : ℕ) (payload : Text) (s : HostStore) (id k : Text)
    → eqb (length (scan_self_closing_elements payload (codes "Item"))) 0 ≡ false
    → is_empty id ≡ false
    → same_text k (codes "ItemId") ≡ false
    → IsApplied id k
        (scan_self_closing_elements payload (codes "Item"))
        (get_or_create from s).1
        (get (apply_host_data now from payload s).hosts from)
unfolding apply_host_data apply_found
apply_host_data-IsApplied now from payload s id k some_items some_id other =
    let items = scan_self_closing_elements payload (codes "Item") in
    let a = starting now (get_or_create from s).1 in
    rw some_items (
      write_back-IsApplied id k items from (get_or_create from s).0 (get_or_create from s).1
        (apply_items items a) (apply_items-attached items a refl)
        (
          apply_items-rid items a,
          apply_items-held items a id k some_id (scan-UniqueKeys payload (codes "Item")) other,
        ))
