-- ===== src/State/Hosts/Deletions.antt =====
-- The delete-style payloads of `ApplyHostData` (internal/state/host_store.go): `<Item Num="0" />` clears
-- the server item, another `Num` removes a player, and a session with neither is dropped from the map.
use open_zone.Base.{
  ℕ, ◌≡◌, refl, ap, ◌∙◌, Bool, true, false, not, ◌&&◌, ◌||◌, Option, none, some, List, [], ◌∷◌,
  Text, codes, text_eq, nat_eq, same_text, arith, eqb_iff, map, if◌then◌else◌, Option-cases, inl,
  inr,
}
use open_zone.Base.Dict.{Dict, get, get-del}
use open_zone.State.Time.{Time}
use open_zone.State.Items.{scan_self_closing_elements}
use open_zone.State.Hosts.{
  HostStore, get_or_create, Applying, no_entries, delete_item, delete_by_num, apply_item,
  apply_items, apply_found, apply_host_data,
}
use open_zone.State.Hosts.Payloads.{starting}

-- The item that deletes what `num` names.
abbrev pub deletion : Text → Dict Text Text
deletion num = (codes "Num", num) ∷ []

apply_item-deletion : (num : Text) (a : Applying) → apply_item (deletion num) a ≡ delete_item num a
unfolding apply_item get same_text
apply_item-deletion num a = refl

-- A session that is still held has something in it.
abbrev IsKept : Applying → Type 0
IsKept a = no_entries a.session.server && (no_entries a.session.players && a.attached) ≡ false

delete_item-IsKept : (num : Text) (a : Applying) → IsKept (delete_item num a)
unfolding delete_item
delete_item-IsKept num a = ground arith

abbrev pub named : Text → List Text → Bool
named k [] = false
named k (n ∷ nums) = same_text n k || named k nums

delete_items : List Text → Applying → Applying
delete_items [] a = a
delete_items (n ∷ nums) a = delete_items nums (delete_item n a)

apply_items-deletions :
    (nums : List Text) (a : Applying) → apply_items (map deletion nums) a ≡ delete_items nums a
unfolding apply_items delete_items
apply_items-deletions [] a = refl
apply_items-deletions (n ∷ nums) a =
    ap (apply_items (map deletion nums)) (apply_item-deletion n a)
    ∙ apply_items-deletions nums (delete_item n a)

delete_items-IsKept : (nums : List Text) (a : Applying) → IsKept a → IsKept (delete_items nums a)
unfolding delete_items
delete_items-IsKept [] a h = h
delete_items-IsKept (n ∷ nums) a h =
    delete_items-IsKept nums (delete_item n a) (delete_item-IsKept n a)

server-delete_item :
    (num : Text) (a : Applying)
    → no_entries (delete_item num a).session.server
      ≡ same_text num (codes "0") || no_entries a.session.server
unfolding delete_item
server-delete_item num a = ground arith

server-delete_items :
    (nums : List Text) (a : Applying)
    → no_entries (delete_items nums a).session.server
      ≡ named (codes "0") nums || no_entries a.session.server
unfolding delete_items
server-delete_items [] a = refl
server-delete_items (n ∷ nums) a =
    ground (arith, server-delete_items nums (delete_item n a), server-delete_item n a)

players-delete_item :
    (num : Text) (a : Applying) (k : Text)
    → same_text (codes "0") k ≡ false
    → get (delete_item num a).session.players k
      ≡ (if same_text num k then none else get a.session.players k)
unfolding delete_item
players-delete_item num a k h = ground (
  arith,
  get-del a.session.players num k,
  text_eq.equals_iff num k,
  text_eq.equals_iff num (codes "0"),
  text_eq.equals_iff (codes "0") k,
)

players-delete_items :
    (nums : List Text) (a : Applying) (k : Text)
    → same_text (codes "0") k ≡ false
    → get (delete_items nums a).session.players k
      ≡ (if named k nums then none else get a.session.players k)
unfolding delete_items
players-delete_items [] a k h = refl
players-delete_items (n ∷ nums) a k h =
    ground (arith, players-delete_items nums (delete_item n a) k h, players-delete_item n a k h)

players-delete_items-none :
    (nums : List Text) (a : Applying) (k : Text)
    → get a.session.players k ≡ none
    → get (delete_items nums a).session.players k ≡ none
unfolding delete_items delete_item
players-delete_items-none [] a k h = h
players-delete_items-none (n ∷ nums) a k h =
    players-delete_items-none nums (delete_item n a) k
      (ground (arith, get-del a.session.players n k))

no_entries_of :
    (m : Dict Text (Dict Text Text)) → ((k : Text) → get m k ≡ none) → no_entries m ≡ true
unfolding get
no_entries_of [] h = refl
no_entries_of ((k, v) ∷ m) h = absurd (ground (arith, h k, text_eq.equals_iff k k))

abbrev holds {ℓ} : {A : Type ℓ} → Option A → Bool
holds none = false
holds (some v) = true

players_gone :
    (nums : List Text) (a : Applying)
    → ((k : Text)
        → holds (get a.session.players k) ≡ true
        → named k nums && not (same_text (codes "0") k) ≡ true)
    → no_entries (delete_items nums a).session.players ≡ true
players_gone nums a h = no_entries_of (delete_items nums a).session.players (λ k. gone k)
  where
    gone : (k : Text) → get (delete_items nums a).session.players k ≡ none
    gone k = elim (Option-cases (get a.session.players k)) [
      | inl absent ↦ players-delete_items-none nums a k absent
      | inr (v, present) ↦
          let both = h k (rw present refl) in
          players-delete_items nums a k (ground arith) ∙ ground arith
    ]

-- A payload that consists of deletions, and that names the server item and every player of the
-- sender's session (none of which has the id 0), leaves the sender without a session.
pub apply_host_data-deleted :
    (now : Time) (from : ℕ) (payload : Text) (s : HostStore) (num : Text) (nums : List Text)
    → scan_self_closing_elements payload (codes "Item") ≡ map deletion (num ∷ nums)
    → named (codes "0") (num ∷ nums) ≡ true
    → ((k : Text)
        → holds (get (get_or_create from s).1.players k) ≡ true
        → named k (num ∷ nums) && not (same_text (codes "0") k) ≡ true)
    → get (apply_host_data now from payload s).hosts from ≡ none
unfolding apply_host_data apply_found delete_items
apply_host_data-deleted now from payload s num nums found server players =
    let a = starting now (get_or_create from s).1 in
    let done = delete_items nums (delete_item num a) in
    let kept = delete_items-IsKept nums (delete_item num a) (delete_item-IsKept num a) in
    let no_server : no_entries done.session.server ≡ true =
      server-delete_items (num ∷ nums) a ∙ rw server refl in
    let no_players : no_entries done.session.players ≡ true = players_gone (num ∷ nums) a players in
    let lost : done.attached ≡ false = ground arith in
    rw found (
      rw (apply_items-deletions (num ∷ nums) a) (
        rw lost
          (ground (arith, get-del (get_or_create from s).0.hosts from from, eqb_iff from from))))

apply_item_detached :
    (attrs : Dict Text Text) (a : Applying)
    → a.attached ≡ false
    → (apply_item attrs a).attached ≡ false
unfolding apply_item delete_item
apply_item_detached attrs a h = elim (Option-cases (get attrs (codes "Num"))) [
  | inl absent ↦ rw (absent, delete_by_num) (ground arith)
  | inr (num, present) ↦ rw (present, delete_by_num) (ground arith)
]

apply_items_detached :
    (items : List (Dict Text Text)) (a : Applying)
    → a.attached ≡ false
    → (apply_items items a).attached ≡ false
unfolding apply_items
apply_items_detached [] a h = h
apply_items_detached (attrs ∷ items) a h =
    apply_items_detached items (apply_item attrs a) (apply_item_detached attrs a h)

-- After a payload that begins with the deletion of the server item, a sender whose session had no
-- players has no session, whatever items follow in the payload: what they publish is lost.
pub apply_host_data-lost :
    (now : Time) (from : ℕ) (payload : Text) (s : HostStore) (more : List (Dict Text Text))
    → scan_self_closing_elements payload (codes "Item") ≡ deletion (codes "0") ∷ more
    → no_entries (get_or_create from s).1.players ≡ true
    → get (apply_host_data now from payload s).hosts from ≡ none
unfolding apply_host_data apply_found apply_items
apply_host_data-lost now from payload s more found alone =
    let a = starting now (get_or_create from s).1 in
    let detached : (apply_item (deletion (codes "0")) a).attached ≡ false =
      ap (λ (b : Applying). b.attached) (apply_item-deletion (codes "0") a)
      ∙ unfold delete_item same_text in rw alone refl in
    let lost = apply_items_detached more (apply_item (deletion (codes "0")) a) detached in
    rw found (
      rw lost (ground (arith, get-del (get_or_create from s).0.hosts from from, eqb_iff from from)))
