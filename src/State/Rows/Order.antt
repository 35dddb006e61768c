-- ===== src/State/Rows/Order.antt =====
-- The games list does not depend on the order in which Go iterates over the map of hosts.
use open_zone.Base.{
  ℕ, ◌<◌, ◌≡◌, refl, sym, ap, ap₂, ◌∙◌, Bool, true, false, ◌||◌, List, [], ◌∷◌, nat_eq, arith, eqb,
  leb, All, All-map, Bool-cases, inl, inr, member,
}
use open_zone.Base.Dict.{Dict, get, UniqueKeys}
use open_zone.State.Players.{is_some}
use open_zone.State.Hosts.{HostSession, HostStore}
use open_zone.State.Hosts.Rids.{IsStore}
use open_zone.State.Hosts.Calls.{HostCall, run, run-IsStore}
use open_zone.State.Hosts.Contents.{SameStore, run-SameStore}
use open_zone.State.Rows.{insert_key, sort_keys, keys, games_rows}
use open_zone.State.Rows.Listing.{rows_of, games_rows_uncapped}

member-insert : (j k : ℕ) (ks : List ℕ) → member j (insert_key k ks) ≡ eqb k j || member j ks
unfolding insert_key
member-insert j k [] = refl
member-insert j k (x ∷ xs) = ground (arith, member-insert j k xs)

member-sort : (j : ℕ) (ks : List ℕ) → member j (sort_keys ks) ≡ member j ks
unfolding sort_keys
member-sort j [] = refl
member-sort j (k ∷ ks) =
    member-insert j k (sort_keys ks) ∙ ap (λ (b : Bool). eqb k j || b) (member-sort j ks)

member-keys : (j : ℕ) (m : Dict ℕ HostSession) → member j (keys m) ≡ is_some (get m j)
unfolding keys get
member-keys j [] = refl
member-keys j ((k, h) ∷ m) = ground (arith, member-keys j m)

-- Strictly ascending.
abbrev IsAscending : List ℕ → Type 0
IsAscending [] = Unit
IsAscending (x ∷ xs) = All (λ y. x < y) xs × IsAscending xs

insert-above :
    (x k : ℕ) (ks : List ℕ) → x < k → All (λ y. x < y) ks → All (λ y. x < y) (insert_key k ks)
unfolding insert_key
insert-above x k [] h a = (h, tt)
insert-above x k (y ∷ ys) h a = elim (Bool-cases (leb k y)) [
  | inl before ↦ rw before (h, a)
  | inr behind ↦ rw behind (a.0, insert-above x k ys h a.1)
]

insert-IsAscending :
    (k : ℕ) (ks : List ℕ) → member k ks ≡ false → IsAscending ks → IsAscending (insert_key k ks)
unfolding insert_key
insert-IsAscending k [] n a = (tt, tt)
insert-IsAscending k (y ∷ ys) n a = elim (Bool-cases (leb k y)) [
  | inl before ↦
      let lt : k < y = ground arith in
      rw before ((lt, All-map ys (λ z (below : y < z). omega arith) a.0), a)
  | inr behind ↦
      rw behind (insert-above y k ys (ground arith) a.0, insert-IsAscending k ys (ground arith) a.1)
]

sort-IsAscending : (m : Dict ℕ HostSession) → UniqueKeys m → IsAscending (sort_keys (keys m))
unfolding sort_keys keys
sort-IsAscending [] u = tt
sort-IsAscending ((k, h) ∷ m) u =
    insert-IsAscending k (sort_keys (keys m))
      (member-sort k (keys m) ∙ member-keys k m ∙ ap is_some u.0) (sort-IsAscending m u.1)

member-above : (x j : ℕ) (ys : List ℕ) → All (λ y. x < y) ys → member j ys ≡ true → x < j
member-above x j [] a h = absurd (cc)
member-above x j (y ∷ ys) a h = elim (Bool-cases (eqb y j)) [
  | inl here ↦ ground arith
  | inr there ↦ member-above x j ys a.1 (rw there at h)
]

not-member-above :
    (x j : ℕ) (ys : List ℕ) → All (λ y. x < y) ys → eqb x j ≡ true → member j ys ≡ false
not-member-above x j ys a h = elim (Bool-cases (member j ys)) [
  | inl m ↦ absurd (ground (arith, member-above x j ys a m))
  | inr n ↦ n
]

-- Two ascending lists with the same members are one list.
ascending_unique :
    (xs ys : List ℕ)
    → IsAscending xs
    → IsAscending ys
    → ((j : ℕ) → member j xs ≡ member j ys)
    → xs ≡ ys
ascending_unique [] [] a b h = refl
ascending_unique [] (y ∷ ys) a b h = absurd (ground (arith, h y))
ascending_unique (x ∷ xs) [] a b h = absurd (ground (arith, h x))
ascending_unique (x ∷ xs) (y ∷ ys) a b h =
    let same : x ≡ y = ground (arith, h x, h y, member-above x y xs a.0, member-above y x ys b.0) in
    ap₂ ◌∷◌ same (
      ascending_unique xs ys a.1 b.1
        (λ j. ground (arith, h j, same, not-member-above x j xs a.0, not-member-above y j ys b.0)))

same_rows :
    (m n : Dict ℕ HostSession) (ks : List ℕ)
    → ((k : ℕ) → get m k ≡ get n k)
    → rows_of m ks ≡ rows_of n ks
same_rows m n [] h = refl
same_rows m n (k ∷ ks) h = rw (h k) (rw (same_rows m n ks h))

-- Two stores, each with one entry for each DPNID, that hold the same session under each DPNID show the
-- same games list, in whatever order their maps are iterated.
games_rows-order :
    (s t : HostStore)
    → UniqueKeys s.hosts
    → UniqueKeys t.hosts
    → ((k : ℕ) → get s.hosts k ≡ get t.hosts k)
    → games_rows 0 s ≡ games_rows 0 t
games_rows-order s t u v h =
    games_rows_uncapped s
    ∙ same_rows s.hosts t.hosts (sort_keys (keys s.hosts)) h
    ∙ ap (rows_of t.hosts) (
        ascending_unique _ _ (sort-IsAscending s.hosts u) (sort-IsAscending t.hosts v) (λ j.
          member-sort j (keys s.hosts)
          ∙ member-keys j s.hosts
          ∙ ap is_some (h j)
          ∙ sym (member-sort j (keys t.hosts) ∙ member-keys j t.hosts)))
    ∙ sym (games_rows_uncapped t)

-- Two well-formed stores with the same sessions and the same counter, whose maps Go iterates in
-- different orders, show the same games list after any calls that write to the store.
pub run-games_rows_order :
    (cs : List HostCall) (s t : HostStore)
    → IsStore s
    → IsStore t
    → SameStore s t
    → games_rows 0 (run cs s) ≡ games_rows 0 (run cs t)
run-games_rows_order cs s t i j same =
    games_rows-order (run cs s) (run cs t) (run-IsStore cs s i).unique (run-IsStore cs t j).unique
      (run-SameStore cs s t same).0
