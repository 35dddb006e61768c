-- ===== src/State/Rows/Listing.antt =====
-- The loop of `GamesRows`: without a cap it lists every visible session, and with one it stops at
-- the cap; the count of visible games is the number of rows.
use open_zone.Base.{
  ℕ, zero, suc, ◌+◌, ◌≤◌, ◌<◌, ◌≡◌, refl, sym, ap, ◌∙◌, Option, none, some, List, [], ◌∷◌, ◌++◌,
  nat_eq, arith, eqb_iff, leb, if◌then◌else◌, length, length-append, take, append_assoc, append-nil,
  Bool-cases, inl, inr,
}
use open_zone.Base.Dict.{Dict, get, UniqueKeys}
use open_zone.State.Hosts.{HostSession, HostStore, GameRow}
use open_zone.State.Rows.{
  is_visible, count_visible, visible_games_count, insert_key, sort_keys, keys, row_for, rows_loop,
  games_rows,
}

-- The rows of a list of keys, in its order.
abbrev pub rows_of : Dict ℕ HostSession → List ℕ → List GameRow
rows_of m [] = []
rows_of m (k ∷ ks) = row_for (get m k) ++ rows_of m ks

length-row_for-le : (o : Option HostSession) → length (row_for o) ≤ 1
length-row_for-le none = omega arith
length-row_for-le (some h) = ground arith

rows_loop_uncapped :
    (m : Dict ℕ HostSession) (ks : List ℕ) (out : List GameRow)
    → rows_loop 0 m ks out ≡ out ++ rows_of m ks
unfolding rows_loop
rows_loop_uncapped m [] out = sym (append-nil out)
rows_loop_uncapped m (k ∷ ks) out =
    rows_loop_uncapped m ks (out ++ row_for (get m k))
    ∙ append_assoc out (row_for (get m k)) (rows_of m ks)

take_all : (xs : List GameRow) (n : ℕ) → length xs ≤ n → take n xs ≡ xs
take_all [] zero h = refl
take_all [] (suc n) h = refl
take_all (x ∷ xs) zero h = absurd (omega arith)
take_all (x ∷ xs) (suc n) h = ap (◌∷◌ x) (take_all xs n (omega arith))

take-append_full : (xs ys : List GameRow) (n : ℕ) → length xs ≡ n → take n (xs ++ ys) ≡ xs
take-append_full [] ys zero h = refl
take-append_full [] ys (suc n) h = absurd (omega arith)
take-append_full (x ∷ xs) ys zero h = absurd (omega arith)
take-append_full (x ∷ xs) ys (suc n) h = ap (◌∷◌ x) (take-append_full xs ys n (omega arith))

rows_loop_capped :
    (n : ℕ) (m : Dict ℕ HostSession) (ks : List ℕ) (out : List GameRow)
    → 0 < n
    → length out ≤ n
    → rows_loop n m ks out ≡ take n (out ++ rows_of m ks)
unfolding rows_loop
rows_loop_capped n m [] out pos le = rw (append-nil out) (sym (take_all out n le))
rows_loop_capped n m (k ∷ ks) out pos le = elim (Bool-cases (leb n (length out))) [
  | inl full ↦ ground (arith, take-append_full out (row_for (get m k) ++ rows_of m ks) n)
  | inr room ↦ ground (
    arith,
    rows_loop_capped n m ks (out ++ row_for (get m k)),
    length-append out (row_for (get m k)),
    length-row_for-le (get m k),
    append_assoc out (row_for (get m k)) (rows_of m ks),
  )
]

-- A positive cap gives the first rows of the uncapped list, as many as the cap at most.
games_rows-cap : (n : ℕ) (s : HostStore) → 0 < n → games_rows n s ≡ take n (games_rows 0 s)
unfolding games_rows
games_rows-cap n s pos =
    rows_loop_capped n s.hosts (sort_keys (keys s.hosts)) [] pos (omega arith)
    ∙ ap (take n) (sym (rows_loop_uncapped s.hosts (sort_keys (keys s.hosts)) []))

pub games_rows_uncapped :
    (s : HostStore) → games_rows 0 s ≡ rows_of s.hosts (sort_keys (keys s.hosts))
unfolding games_rows
games_rows_uncapped s = rows_loop_uncapped s.hosts (sort_keys (keys s.hosts)) []

length-rows_of-insert :
    (m : Dict ℕ HostSession) (k : ℕ) (ks : List ℕ)
    → length (rows_of m (insert_key k ks)) ≡ length (rows_of m (k ∷ ks))
unfolding insert_key
length-rows_of-insert m k [] = refl
length-rows_of-insert m k (x ∷ xs) = elim (Bool-cases (leb k x)) [
  | inl before ↦ rw before
  | inr behind ↦ rw behind (
      omega (
        arith,
        length-rows_of-insert m k xs,
        length-append (row_for (get m x)) (rows_of m (insert_key k xs)),
        length-append (row_for (get m k)) (rows_of m xs),
        length-append (row_for (get m k)) (row_for (get m x) ++ rows_of m xs),
        length-append (row_for (get m x)) (rows_of m xs),
      ))
]

length-rows_of-sort :
    (m : Dict ℕ HostSession) (ks : List ℕ)
    → length (rows_of m (sort_keys ks)) ≡ length (rows_of m ks)
unfolding sort_keys
length-rows_of-sort m [] = refl
length-rows_of-sort m (k ∷ ks) =
    length-rows_of-insert m k (sort_keys ks)
    ∙ length-append (row_for (get m k)) (rows_of m (sort_keys ks))
    ∙ ap (λ (n : ℕ). length (row_for (get m k)) + n) (length-rows_of-sort m ks)
    ∙ sym (length-append (row_for (get m k)) (rows_of m ks))

length-row_for : (h : HostSession) → length (row_for (some h)) ≡ (if is_visible h then 1 else 0)
length-row_for h = ground arith

length-rows_of-keys :
    (m es : Dict ℕ HostSession)
    → UniqueKeys es
    → ((k : ℕ) (h : HostSession) → get es k ≡ some h → get m k ≡ some h)
    → length (rows_of m (keys es)) ≡ count_visible es
unfolding keys count_visible get
length-rows_of-keys m [] u same = refl
length-rows_of-keys m ((k, h) ∷ es) u same = rw (same k h (ground (arith, eqb_iff k k))) (
    omega (
      arith,
      length-append (row_for (some h)) (rows_of m (keys es)),
      length-row_for h,
      length-rows_of-keys m es u.1 (λ j g e. same j g (ground (arith, eqb_iff k j, u.0))),
    ))

-- In a store with one entry for each DPNID, the number of games that the stats report is the number
-- of rows that the uncapped list shows.
visible_games_count-games_rows :
    (s : HostStore) → UniqueKeys s.hosts → visible_games_count s ≡ length (games_rows 0 s)
unfolding visible_games_count
visible_games_count-games_rows s u = sym (
    ap length (games_rows_uncapped s)
    ∙ length-rows_of-sort s.hosts (keys s.hosts)
    ∙ length-rows_of-keys s.hosts s.hosts u (λ k h e. e))
