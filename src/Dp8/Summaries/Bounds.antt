-- ===== src/Dp8/Summaries/Bounds.antt =====
-- What a summary can hold: no text that a user entered, beyond a bounded and filtered piece.
use open_zone.Base.{
  same_text, ℕ, zero, suc, ◌≤◌, ◌≡◌, refl, Bool, true, false, some, List, [], ◌∷◌, Text, codes,
  text_eq, arith, eqb, length, take, map, every, All, All-every, Option-cases, Bool-cases, inl, inr,
  >>=-eq-some,
}
use open_zone.Base.Attrs.{is_empty}
use open_zone.Base.Dict.{put}
use open_zone.Base.Strings.{
  trim_space, cut, cut_byte, cut_when, cut_when-CutAt, cut_when-eq-none, All-trim_space,
  length-cut_when,
}
use open_zone.Proto.Engine.Dispatch.{text_le, insert_text, sort_texts}
use open_zone.Dp8.Address.{up_to}
use open_zone.Dp8.Summaries.{
  Seen, summarize_location, next_id, see, ids_loop, summarize_host_data, is_safe, ends_tag,
  safe_tag_hint,
}

module _ {ℓ} {A : Type ℓ} where
  length-take-le : (n : ℕ) (s : List A) → length (take n s) ≤ n
  length-take-le zero s = omega arith
  length-take-le (suc n) [] = omega arith
  length-take-le (suc n) (c ∷ s) = omega (arith, length-take-le n s)

  All-take : (P : A → Type 0) (n : ℕ) (s : List A) → All P s → All P (take n s)
  All-take P zero s h = tt
  All-take P (suc n) [] h = tt
  All-take P (suc n) (c ∷ s) h = (h.0, All-take P n s h.1)

length-up_to-le : (p : ℕ → Bool) (s : Text) → length (up_to s (cut_when p s)) ≤ length s
length-up_to-le p s = elim (Option-cases (cut_when p s)) [
  | inl whole ↦ rw whole (omega arith)
  | inr (q, ended) ↦ rw ended (omega (arith, length-cut_when p s q ended))
]

up_to-All : (p : ℕ → Bool) (s : Text) → All (λ c. p c ≡ false) (up_to s (cut_when p s))
up_to-All p s = elim (Option-cases (cut_when p s)) [
  | inl whole ↦ rw whole (cut_when-eq-none p s whole)
  | inr (q, ended) ↦ rw ended (cut_when-CutAt p s q ended).3
]

-- The hint that is logged of a message that is dropped or does not parse has at most 63 bytes, all of
-- them ASCII letters, digits, `_` or `-`.
safe_tag_hint-safe :
    (payload : Text)
    → (length (safe_tag_hint payload) ≤ 63) × All (λ c. is_safe c ≡ true) (safe_tag_hint payload)
unfolding safe_tag_hint
safe_tag_hint-safe [] = (omega arith, tt)
safe_tag_hint-safe (c ∷ payload) =
    let window = take 63 payload in
    let raw = up_to window (cut_when ends_tag window) in
    elim (Bool-cases (eqb c b'<')) [
      | inr other ↦ rw other (omega arith, tt)
      | inl opened ↦ elim (Bool-cases (every is_safe raw)) [
        | inr unsafe ↦ rw (opened, unsafe) (omega arith, tt)
        | inl safe ↦
            rw (opened, safe)
              (
                omega (arith, length-up_to-le ends_tag window, length-take-le 63 payload),
                All-every is_safe raw safe,
              )
      ]
    ]

-- An id as it is logged.
abbrev pub IsId : Text → Type 0
IsId id = (is_empty id ≡ false) × All (λ c. eqb c b'"' ≡ false) id

abbrev AreIds : Seen → Type 0
AreIds = All (λ (e : Text × Unit {0}). IsId e.0)

put-AreIds : (m : Seen) (id : Text) → IsId id → AreIds m → AreIds (put m id tt)
unfolding put
put-AreIds [] id h a = (h, tt)
put-AreIds ((j, u) ∷ m) id h a = elim (Bool-cases (same_text j id)) [
  | inl same ↦ rw same (h, a.1)
  | inr other ↦ rw other (a.0, put-AreIds m id h a.1)
]

next_id-unquoted :
    (s : Text) (q : Text × Text) → next_id s ≡ some q → All (λ c. eqb c b'"' ≡ false) q.0
unfolding next_id
next_id-unquoted s q h =
    let (a, found, h') = >>=-eq-some (cut (codes "ItemId=\"") s) _ h in
    (cut_when-CutAt _ a.1 q h').3

see-AreIds :
    (id : Text) (seen : Seen)
    → All (λ c. eqb c b'"' ≡ false) id
    → AreIds seen
    → AreIds (see id seen)
see-AreIds [] seen h a = a
see-AreIds (c ∷ id) seen h a = put-AreIds seen (c ∷ id) (refl, h) a

ids_loop-AreIds : (f : ℕ) (s : Text) (seen : Seen) → AreIds seen → AreIds (ids_loop f s seen)
unfolding ids_loop
ids_loop-AreIds zero s seen a = a
ids_loop-AreIds (suc f) s seen a = elim (Option-cases (next_id s)) [
  | inl stop ↦ rw (stop, ids_loop) a
  | inr (q, more) ↦
      rw (more, ids_loop)
        (ids_loop-AreIds f q.1 (see q.0 seen) (see-AreIds q.0 seen (next_id-unquoted s q more) a))
]

insert-All :
    (P : Text → Type 0) (k : Text) (ks : List Text) → P k → All P ks → All P (insert_text k ks)
unfolding insert_text
insert-All P k [] h a = (h, tt)
insert-All P k (x ∷ xs) h a = elim (Bool-cases (text_le k x)) [
  | inl before ↦ rw before (h, a)
  | inr behind ↦ rw behind (a.0, insert-All P k xs h a.1)
]

sort-All : (P : Text → Type 0) (ks : List Text) → All P ks → All P (sort_texts ks)
unfolding sort_texts
sort-All P [] a = tt
sort-All P (k ∷ ks) a = insert-All P k (sort_texts ks) a.0 (sort-All P ks a.1)

keys-All : (m : Seen) → AreIds m → All IsId (map (λ (e : Text × Unit {0}). e.0) m)
keys-All [] a = tt
keys-All (e ∷ m) a = (a.0, keys-All m a.1)

summarize_location-bounds :
    (loc : Text)
    → (length (summarize_location loc).0 ≤ 32)
      × All (λ c. eqb c b'=' ≡ false) (summarize_location loc).0
      × ((summarize_location loc).1 ≡ length loc)
unfolding summarize_location
summarize_location-bounds [] = (omega arith, tt, refl)
summarize_location-bounds (c ∷ loc) =
    let kind = trim_space (up_to (c ∷ loc) (cut_byte b'=' (c ∷ loc))) in
    (
      length-take-le 32 kind,
      All-take _ 32 kind (All-trim_space _ _ (up_to-All (λ x. eqb x b'=') (c ∷ loc))),
      refl,
    )

summarize_host_data-bounds :
    (raw : Text)
    → (length (summarize_host_data raw).item_ids ≤ 8) × All IsId (summarize_host_data raw).item_ids
unfolding summarize_host_data
summarize_host_data-bounds raw =
    let seen = ids_loop (length raw) raw [] in
    let ids = sort_texts (map (λ (e : Text × Unit {0}). e.0) seen) in
    (
      length-take-le 8 ids,
      All-take IsId 8 ids
          (sort-All IsId _ (keys-All seen (ids_loop-AreIds (length raw) raw [] tt))),
    )

-- The log names at most eight item ids of a HostData message, each of them not empty and without
-- quotes, and of a location at most 32 bytes, nothing from the `=` on, and its length.
summaries-bounds :
    (raw loc : Text)
    → ((length (summarize_host_data raw).item_ids ≤ 8)
        × All IsId (summarize_host_data raw).item_ids)
      × ((length (summarize_location loc).0 ≤ 32)
          × All (λ c. eqb c b'=' ≡ false) (summarize_location loc).0
          × ((summarize_location loc).1 ≡ length loc))
summaries-bounds raw loc = (summarize_host_data-bounds raw, summarize_location-bounds loc)
