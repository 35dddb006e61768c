-- ===== src/Proto/Engine/Echo/Sorted.antt =====
-- The attributes of the fallback answer of internal/proto/protocol.go in the order of their printed pairs.
use open_zone.Base.{
  ◌≡◌, refl, sym, ap, ◌∙◌, Option, none, some, inl, inr, List, [], ◌∷◌, ◌++◌, Text, text_eq, ◌==◌,
  if◌then◌else◌, arith, map, Bool-cases, append_assoc,
}
use open_zone.Base.Dict.{Dict, get, put, UniqueKeys, get-put, get-put_ne}
use open_zone.Proto.Markup.{spaced}
use open_zone.Proto.Xmlish.Head.{AreAttrs, put_all}
use open_zone.Proto.Engine.Dispatch.{text_le, insert_text, sort_texts, pair_text, join_parts}

abbrev pub Attribute : Type 0
Attribute = Text × Text

-- The attributes in the order of their printed pairs.
abbrev insert_pair : Attribute → List Attribute → List Attribute
insert_pair p [] = p ∷ []
insert_pair p (x ∷ xs) =
    let rest = insert_pair p xs in
    if text_le (pair_text p) (pair_text x) then p ∷ x ∷ xs else x ∷ rest

abbrev pub sort_pairs : List Attribute → List Attribute
sort_pairs [] = []
sort_pairs (p ∷ ps) = insert_pair p (sort_pairs ps)

map-insert :
    (p : Attribute) (xs : List Attribute)
    → insert_text (pair_text p) (map pair_text xs) ≡ map pair_text (insert_pair p xs)
unfolding insert_text
map-insert p [] = refl
map-insert p (x ∷ xs) = elim (Bool-cases (text_le (pair_text p) (pair_text x))) [
  | inl before ↦ rw before refl
  | inr behind ↦ rw behind (ap (◌∷◌ (pair_text x)) (map-insert p xs))
]

pub map-sort : (ps : List Attribute) → sort_texts (map pair_text ps) ≡ map pair_text (sort_pairs ps)
unfolding sort_texts
map-sort [] = refl
map-sort (p ∷ ps) = ap (insert_text (pair_text p)) (map-sort ps) ∙ map-insert p (sort_pairs ps)

pub join_parts-spaced : (ps : List Attribute) → join_parts (map pair_text ps) ≡ spaced ps
unfolding join_parts
join_parts-spaced [] = refl
join_parts-spaced ((k, v) ∷ ps) =
    ap (λ (t : Text). 32 ∷ t)
      (append_assoc k (61 ∷ 34 ∷ (v ++ (34 ∷ []))) (join_parts (map pair_text ps))
        ∙ ap (λ (t : Text). k ++ (61 ∷ 34 ∷ t))
            (append_assoc v (34 ∷ []) (join_parts (map pair_text ps))
              ∙ ap (λ (t : Text). v ++ (34 ∷ t)) (join_parts-spaced ps)))

insert_pair-AreAttrs :
    (p : Attribute) (xs : List Attribute) → AreAttrs (p ∷ xs) → AreAttrs (insert_pair p xs)
insert_pair-AreAttrs p [] a = a
insert_pair-AreAttrs p (x ∷ xs) a = elim (Bool-cases (text_le (pair_text p) (pair_text x))) [
  | inl before ↦ rw before a
  | inr behind ↦ rw behind (a.1.0, insert_pair-AreAttrs p xs (a.0, a.1.1))
]

pub sort_pairs-AreAttrs : (ps : List Attribute) → AreAttrs ps → AreAttrs (sort_pairs ps)
sort_pairs-AreAttrs [] a = tt
sort_pairs-AreAttrs (p ∷ ps) a =
    insert_pair-AreAttrs p (sort_pairs ps) (a.0, sort_pairs-AreAttrs ps a.1)

get-insert :
    (p : Attribute) (xs : List Attribute) (k : Text)
    → get xs p.0 ≡ none
    → get (insert_pair p xs) k ≡ get (p ∷ xs) k
unfolding get
get-insert p [] k new = refl
get-insert (j, w) ((i, v) ∷ xs) k new =
    elim (Bool-cases (text_le (pair_text (j, w)) (pair_text (i, v)))) [
      | inl before ↦ rw before refl
      | inr behind ↦ rw behind (
          ground (
            arith,
            text_eq.equals_iff i j,
            text_eq.equals_iff i k,
            text_eq.equals_iff j k,
            get-insert (j, w) xs k,
          ))
    ]

insert_pair-UniqueKeys :
    (p : Attribute) (xs : List Attribute)
    → get xs p.0 ≡ none
    → UniqueKeys xs
    → UniqueKeys (insert_pair p xs)
unfolding get
insert_pair-UniqueKeys p [] new u = (refl, tt)
insert_pair-UniqueKeys (j, w) ((i, v) ∷ xs) new u =
    elim (Bool-cases (text_le (pair_text (j, w)) (pair_text (i, v)))) [
      | inl before ↦ rw before (new, u)
      | inr behind ↦
          let missing : get xs j ≡ none = ground arith in
          rw behind (
            get-insert (j, w) xs i missing
                ∙ ground (arith, text_eq.equals_iff i j, text_eq.equals_iff j i, u.0),
            insert_pair-UniqueKeys (j, w) xs missing u.1,
          )
    ]

-- Sorting keeps what stands under each name.
pub sorted :
    (ps : List Attribute)
    → UniqueKeys ps
    → UniqueKeys (sort_pairs ps) × ((k : Text) → get (sort_pairs ps) k ≡ get ps k)
unfolding get
sorted [] u = (tt, λ k. refl)
sorted ((j, w) ∷ ps) u =
    let (unique, same) = sorted ps u.1 in
    let missing : get (sort_pairs ps) j ≡ none = same j ∙ u.0 in
    (
      insert_pair-UniqueKeys (j, w) (sort_pairs ps) missing unique,
      λ k.
          get-insert (j, w) (sort_pairs ps) k missing
          ∙ ap (λ (o : Option Text). if j == k then some w else o) (same k),
    )

abbrev pub first_of : Option Text → Option Text → Option Text
first_of (some v) other = some v
first_of none other = other

pub get-put_all :
    (ps : List Attribute) (m : Dict Text Text) (k : Text)
    → UniqueKeys ps
    → get (put_all ps m) k ≡ first_of (get ps k) (get m k)
unfolding get
get-put_all [] m k u = refl
get-put_all ((j, w) ∷ ps) m k u = elim (Bool-cases (j == k)) [
  | inl here ↦
      let gone : get ps k ≡ none = rw (sym ((text_eq.equals_iff j k).0 here)) u.0 in
      get-put_all ps (put m j w) k u.1 ∙ rw (gone, get-put m j k w, here) refl
  | inr other ↦
      get-put_all ps (put m j w) k u.1
      ∙ ap (first_of (get ps k)) (get-put_ne m j k w other)
      ∙ rw other refl
]
