-- ===== src/Dp8/Summaries/Fuel.antt =====
-- The loops of the summaries end by their own tests: the fuel that they are given never runs out.
use open_zone.Base.{
  ℕ, zero, suc, ◌≤◌, ◌<◌, ◌≡◌, refl, ap, some, ◌∷◌, Text, codes, text_eq, arith, length,
  Option-cases, inl, inr, >>=-eq-some,
}
use open_zone.Base.Strings.{cut, length-cut, length-cut_when}
use open_zone.Dp8.Summaries.{count_loop, next_id, Seen, see, ids_loop}

-- Any two amounts of fuel that are at least the length of the text give the same count.
count_loop_fuel :
    (f g c : ℕ) (needle s : Text)
    → length s ≤ f
    → length s ≤ g
    → count_loop f (c ∷ needle) s ≡ count_loop g (c ∷ needle) s
unfolding count_loop
count_loop_fuel zero zero c needle s hf hg = refl
count_loop_fuel zero (suc g) c needle s hf hg = elim (Option-cases (cut (c ∷ needle) s)) [
  | inl stop ↦ rw (stop, count_loop) refl
  | inr (q, found) ↦ absurd (omega (arith, length-cut (c ∷ needle) s q found))
]
count_loop_fuel (suc f) zero c needle s hf hg = elim (Option-cases (cut (c ∷ needle) s)) [
  | inl stop ↦ rw (stop, count_loop) refl
  | inr (q, found) ↦ absurd (omega (arith, length-cut (c ∷ needle) s q found))
]
count_loop_fuel (suc f) (suc g) c needle s hf hg = elim (Option-cases (cut (c ∷ needle) s)) [
  | inl stop ↦ rw (stop, count_loop) refl
  | inr (q, found) ↦
      let shorter = length-cut (c ∷ needle) s q found in
      rw (found, count_loop)
        (ap suc
          (count_loop_fuel f g c needle q.1 (omega (arith, shorter)) (omega (arith, shorter))))
]

length-next_id-lt : (s : Text) (q : Text × Text) → next_id s ≡ some q → length q.1 < length s
unfolding next_id
length-next_id-lt s q h =
    let (a, found, h') = >>=-eq-some (cut (codes "ItemId=\"") s) _ h in
    omega (arith, length-cut (codes "ItemId=\"") s a found, length-cut_when _ a.1 q h')

-- Likewise for the ids.
ids_loop_fuel :
    (f g : ℕ) (s : Text) (seen : Seen)
    → length s ≤ f
    → length s ≤ g
    → ids_loop f s seen ≡ ids_loop g s seen
unfolding ids_loop
ids_loop_fuel zero zero s seen hf hg = refl
ids_loop_fuel zero (suc g) s seen hf hg = elim (Option-cases (next_id s)) [
  | inl stop ↦ rw (stop, ids_loop) refl
  | inr (q, found) ↦ absurd (omega (arith, length-next_id-lt s q found))
]
ids_loop_fuel (suc f) zero s seen hf hg = elim (Option-cases (next_id s)) [
  | inl stop ↦ rw (stop, ids_loop) refl
  | inr (q, found) ↦ absurd (omega (arith, length-next_id-lt s q found))
]
ids_loop_fuel (suc f) (suc g) s seen hf hg = elim (Option-cases (next_id s)) [
  | inl stop ↦ rw (stop, ids_loop) refl
  | inr (q, found) ↦
      let shorter = length-next_id-lt s q found in
      rw (found, ids_loop)
        (ids_loop_fuel f g q.1 (see q.0 seen) (omega (arith, shorter)) (omega (arith, shorter)))
]
