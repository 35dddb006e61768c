-- ===== src/Base/Attrs/Fuel.antt =====
-- The attribute loop ends by its own tests: the fuel that it is given never runs out.
use Prim.Native.Nat.{ℕ, zero, suc, ◌≤◌, ◌<◌}
use mathlib.Core.Path.{◌≡◌, refl, ap, sym, ◌∙◌}
use mathlib.Core.Logic.{inl, inr}
use mathlib.Core.Option.{none, some}
use mathlib.Core.List.{[], ◌∷◌}
use native.Mathlib.Omega.{arith}
use open_zone.Base.Tests.{Option-cases}
use open_zone.Base.Lists.{length}
use open_zone.Base.Options.{>>=-eq-some, some_inj}
use open_zone.Base.Keys.{Text, text_eq}
use open_zone.Base.Dict.{Dict}
use open_zone.Base.Strings.{length-trim_space-le, cut, length-cut, length-cut_when, cut_byte}
use open_zone.Base.Attrs.{next_attr, attr_loop, put_named}

-- Every round leaves a shorter rest.
pub length-next_attr-lt :
    (s : Text) (q : Text × Text × Text) → next_attr s ≡ some q → length q.2 < length s
unfolding next_attr
length-next_attr-lt s q h =
    let (a, found, h') = >>=-eq-some (cut (b'=' ∷ b'"' ∷ []) s) _ h in
    let (b, closed, h'') = >>=-eq-some (cut_byte b'"' a.1) _ h' in
    omega (
      arith,
      ap (λ (r : Text × Text × Text). length r.2) (some_inj h''),
      length-cut (b'=' ∷ b'"' ∷ []) s a found,
      length-cut_when _ a.1 b closed,
      length-trim_space-le b.1,
    )

pub attr_loop-stop :
    (f c : ℕ) (s : Text) (m : Dict Text Text)
    → next_attr (c ∷ s) ≡ none
    → attr_loop (suc f) (c ∷ s) m ≡ m
unfolding attr_loop
attr_loop-stop f c s m h = rw (h, attr_loop)

pub attr_loop-next :
    (f c : ℕ) (s : Text) (m : Dict Text Text) (q : Text × Text × Text)
    → next_attr (c ∷ s) ≡ some q
    → attr_loop (suc f) (c ∷ s) m ≡ attr_loop f q.2 (put_named q.0 q.1 m)
unfolding attr_loop
attr_loop-next f c s m q h = rw (h, attr_loop)

-- Any two amounts of fuel that are at least the length of the text give the same attributes.
attr_loop_fuel :
    (f g : ℕ) (s : Text) (m : Dict Text Text)
    → length s ≤ f
    → length s ≤ g
    → attr_loop f s m ≡ attr_loop g s m
attr_loop_fuel zero zero [] m hf hg = refl
attr_loop_fuel zero (suc g) [] m hf hg = unfold attr_loop in refl
attr_loop_fuel (suc f) zero [] m hf hg = unfold attr_loop in refl
attr_loop_fuel (suc f) (suc g) [] m hf hg = unfold attr_loop in refl
attr_loop_fuel zero g (c ∷ s) m hf hg = absurd (omega arith)
attr_loop_fuel (suc f) zero (c ∷ s) m hf hg = absurd (omega arith)
attr_loop_fuel (suc f) (suc g) (c ∷ s) m hf hg = elim (Option-cases (next_attr (c ∷ s))) [
  | inl stop ↦ attr_loop-stop f c s m stop ∙ sym (attr_loop-stop g c s m stop)
  | inr (q, more) ↦
      attr_loop-next f c s m q more
      ∙ attr_loop_fuel f g q.2 (put_named q.0 q.1 m)
          (omega (arith, length-next_attr-lt (c ∷ s) q more))
          (omega (arith, length-next_attr-lt (c ∷ s) q more))
      ∙ sym (attr_loop-next g c s m q more)
]
