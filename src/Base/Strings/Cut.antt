-- ===== src/Base/Strings/Cut.antt =====
-- `HasPrefix`, and searching with `Index`, `IndexByte` and `IndexAny`.
use Prim.Native.Nat.{ℕ, suc, ◌+◌}
use mathlib.Core.Path.{◌≡◌, refl, ap, ◌∙◌, subst}
use mathlib.Core.Logic.{inl, inr}
use mathlib.Core.Bool.{Bool, true, false, ◌&&◌, ◌||◌}
use mathlib.Core.Option.{Option, none, some}
use mathlib.Core.List.{[], ◌∷◌, ◌++◌}
use native.Mathlib.Omega.{arith}
use open_zone.Base.Tests.{eqb, eqb_iff, if◌then◌else◌, Bool-cases}
use open_zone.Base.Options.{some_inj}
use open_zone.Base.Lists.{length, drop, drop-append, length-append, All, All-append_inv}
use open_zone.Base.Keys.{Text}

-- strings.HasPrefix(s, prefix)
unfoldable pub has_prefix : Text → Text → Bool
has_prefix [] s = true
has_prefix (x ∷ n) [] = false
has_prefix (x ∷ n) (y ∷ s) = eqb x y && has_prefix n s

abbrev prepend : ℕ → Option (Text × Text) → Option (Text × Text)
prepend c none = none
prepend c (some (a, b)) = some (c ∷ a, b)

-- i := strings.Index(s, needle), with s[:i] and s[i+len(needle):]; `none` is i < 0
unfoldable pub cut : Text → Text → Option (Text × Text)
unfolding has_prefix
cut n [] = if has_prefix n [] then some ([], []) else none
cut n (c ∷ s) =
    let rest = prepend c (cut n s) in
    if has_prefix n (c ∷ s) then some ([], drop (length n) (c ∷ s)) else rest

-- The first byte that passes a test: i := strings.IndexAny(s, set), with s[:i] and s[i+1:].
unfoldable pub cut_when : (ℕ → Bool) → Text → Option (Text × Text)
cut_when p [] = none
cut_when p (c ∷ s) = let rest = prepend c (cut_when p s) in if p c then some ([], s) else rest

-- strings.IndexByte(s, c), likewise
abbrev pub cut_byte : ℕ → Text → Option (Text × Text)
cut_byte c = cut_when (λ x. eqb x c)

-- strings.Contains(s, needle)
abbrev found : Option (Text × Text) → Bool
found none = false
found (some p) = true

unfoldable pub contains : Text → Text → Bool
unfolding cut
contains s n = found (cut n s)

pub has_prefix-append : (n s : Text) → has_prefix n (n ++ s) ≡ true
unfolding has_prefix
has_prefix-append [] s = refl
has_prefix-append (x ∷ n) s = ground (arith, eqb_iff x x, has_prefix-append n s)

pub cut-first :
    (x : ℕ) (n k s : Text)
    → All (λ y. eqb x y ≡ false) k
    → cut (x ∷ n) (k ++ (x ∷ (n ++ s))) ≡ some (k, s)
unfolding cut
cut-first x n [] s h = rw (drop-append n s) (ground (arith, eqb_iff x x, has_prefix-append n s))
cut-first x n (y ∷ k) s h = rw h.0 (rw (cut-first x n k s h.1))

pub cut_when-first :
    (p : ℕ → Bool) (k : Text) (c : ℕ) (s : Text)
    → All (λ y. p y ≡ false) k
    → p c ≡ true
    → cut_when p (k ++ (c ∷ s)) ≡ some (k, s)
unfolding cut_when
cut_when-first p [] c s h t = rw t
cut_when-first p (y ∷ k) c s h t = rw h.0 (rw (cut_when-first p k c s h.1 t))

pub cut_when-none : (p : ℕ → Bool) (k : Text) → All (λ y. p y ≡ false) k → cut_when p k ≡ none
unfolding cut_when
cut_when-none p [] h = refl
cut_when-none p (y ∷ k) h = rw h.0 (rw (cut_when-none p k h.1))

-- `q` are the slices before and behind the first byte of `s` that passes `p`.
abbrev pub CutAt : (ℕ → Bool) → Text → Text × Text → Type 0
CutAt p s q = (c : ℕ) × (s ≡ q.0 ++ c ∷ q.1) × (p c ≡ true) × All (λ y. p y ≡ false) q.0

pub cut_when-CutAt :
    (p : ℕ → Bool) (s : Text) (q : Text × Text) → cut_when p s ≡ some q → CutAt p s q
unfolding cut_when
cut_when-CutAt p [] q h = absurd (cc)
cut_when-CutAt p (c ∷ s) q h = elim (Bool-cases (p c)) [
  | inl hit ↦ subst (CutAt p (c ∷ s)) (some_inj (rw hit at h)) (c, refl, hit, tt)
  | inr miss ↦ later miss (cut_when p s) (rw miss at h) (cut_when-CutAt p s)
]
  where
    later :
        p c ≡ false
        → (o : Option (Text × Text)) → prepend c o ≡ some q
        → ((r : Text × Text) → o ≡ some r → CutAt p s r)
        → CutAt p (c ∷ s) q
    later miss none e rec = absurd (cc)
    later miss (some r) e rec =
        let (x, split, passes, before) = rec r refl in
        subst (CutAt p (c ∷ s)) (some_inj e)
          (x, ap (λ (t : Text). c ∷ t) split, passes, (miss, before))

has_prefix-split : (n s : Text) → has_prefix n s ≡ true → s ≡ n ++ drop (length n) s
unfolding has_prefix
has_prefix-split [] s h = refl
has_prefix-split (x ∷ n) [] h = absurd (cc)
has_prefix-split (x ∷ n) (y ∷ s) h = ground (arith, has_prefix-split n s)

-- The text is what stands before the needle, the needle, and what stands behind it.
pub cut-split : (n s : Text) (q : Text × Text) → cut n s ≡ some q → s ≡ q.0 ++ (n ++ q.1)
unfolding cut
cut-split [] [] q h = subst (λ (r : Text × Text). [] ≡ r.0 ++ r.1) (some_inj h) refl
cut-split (x ∷ n) [] q h = absurd (cc)
cut-split n (c ∷ s) q h = elim (Bool-cases (has_prefix n (c ∷ s))) [
  | inl hit ↦
      subst (λ (r : Text × Text). c ∷ s ≡ r.0 ++ (n ++ r.1)) (some_inj (rw hit at h))
        (has_prefix-split n (c ∷ s) hit)
  | inr miss ↦ later (cut n s) (rw miss at h) (cut-split n s)
]
  where
    later :
        (o : Option (Text × Text))
        → prepend c o ≡ some q
        → ((r : Text × Text) → o ≡ some r → s ≡ r.0 ++ (n ++ r.1))
        → c ∷ s ≡ q.0 ++ (n ++ q.1)
    later none e rec = absurd (cc)
    later (some r) e rec =
        subst (λ (t : Text × Text). c ∷ s ≡ t.0 ++ (n ++ t.1)) (some_inj e)
          (ap (λ (t : Text). c ∷ t) (rec r refl))

pub length-cut :
    (n s : Text) (q : Text × Text)
    → cut n s ≡ some q
    → length s ≡ length q.0 + (length n + length q.1)
length-cut n s q h =
    ap length (cut-split n s q h)
    ∙ length-append q.0 (n ++ q.1)
    ∙ ap (λ (k : ℕ). length q.0 + k) (length-append n q.1)

pub length-cut_when :
    (p : ℕ → Bool) (s : Text) (q : Text × Text)
    → cut_when p s ≡ some q
    → length s ≡ length q.0 + suc (length q.1)
length-cut_when p s q h =
    let (c, split, _, _) = cut_when-CutAt p s q h in ap length split ∙ length-append q.0 (c ∷ q.1)

-- Both slices of a successful search hold only bytes of the text.
pub All-cut :
    (P : ℕ → Type 0) (n s : Text) (q : Text × Text)
    → cut n s ≡ some q
    → All P s
    → All P q.0 × All P q.1
All-cut P n s q e h =
    let (before, later) = All-append_inv P q.0 (n ++ q.1) (subst (All P) (cut-split n s q e) h) in
    (before, (All-append_inv P n q.1 later).1)

pub All-cut_when :
    (P : ℕ → Type 0) (p : ℕ → Bool) (s : Text) (q : Text × Text)
    → cut_when p s ≡ some q
    → All P s
    → All P q.0 × All P q.1
All-cut_when P p s q e h =
    let (c, split, _, _) = cut_when-CutAt p s q e in
    let (before, later) = All-append_inv P q.0 (c ∷ q.1) (subst (All P) split h) in
    (before, later.1)

-- No byte passes the test of a search that fails.
pub cut_when-eq-none : (p : ℕ → Bool) (s : Text) → cut_when p s ≡ none → All (λ y. p y ≡ false) s
unfolding cut_when
cut_when-eq-none p [] h = tt
cut_when-eq-none p (c ∷ s) h = elim (Bool-cases (p c)) [
  | inl hit ↦ absurd (cc (rw hit at h))
  | inr miss ↦ (miss, cut_when-eq-none p s (later (cut_when p s) (rw miss at h)))
]
  where
    later : (o : Option (Text × Text)) → prepend c o ≡ none → o ≡ none
    later none e = refl
    later (some r) e = absurd (cc)

found-prepend : (c : ℕ) (o : Option (Text × Text)) → found (prepend c o) ≡ found o
found-prepend c none = refl
found-prepend c (some q) = refl

pub contains-append : (a : Text) (c : ℕ) (b : Text) → contains (a ++ (c ∷ b)) (c ∷ []) ≡ true
unfolding contains cut has_prefix
contains-append [] c b = ground (arith, eqb_iff c c)
contains-append (x ∷ a) c b = elim (Bool-cases (eqb c x)) [
  | inl here ↦ ground arith
  | inr there ↦ rw there (found-prepend x (cut (c ∷ []) (a ++ (c ∷ b))) ∙ contains-append a c b)
]

pub contains-cons :
    (n c : ℕ) (s : Text) → contains (c ∷ s) (n ∷ []) ≡ eqb n c || contains s (n ∷ [])
unfolding contains cut has_prefix
contains-cons n c s = elim (Bool-cases (eqb n c)) [
  | inl here ↦ ground arith
  | inr there ↦ rw there (found-prepend c (cut (n ∷ []) s))
]
