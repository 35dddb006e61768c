-- ===== src/State/Items/Fuel.antt =====
-- The scan of a payload ends by its own tests: the fuel that it is given never runs out.
use open_zone.Base.{
  ℕ, zero, suc, ◌≤◌, ◌<◌, ◌≡◌, refl, ap, sym, ◌∙◌, none, some, List, [], ◌∷◌, ◌++◌, Text, text_eq,
  arith, length, length-append, Option-cases, inl, inr, >>=-eq-some, some_inj,
}
use open_zone.Base.Dict.{Dict}
use open_zone.Base.Strings.{cut, cut_byte, length-cut, length-cut_when}
use open_zone.State.Items.{next_tag, add_tag, scan_loop, scan_self_closing_elements}

-- Every round leaves a shorter payload.
pub length-next_tag-lt :
    (name s : Text) (q : Text × Text) → next_tag name s ≡ some q → length q.1 < length s
unfolding next_tag
length-next_tag-lt name s q h =
    let (a, found, h') = >>=-eq-some (cut (b'<' ∷ name) s) _ h in
    let (b, closed, h'') = >>=-eq-some (cut_byte b'>' ((b'<' ∷ name) ++ a.1)) _ h' in
    omega (
      arith,
      ap (λ (r : Text × Text). length r.1) (some_inj h''),
      length-cut (b'<' ∷ name) s a found,
      length-cut_when _ ((b'<' ∷ name) ++ a.1) b closed,
      length-append name a.1,
    )

pub scan_loop-stop :
    (f : ℕ) (name s : Text) (out : List (Dict Text Text))
    → next_tag name s ≡ none
    → scan_loop f name s out ≡ out
unfolding scan_loop
scan_loop-stop zero name s out h = refl
scan_loop-stop (suc f) name s out h = rw (h, scan_loop)

pub scan_loop-next :
    (f : ℕ) (name s : Text) (out : List (Dict Text Text)) (q : Text × Text)
    → next_tag name s ≡ some q
    → scan_loop (suc f) name s out ≡ scan_loop f name q.1 (add_tag name q.0 out)
unfolding scan_loop
scan_loop-next f name s out q h = rw (h, scan_loop)

-- Any two amounts of fuel that are at least the length of the payload give the same elements.
scan_loop_fuel :
    (f g : ℕ) (name s : Text) (out : List (Dict Text Text))
    → length s ≤ f
    → length s ≤ g
    → scan_loop f name s out ≡ scan_loop g name s out
scan_loop_fuel zero g name s out hf hg = elim (Option-cases (next_tag name s)) [
  | inl stop ↦ scan_loop-stop zero name s out stop ∙ sym (scan_loop-stop g name s out stop)
  | inr (q, more) ↦ absurd (omega (arith, length-next_tag-lt name s q more))
]
scan_loop_fuel (suc f) zero name s out hf hg = elim (Option-cases (next_tag name s)) [
  | inl stop ↦ scan_loop-stop (suc f) name s out stop ∙ sym (scan_loop-stop zero name s out stop)
  | inr (q, more) ↦ absurd (omega (arith, length-next_tag-lt name s q more))
]
scan_loop_fuel (suc f) (suc g) name s out hf hg = elim (Option-cases (next_tag name s)) [
  | inl stop ↦ scan_loop-stop (suc f) name s out stop ∙ sym (scan_loop-stop (suc g) name s out stop)
  | inr (q, more) ↦
      let shorter = length-next_tag-lt name s q more in
      scan_loop-next f name s out q more
      ∙ scan_loop_fuel f g name q.1 (add_tag name q.0 out) (omega (arith, shorter))
          (omega (arith, shorter))
      ∙ sym (scan_loop-next g name s out q more)
]

-- The loop of the source, without fuel: a payload and what is found so far, the number of rounds, and
-- what is returned.
pub data Loop (name : Text)
    : ℕ → Text → List (Dict Text Text) → List (Dict Text Text) → Type 0 where
  breaks : (s : Text) (out : List (Dict Text Text)) → next_tag name s ≡ none → Loop name 0 s out out
  continues :
      (n : ℕ) (s tag more : Text) (out found : List (Dict Text Text))
      → next_tag name s ≡ some (tag, more)
      → Loop name n more (add_tag name tag out) found
      → Loop name (suc n) s out found

scan_loop-Loop :
    (f : ℕ) (name s : Text) (out : List (Dict Text Text))
    → length s ≤ f
    → (n : ℕ) × Loop name n s out (scan_loop f name s out) × (n ≤ length s)
scan_loop-Loop zero name s out h = elim (Option-cases (next_tag name s)) [
  | inl stop ↦ rw (scan_loop-stop zero name s out stop) (0, breaks s out stop, omega arith)
  | inr (q, more) ↦ absurd (omega (arith, length-next_tag-lt name s q more))
]
scan_loop-Loop (suc f) name s out h = elim (Option-cases (next_tag name s)) [
  | inl stop ↦ rw (scan_loop-stop (suc f) name s out stop) (0, breaks s out stop, omega arith)
  | inr (q, more) ↦
      let shorter = length-next_tag-lt name s q more in
      let (n, rest, bound) =
        scan_loop-Loop f name q.1 (add_tag name q.0 out) (omega (arith, shorter)) in
      rw (scan_loop-next f name s out q more)
        (suc n, continues n s q.0 q.1 out _ more rest, omega (arith, shorter, bound))
]

-- The scan ends: for every payload the loop of the source, which has no fuel, breaks after at most as
-- many rounds as the payload has bytes, and returns what the scan with its fuel gives.
pub scan_self_closing_elements-Loop :
    (payload name : Text)
    → (n : ℕ) × Loop name n payload [] (scan_self_closing_elements payload name)
      × (n ≤ length payload)
unfolding scan_self_closing_elements
scan_self_closing_elements-Loop payload name =
    scan_loop-Loop (length payload) name payload [] (omega arith)
