-- ===== src/Startup/Chains.antt =====
-- The calls of a chain of parts (cmd/open-zone/main.go).
use open_zone.Base.{
  ◌≡◌, refl, ◌∙◌, Bool, true, false, ◌||◌, ◌⊎◌, inl, inr, List, [], ◌∷◌, ◌++◌, arith, Bool-cases,
}
use open_zone.Startup.{
  Cleanup, Call, Ending, returns, exits, crashes, goes_on, Main, continue, ◌>>=◌,
}

abbrev pub any : (Call → Bool) → List Call → Bool
any p [] = false
any p (c ∷ cs) = p c || any p cs

pub any-append : (p : Call → Bool) (xs ys : List Call) → any p (xs ++ ys) ≡ any p xs || any p ys
any-append p [] ys = refl
any-append p (x ∷ xs) ys = ground (arith, any-append p xs ys)

module _ {A B : Type 0} (p : Call → Bool) where
  continue-calls :
      (cs : List Call) (ds : List Cleanup) (e : Ending A) (f : A → Main B)
      → any p (continue cs ds e f).calls ≡ true
      → (any p cs ≡ true) ⊎ ((a : A) × (e ≡ returns a) × (any p (f a).calls ≡ true))
  continue-calls cs ds (returns a) f h = elim (Bool-cases (any p cs)) [
    | inl e ↦ inl e
    | inr e ↦ inr (a, refl, ground (arith, any-append p cs (f a).calls))
  ]
  continue-calls cs ds (exits n) f h = inl h
  continue-calls cs ds crashes f h = inl h
  continue-calls cs ds goes_on f h = inl h

  -- A call of a chain is a call of its first part, or of the rest after that has returned.
  pub bind-calls :
      (m : Main A) (f : A → Main B)
      → any p (m >>= f).calls ≡ true
      → (any p m.calls ≡ true) ⊎ ((a : A) × (m.ending ≡ returns a) × (any p (f a).calls ≡ true))
  bind-calls m f h = continue-calls m.calls m.deferred m.ending f h

  -- A chain of parts without such a call has none.
  continue-none :
      (cs : List Call) (ds : List Cleanup) (e : Ending A) (f : A → Main B)
      → any p cs ≡ false
      → ((a : A) → any p (f a).calls ≡ false)
      → any p (continue cs ds e f).calls ≡ false
  continue-none cs ds (returns a) f h k = any-append p cs (f a).calls ∙ rw h (k a)
  continue-none cs ds (exits n) f h k = h
  continue-none cs ds crashes f h k = h
  continue-none cs ds goes_on f h k = h

  pub bind-none :
      (m : Main A) (f : A → Main B)
      → any p m.calls ≡ false
      → ((a : A) → any p (f a).calls ≡ false)
      → any p (m >>= f).calls ≡ false
  bind-none m f h k = continue-none m.calls m.deferred m.ending f h k

  -- The rest of a chain makes the call if the first part does not.
  pub bind-skip :
      (m : Main A) (f : A → Main B)
      → any p m.calls ≡ false
      → any p (m >>= f).calls ≡ true
      → (a : A) × (m.ending ≡ returns a) × (any p (f a).calls ≡ true)
  bind-skip m f none_here h = elim (bind-calls m f h) [ inl here ↦ absurd (cc) | inr rest ↦ rest ]
