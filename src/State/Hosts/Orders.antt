-- ===== src/State/Hosts/Orders.antt =====
-- Calls of different clients in any order (internal/state/host_store.go).
use mathlib.Core.List.{Perm, Permᴰ}
use mathlib.Core.Logic.{∥∥₁_elim}
use mathlib.Core.Quot
use mathlib.Core.Quot.{Quot, Quot-set}
use open_zone.Base.{◌≡◌, ◌≢◌, refl, sym, subst, ◌∙◌, some, List, [], ◌∷◌, nat_eq, All}
use open_zone.Base.Dict.{get}
use open_zone.State.Hosts.{HostStore, HostSession}
use open_zone.State.Hosts.Rids.{IsStore}
use open_zone.State.Hosts.Calls.{HostCall, sender, perform, run, run-IsStore, perform-isolated}
use open_zone.State.Hosts.Contents.{SameStore, run-SameStore}
use open_zone.State.Hosts.Unordered.{unordered, perform-SameStore_swap}

abbrev IsApart : HostCall → HostCall → Type 0
IsApart c d = sender c ≢ sender d

-- Calls of as many different clients.
abbrev pub AreApart : List HostCall → Type 0
AreApart [] = Unit
AreApart (c ∷ cs) = All (IsApart c) cs × AreApart cs

-- The caller has a session.
abbrev pub IsKnown : HostStore → HostCall → Type 0
IsKnown s c = (h : HostSession) × (get s.hosts (sender c) ≡ some h)

perform-IsKnown :
    (c : HostCall) (s : HostStore) (ds : List HostCall)
    → All (IsApart c) ds
    → All (IsKnown s) ds
    → All (IsKnown (perform c s)) ds
perform-IsKnown c s [] apart known = tt
perform-IsKnown c s (d ∷ ds) apart known = (
  (known.0.0, perform-isolated c s (sender d) apart.0 ∙ known.0.1),
  perform-IsKnown c s ds apart.1 known.1,
)

All-Permᴰ : (P : HostCall → Type 0) (xs ys : List HostCall) → Permᴰ xs ys → All P xs → All P ys
All-Permᴰ P xs ys Permᴰ.nil a = tt
All-Permᴰ P xs ys (Permᴰ.cons {a = x} {b = y} {l₁ = l₁} {l₂ = l₂} e p) a =
    (subst P e a.0, All-Permᴰ P l₁ l₂ p a.1)
All-Permᴰ P xs ys (Permᴰ.swap {a = x} {b = y} {a' = x'} {b' = y'} {l = l} e f) a =
    (subst P f a.1.0, (subst P e a.0, a.1.1))
All-Permᴰ P xs ys (Permᴰ.trans {l₁} {l₂} {l₃} p q) a = All-Permᴰ P l₂ l₃ q (All-Permᴰ P l₁ l₂ p a)

Permᴰ-AreApart : (xs ys : List HostCall) → Permᴰ xs ys → AreApart xs → AreApart ys
Permᴰ-AreApart xs ys Permᴰ.nil a = tt
Permᴰ-AreApart xs ys (Permᴰ.cons {a = x} {b = y} {l₁ = l₁} {l₂ = l₂} e p) a = (
  subst (λ c. All (IsApart c) l₂) e (All-Permᴰ (IsApart x) l₁ l₂ p a.0),
  Permᴰ-AreApart l₁ l₂ p a.1,
)
Permᴰ-AreApart xs ys (Permᴰ.swap {a = x} {b = y} {a' = x'} {b' = y'} {l = l} e f) a =
    subst (λ c. AreApart (c ∷ y' ∷ l)) f
      (subst (λ c. AreApart (y ∷ c ∷ l)) e (((λ g. a.0.0 (sym g)), a.1.0), (a.0.1, a.1.1)))
Permᴰ-AreApart xs ys (Permᴰ.trans {l₁} {l₂} {l₃} p q) a =
    Permᴰ-AreApart l₂ l₃ q (Permᴰ-AreApart l₁ l₂ p a)

run-swap :
    (c d : HostCall) (cs : List HostCall) (s : HostStore)
    → IsApart c d
    → IsKnown s c
    → IsKnown s d
    → SameStore (run cs (perform d (perform c s))) (run cs (perform c (perform d s)))
run-swap c d cs s apart (hc, known_c) (hd, known_d) =
    run-SameStore cs _ _ (perform-SameStore_swap d c s hd hc (λ e. apart (sym e)) known_d known_c)

run-Permᴰ :
    (xs ys : List HostCall) (s : HostStore)
    → Permᴰ xs ys
    → AreApart xs
    → All (IsKnown s) xs
    → SameStore (run xs s) (run ys s)
unfolding run
run-Permᴰ xs ys s Permᴰ.nil apart known = (λ k. refl, refl)
run-Permᴰ xs ys s (Permᴰ.cons {a = x} {b = y} {l₁ = l₁} {l₂ = l₂} e p) apart known =
    subst (λ c. SameStore (run l₁ (perform x s)) (run l₂ (perform c s))) e
      (run-Permᴰ l₁ l₂ (perform x s) p apart.1 (perform-IsKnown x s l₁ apart.0 known.1))
run-Permᴰ xs ys s (Permᴰ.swap {a = x} {b = y} {a' = x'} {b' = y'} {l = l} e f) apart known =
    subst (λ c. SameStore (run l (perform y (perform x s))) (run l (perform y' (perform c s)))) f
      (subst (λ c. SameStore (run l (perform y (perform x s))) (run l (perform c (perform y s)))) e
        (run-swap x y l s apart.0.0 known.0 known.1.0))
run-Permᴰ xs ys s (Permᴰ.trans {l₁} {l₂} {l₃} p q) apart known =
    let first = run-Permᴰ l₁ l₂ s p apart known in
    let second =
      run-Permᴰ l₂ l₃ s q (Permᴰ-AreApart l₁ l₂ p apart) (All-Permᴰ (IsKnown s) l₁ l₂ p known) in
    (λ k. first.0 k ∙ second.0 k, first.1 ∙ second.1)

-- Calls of as many different clients, each with a session, may come in any order: the store has the same
-- sessions under the same DPNIDs and the same counter of row ids afterwards.
pub run-Perm :
    (cs ds : List HostCall) (s : HostStore) (i : IsStore s)
    → Perm cs ds
    → AreApart cs
    → All (IsKnown s) cs
    → unordered (run cs s) (run-IsStore cs s i) ≡ unordered (run ds s) (run-IsStore ds s i)
run-Perm cs ds s i p apart known =
    ∥∥₁_elim p (Quot-set _ _) (λ d. Quot.sound (run-Permᴰ cs ds s d apart known))
