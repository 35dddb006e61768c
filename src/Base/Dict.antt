-- ===== src/Base/Dict.antt =====
-- Go maps as association lists with one entry for each key. The order of the entries stands for the
-- order in which a `range` loop meets them, which Go leaves open.
use open_zone.Base.Tests.{if◌then◌else◌, Bool-cases}
use open_zone.Base.Keys.{Comparable, ◌==◌, equals_refl}
use mathlib.Core.Path.{◌≡◌, refl}
use mathlib.Core.Logic.{inl, inr}
use mathlib.Core.Bool.{false}
use mathlib.Core.Option.{Option, none, some}
use mathlib.Core.List.{List, [], ◌∷◌}
use native.Mathlib.Omega.{arith}

abbrev pub Dict {ℓ κ} : Type ℓ → Type κ → Type (ℓ ⊔ κ)
Dict K V = List (K × V)

module _ {ℓ κ} {K : Type ℓ} {V : Type κ} ⦃e : Comparable K⦄ where
  -- v, ok := m[k]
  unfoldable pub get : Dict K V → K → Option V
  get [] k = none
  get ((j, v) ∷ m) k = if j == k then some v else get m k

  -- m[k] = v
  unfoldable pub put : Dict K V → K → V → Dict K V
  put [] k v = (k, v) ∷ []
  put ((j, w) ∷ m) k v = if j == k then (k, v) ∷ m else (j, w) ∷ put m k v

  -- delete(m, k)
  unfoldable pub del : Dict K V → K → Dict K V
  del [] k = []
  del ((j, w) ∷ m) k = let rest = del m k in if j == k then rest else (j, w) ∷ rest

  pub get-put :
      (m : Dict K V) (k j : K) (v : V) → get (put m k v) j ≡ (if k == j then some v else get m j)
  unfolding get put
  get-put [] k j v = refl
  get-put ((i, w) ∷ m) k j v =
      ground (arith, e.equals_iff i k, e.equals_iff i j, e.equals_iff k j, get-put m k j v)

  pub get-del : (m : Dict K V) (k j : K) → get (del m k) j ≡ (if k == j then none else get m j)
  unfolding get del
  get-del [] k j = ground arith
  get-del ((i, w) ∷ m) k j =
      ground (arith, e.equals_iff i k, e.equals_iff i j, e.equals_iff k j, get-del m k j)

  pub get-put_self : (m : Dict K V) (k : K) (v : V) → get (put m k v) k ≡ some v
  get-put_self m k v = simp (get-put, equals_refl)

  pub get-put_ne : (m : Dict K V) (k j : K) (v : V) → (k == j) ≡ false → get (put m k v) j ≡ get m j
  get-put_ne m k j v h = simp (get-put, h)

  -- No key stands twice.
  abbrev pub UniqueKeys : Dict K V → Type (ℓ ⊔ κ)
  UniqueKeys [] = Unit
  UniqueKeys ((k, v) ∷ m) = (get m k ≡ none) × UniqueKeys m

  pub UniqueKeys-put : (m : Dict K V) (k : K) (v : V) → UniqueKeys m → UniqueKeys (put m k v)
  unfolding put get
  UniqueKeys-put [] k v u = (refl, tt)
  UniqueKeys-put ((j, w) ∷ m) k v u = elim (Bool-cases (j == k)) [
    | inl same ↦ rw same (ground (arith, e.equals_iff j k), u.1)
    | inr other ↦ rw other (
      ground (arith, get-put m k j v, e.equals_iff j k, e.equals_iff k j),
      UniqueKeys-put m k v u.1,
    )
  ]

  pub UniqueKeys-del : (m : Dict K V) (k : K) → UniqueKeys m → UniqueKeys (del m k)
  unfolding del
  UniqueKeys-del [] k u = tt
  UniqueKeys-del ((j, w) ∷ m) k u = elim (Bool-cases (j == k)) [
    | inl same ↦ rw same (UniqueKeys-del m k u.1)
    | inr other ↦ rw other (ground (arith, get-del m k j), UniqueKeys-del m k u.1)
  ]
