-- ===== src/Shim/Safe.antt =====
-- After `Load` no call of the bridge panics (internal/dp8shim/dp8shim_windows.go).
use open_zone.Base.{
  ℕ, ◌<◌, ◌^◌, ◌≡◌, ◌≢◌, refl, Bool, true, Option, none, some, [], ◌∷◌, ◌⊎◌, inl, inr, Text, codes,
  arith, List, length, Bool-cases,
}
use open_zone.Shim.{
  Shim, LazyProc, Popped, panics, new_shim, clamped, missing_exports, required, load, start_server,
  stop_server, pop_event, popped_event, send_to, queue_depth,
}

List-cases : {A : Type 0} (xs : List A) → (xs ≡ []) ⊎ ((x : A) × (rest : List A) × (xs ≡ x ∷ rest))
List-cases [] = inl refl
List-cases (x ∷ xs) = inr (x, xs, refl)

missing_exports-nil :
    (exports : Text → Bool) (name p : Text) (rest : List (Text × Option LazyProc))
    → missing_exports exports ((name, some p) ∷ rest) ≡ []
    → (exports p ≡ true) × (missing_exports exports rest ≡ [])
unfolding missing_exports
missing_exports-nil exports name p rest h = elim (Bool-cases (exports p)) [
  | inl found ↦ (found, rw found at h)
  | inr absent ↦ absurd (cc (rw absent at h))
]

load_missing :
    (exports : Text → Bool) (path : Text) (answer : Option Text) (s : Shim)
    → load exports path answer ≡ inr s
    → (s ≡ new_shim) × (missing_exports exports (required new_shim) ≡ [])
unfolding load
load_missing exports path (some e) s h = absurd (cc)
load_missing exports path none s h =
    elim (List-cases (missing_exports exports (required new_shim))) [
      | inr (name, names, e) ↦ absurd (cc (rw (e, load) at h))
      | inl e ↦ (cc (rw (e, load) at h), e)
    ]

-- A library that `load` accepts has the four exports, and the result is `new_shim`.
pub load-exports :
    (exports : Text → Bool) (path : Text) (answer : Option Text) (s : Shim)
    → load exports path answer ≡ inr s
    → (s ≡ new_shim)
      × (exports (codes "DP8_StartServer") ≡ true)
      × (exports (codes "DP8_StopServer") ≡ true)
      × (exports (codes "DP8_PopEvent") ≡ true)
      × (exports (codes "DP8_SendTo") ≡ true)
load-exports exports path answer s h =
    let (same, e) = load_missing exports path answer s h in
    let (found1, e1) = missing_exports-nil exports _ _ _ e in
    let (found2, e2) = missing_exports-nil exports _ _ _ e1 in
    let (found3, e3) = missing_exports-nil exports _ _ _ e2 in
    let (found4, _) = missing_exports-nil exports _ _ _ e3 in (same, found1, found2, found3, found4)

pub popped_event-returns : (r : Popped) → length r.buffer < 2 ^ 32 → popped_event r ≢ panics
unfolding popped_event clamped
popped_event-returns r h e = ground arith

-- Once `Load` has returned a bridge, none of its procedures panics, whatever the native code answers: not
-- for want of an export, and not on the event's length, when the buffer is shorter than 4 GiB.
pub load-calls :
    (exports : Text → Bool) (path : Text) (answer : Option Text) (s : Shim) (popped : Popped)
    → load exports path answer ≡ inr s
    → length popped.buffer < 2 ^ 32
    → (port dpnid flags r : ℕ) (payload : Text)
    → (start_server exports (some s) port r ≢ panics)
      × (stop_server exports (some s) r ≢ panics)
      × (pop_event exports (some s) popped ≢ panics)
      × (send_to exports (some s) dpnid payload flags r ≢ panics)
      × (queue_depth exports (some s) r ≢ panics)
unfolding start_server stop_server pop_event send_to queue_depth
load-calls exports path answer s popped loaded small port dpnid flags r payload =
    let (same, e1, e2, e3, e4) = load-exports exports path answer s loaded in
    let event = popped_event-returns popped small in
    rw same (
      λ h. ground arith,
      λ h. ground arith,
      λ h. ground arith,
      λ h. ground arith,
      λ h. ground arith,
    )
