-- ===== src/Shim/Answers.antt =====
-- What PopEvent makes of the native code's answer (internal/dp8shim/dp8shim_windows.go).
use open_zone.Base.{
  ℕ, ◌≤◌, ◌<◌, ◌^◌, ◌≡◌, refl, ap, sym, ◌∙◌, Bool, false, some, Text, arith, length, ltb→lt, take,
  min, Bool-cases, ltb, suc, zero, List, [], ◌∷◌, inl, inr,
}
use open_zone.Shim.{Shim, RawEvent, Popped, ok, low32, clamped, pop_event, popped_event}

length-take {ℓ} : {A : Type ℓ} (n : ℕ) (xs : List A) → n ≤ length xs → length (take n xs) ≡ n
length-take zero xs h = refl
length-take (suc n) [] h = absurd (omega arith)
length-take (suc n) (x ∷ xs) h = omega (arith, length-take n xs)

ltb-false : (a b : ℕ) → ltb a b ≡ false → b ≤ a
ltb-false a b h = ground arith

pub clamped-min :
    (r : Popped) → length r.buffer < 2 ^ 32 → clamped r ≡ min r.event.data_len (length r.buffer)
unfolding clamped
clamped-min r small =
    let room : low32 (length r.buffer) ≡ length r.buffer = omega arith in
    elim (Bool-cases (ltb (length r.buffer) r.event.data_len)) [
      | inl long ↦ rw room (rw long (omega (arith, ltb→lt _ _ long)))
      | inr short ↦ rw room (rw short (omega (arith, ltb-false _ _ short)))
    ]

popped_parts :
    (r : Popped) (e : RawEvent) (bytes : Text)
    → popped_event r ≡ ok (some (e, bytes))
    → (e ≡ record (r.event) { data_len = clamped r }) × (bytes ≡ take (clamped r) r.buffer)
unfolding popped_event
popped_parts r e bytes got = ground arith

-- An event that PopEvent returns is the one that the native code wrote, with its length cut to the
-- buffer's, and the bytes that come with it are that many first bytes of the buffer.
pub pop_event-exact :
    (exports : Text → Bool) (s : Shim) (r : Popped) (e : RawEvent) (bytes : Text)
    → length r.buffer < 2 ^ 32
    → pop_event exports (some s) r ≡ ok (some (e, bytes))
    → (e ≡ record (r.event) { data_len = min r.event.data_len (length r.buffer) })
      × (bytes ≡ take e.data_len r.buffer)
      × (length bytes ≡ e.data_len)
unfolding pop_event
pop_event-exact exports s r e bytes small got =
    let popped : popped_event r ≡ ok (some (e, bytes)) = ground arith in
    let (is_e, is_bytes) = popped_parts r e bytes popped in
    let len = clamped-min r small in
    let at : e.data_len ≡ clamped r = ap (λ (t : RawEvent). t.data_len) is_e in
    (
      rw is_e (ap (λ (n : ℕ). record (r.event) { data_len = n }) len),
      rw at is_bytes,
      rw is_bytes (length-take (clamped r) r.buffer (omega (arith, len)) ∙ sym at),
    )
