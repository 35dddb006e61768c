-- ===== src/Startup/Shutdown/Late.antt =====
-- After a signal the loop handles at most the event that it was about to take (internal/dp8/engine.go).
use open_zone.Base.{
  ℕ, ◌+◌, ◌≤◌, ◌≡◌, refl, Bool, Option, some, [], ◌∷◌, Text, arith, length, length-append,
}
use open_zone.Shim.{Shim}
use open_zone.Dp8.Engine.Polls.{Turn, ends, sleeps, handles, turn}
use open_zone.Startup.Shutdown.{
  Process, Place, polling, turned, Step, passes, signalled, arms, fires, goes_on, stops, takes,
  returns, Steps, done, step,
}

-- How many events the loop can still handle once the context is done.
abbrev pub coming : Place → ℕ
coming polling = 1
coming _ = 0

module _ (exports : Text → Bool) (s : Option Shim) where
  turned-seen :
      (p : Process) (t : Turn)
      → (length (turned t p).seen + coming (turned t p).loop ≤ length p.seen + 1)
        × ((turned t p).done_at ≡ p.done_at)
  turned-seen p (ends e) = (omega arith, refl)
  turned-seen p sleeps = (omega arith, refl)
  turned-seen p (handles evt) = (omega (arith, length-append p.seen (evt ∷ [])), refl)

  Step-late :
      (p q : Process) (t : ℕ)
      → Step exports s p q
      → p.done_at ≡ some t
      → (length q.seen + coming q.loop ≤ length p.seen + coming p.loop) × (q.done_at ≡ some t)
  Step-late u v t (passes later p on after) h = (omega arith, h)
  Step-late u v t (signalled p on never) h = absurd (cc)
  Step-late u v t (arms p m on waiting at) h = (omega arith, h)
  Step-late u v t (fires p d on armed due) h = (omega arith, h)
  Step-late u v t (goes_on p on here never) h = absurd (cc)
  Step-late u v t (stops p m on here at) h = (ground arith, h)
  Step-late u v t (takes p r on here) h =
      let (few, same) = turned-seen p (turn exports s r) in (ground (arith, few, here), cc)
  Step-late u v t (returns p e on gone) h = (omega arith, h)

  -- Once the context is done, whatever happens and however long it takes, the loop handles at most one
  -- more event, and none if it stood at its select.
  pub Steps-late :
      (p q : Process) (t : ℕ)
      → Steps exports s p q
      → p.done_at ≡ some t
      → length q.seen ≤ length p.seen + coming p.loop
  Steps-late p q t (done r) h = omega arith
  Steps-late p q t (step x y z st rest) h =
      let (fewer, same) = Step-late x y t st h in omega (arith, fewer, Steps-late y z t rest same)
