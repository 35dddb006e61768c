-- ===== src/Startup/Shutdown/Deadline.antt =====
-- The shutdown watch of cmd/open-zone/main.go: it ends the program, and it gives the others their time.
use open_zone.Base.{ℕ, ◌+◌, ◌*◌, ◌≤◌, ◌≡◌, refl, subst, Bool, Option, none, some, Text, arith}
use open_zone.Shim.{Shim}
use open_zone.Dp8.Engine.Polls.{Turn, ends, sleeps, handles, turn}
use open_zone.Startup.Shutdown.{
  Process, Watch, waits, timing, grace, Ended, by_main, forced, turned, Step, passes, signalled,
  arms, fires, goes_on, stops, takes, returns, Steps, done, step, running,
}

-- What a limit means: 60 seconds.
abbrev pub limit : ℕ
limit = 60 * 1_000_000_000

-- The timer runs only after the signal, and stands for at least the limit behind it, but no later than the
-- limit from now.
abbrev IsWatched : Watch → Option ℕ → ℕ → Type 0
IsWatched waits none now = Unit
IsWatched waits (some t) now = t ≤ now
IsWatched (timing d) none now = ⊥
IsWatched (timing d) (some t) now = (t + limit ≤ d) × (d ≤ now + limit) × (t ≤ now)

-- What can have become of the program by the time that the clock shows.
abbrev pub IsInGrace : Option ℕ → ℕ → Option Ended → Type 0
IsInGrace none now (some forced) = ⊥
IsInGrace (some t) now (some forced) = t + 60 * 1_000_000_000 ≤ now
IsInGrace o now e = Unit

abbrev IsSound : Process → Type 0
IsSound p = IsWatched p.watch p.done_at p.now × IsInGrace p.done_at p.now p.ended

running-IsInGrace : (o : Option ℕ) (now : ℕ) (e : Option Ended) → e ≡ none → IsInGrace o now e
running-IsInGrace none now none h = tt
running-IsInGrace (some t) now none h = tt
running-IsInGrace o now (some e) h = absurd (cc)

main-IsInGrace : (o : Option ℕ) (now : ℕ) (r : _) → IsInGrace o now (some (by_main r))
main-IsInGrace none now r = tt
main-IsInGrace (some t) now r = tt

passes-IsWatched :
    (w : Watch) (o : Option ℕ) (now later : ℕ)
    → now ≤ later
    → IsWatched w o now
    → IsWatched w o later
passes-IsWatched waits none now later after i = tt
passes-IsWatched waits (some t) now later after i = omega (arith, i)
passes-IsWatched (timing d) none now later after i = i
passes-IsWatched (timing d) (some t) now later after (far, near, past) =
    (far, omega arith, omega arith)

signalled-IsWatched :
    (w : Watch) (o : Option ℕ) (now : ℕ) → o ≡ none → IsWatched w o now → IsWatched w (some now) now
signalled-IsWatched waits o now h i = omega arith
signalled-IsWatched (timing d) none now h i = absurd i
signalled-IsWatched (timing d) (some t) now h i = absurd (cc)

arms-IsWatched :
    (w : Watch) (o : Option ℕ) (now t : ℕ)
    → w ≡ waits
    → o ≡ some t
    → IsWatched w o now
    → IsWatched (timing (now + grace)) o now
arms-IsWatched waits none now t h k i = absurd (cc)
arms-IsWatched waits (some u) now t h k i = (omega (arith, i), omega arith, i)
arms-IsWatched (timing d) o now t h k i = absurd (cc)

fires-IsInGrace :
    (o : Option ℕ) (now d : ℕ)
    → d ≤ now
    → IsWatched (timing d) o now
    → IsInGrace o now (some forced)
fires-IsInGrace none now d due i = i
fires-IsInGrace (some t) now d due (far, near, past) = omega arith

module _ (exports : Text → Bool) (s : Option Shim) where
  turned-IsSound : (p : Process) (t : Turn) → IsSound p → IsSound (turned t p)
  turned-IsSound p (ends e) i = i
  turned-IsSound p sleeps i = i
  turned-IsSound p (handles evt) i = i

  Step-IsSound : (u v : Process) → Step exports s u v → IsSound u → IsSound v
  Step-IsSound u v (passes later p on after) i = (
    passes-IsWatched p.watch p.done_at p.now later after i.0,
    running-IsInGrace p.done_at later p.ended on,
  )
  Step-IsSound u v (signalled p on never) i = (
    signalled-IsWatched p.watch p.done_at p.now never i.0,
    running-IsInGrace (some p.now) p.now p.ended on,
  )
  Step-IsSound u v (arms p t on waiting at) i =
      (arms-IsWatched p.watch p.done_at p.now t waiting at i.0, i.1)
  Step-IsSound u v (fires p d on armed due) i = (
    i.0,
    fires-IsInGrace p.done_at p.now d due
        (subst (λ (w : Watch). IsWatched w p.done_at p.now) armed i.0),
  )
  Step-IsSound u v (goes_on p on here never) i = i
  Step-IsSound u v (stops p t on here at) i = i
  Step-IsSound u v (takes p r on here) i = turned-IsSound p (turn exports s r) i
  Step-IsSound u v (returns p e on gone) i = (i.0, main-IsInGrace p.done_at p.now e)

  Steps-IsSound : (u v : Process) → Steps exports s u v → IsSound u → IsSound v
  Steps-IsSound u v (done p) i = i
  Steps-IsSound u v (step x y z st rest) i = Steps-IsSound y z rest (Step-IsSound x y st i)

-- The watch leaves the others their time: from the start of the loop, whatever happens and however late, it
-- has ended the program only if a signal came, and then 60 seconds have passed since.
pub Steps-IsInGrace :
    (exports : Text → Bool) (s : Option Shim) (start : ℕ) (p : Process)
    → Steps exports s (running start) p
    → IsInGrace p.done_at p.now p.ended
Steps-IsInGrace exports s start p run = (Steps-IsSound exports s (running start) p run (tt, tt)).1

-- The program, ended by the watch at some time, with the loop where it was.
abbrev pub IsForced : Process → Process → Type 0
IsForced p q =
    (q.ended ≡ some forced)
    × (q.loop ≡ p.loop)
    × (q.seen ≡ p.seen)
    × (q.now ≤ p.now + 60 * 1_000_000_000)

module _ (exports : Text → Bool) (s : Option Shim) where
  -- A timer that runs.
  armed-IsForced :
      (p : Process) (d : ℕ)
      → p.ended ≡ none
      → p.watch ≡ timing d
      → d ≤ p.now + limit
      → (q : Process) × Steps exports s p q × IsForced p q
  armed-IsForced p d on armed near =
      let later = record p { now = p.now + limit } in
      (
        record later { ended = some forced },
        step p later _ (passes (p.now + limit) p on (omega arith))
            (step later _ _ (fires later d on armed near) (done _)),
        (refl, refl, refl, omega arith),
      )

  watched-IsForced :
      (w : Watch) (t : ℕ) (p : Process)
      → p.watch ≡ w
      → p.done_at ≡ some t
      → p.ended ≡ none
      → IsWatched w (some t) p.now
      → (q : Process) × Steps exports s p q × IsForced p q
  watched-IsForced waits t p waiting signal on i =
      let armed = record p { watch = timing (p.now + grace) } in
      let (q, run, ends_so) = armed-IsForced armed (p.now + grace) on refl (omega arith) in
      (q, step p armed q (arms p t on waiting signal) run, ends_so)
  watched-IsForced (timing d) t p armed signal on (far, near, past) =
      armed-IsForced p d on armed near

-- A round that hangs does not keep the program: from every state that it reaches after a signal and in which it
-- has not ended, the watch alone can end it, without a step of the loop, and within 60 seconds from then.
pub Steps-IsForced :
    (exports : Text → Bool) (s : Option Shim) (start t : ℕ) (p : Process)
    → Steps exports s (running start) p
    → p.done_at ≡ some t
    → p.ended ≡ none
    → (q : Process) × Steps exports s p q × IsForced p q
Steps-IsForced exports s start t p run signal on =
    let sound = (Steps-IsSound exports s (running start) p run (tt, tt)).0 in
    watched-IsForced exports s p.watch t p refl signal on
      (subst (λ (o : Option ℕ). IsWatched p.watch o p.now) signal sound)
