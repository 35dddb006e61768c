-- ===== src/Startup/Shutdown.antt =====
-- The end of the program after a signal: the loop of `Run` of internal/dp8/engine.go, and the shutdown
-- watch of cmd/open-zone/main.go beside it.
-- The clock counts nanoseconds. It can go on at any point for as long as it likes: a round of the loop can
-- hang, the watch can be late to arm its timer, and the timer fires when its time has come or after it.
pub mod Late
pub mod Deadline
use open_zone.Base.{ℕ, ◌+◌, ◌*◌, ◌≤◌, ◌≡◌, Bool, Option, none, some, List, [], ◌∷◌, ◌++◌, Text}
use open_zone.Shim.{Shim}
use open_zone.Dp8.Engine.{Event}
use open_zone.Dp8.Engine.Polls.{Round, RunEnd, canceled, Turn, ends, sleeps, handles, turn}

-- The time that the watch gives the others.
abbrev pub grace : ℕ
grace = 60 * 1_000_000_000

-- The watch waits for the context, and then for its timer.
pub data Watch : Type 0 where
  waits : Watch
  timing : ℕ → Watch

-- Where the loop stands: at its select, behind it with the context not done, or left.
pub data Place : Type 0 where
  selecting : Place
  polling : Place
  left : RunEnd → Place

-- `main` has ended, or the watch has left the program with os.Exit(2).
pub data Ended : Type 0 where
  by_main : RunEnd → Ended
  forced : Ended

-- `done_at` is when the context was done; `seen` are the events that the loop has handled.
pub record Process : Type 0 where
  pub now : ℕ
  pub done_at : Option ℕ
  pub watch : Watch
  pub loop : Place
  pub seen : List Event
  pub ended : Option Ended

-- `main` when it calls `Run`: the watch is there, and no signal has come.
abbrev pub running : ℕ → Process
running now = record {
  now = now;
  done_at = none;
  watch = waits;
  loop = selecting;
  seen = [];
  ended = none;
}

-- What a turn of the loop does.
abbrev pub turned : Turn → Process → Process
turned (ends e) p = record p { loop = left e }
turned sleeps p = record p { loop = selecting }
turned (handles evt) p = record p { loop = selecting; seen = p.seen ++ evt ∷ [] }

pub data Step (exports : Text → Bool) (s : Option Shim) : Process → Process → Type 0 where
  passes :
      (later : ℕ) (p : Process)
      → p.ended ≡ none
      → p.now ≤ later
      → Step exports s p (record p { now = later })
  signalled :
      (p : Process)
      → p.ended ≡ none
      → p.done_at ≡ none
      → Step exports s p (record p { done_at = some p.now })
  arms :
      (p : Process) (t : ℕ)
      → p.ended ≡ none
      → p.watch ≡ waits
      → p.done_at ≡ some t
      → Step exports s p (record p { watch = timing (p.now + grace) })
  fires :
      (p : Process) (d : ℕ)
      → p.ended ≡ none
      → p.watch ≡ timing d
      → d ≤ p.now
      → Step exports s p (record p { ended = some forced })
  goes_on :
      (p : Process)
      → p.ended ≡ none
      → p.loop ≡ selecting
      → p.done_at ≡ none
      → Step exports s p (record p { loop = polling })
  stops :
      (p : Process) (t : ℕ)
      → p.ended ≡ none
      → p.loop ≡ selecting
      → p.done_at ≡ some t
      → Step exports s p (record p { loop = left canceled })
  takes :
      (p : Process) (r : Round)
      → p.ended ≡ none
      → p.loop ≡ polling
      → Step exports s p (turned (turn exports s r) p)
  returns :
      (p : Process) (e : RunEnd)
      → p.ended ≡ none
      → p.loop ≡ left e
      → Step exports s p (record p { ended = some (by_main e) })

pub data Steps (exports : Text → Bool) (s : Option Shim) : Process → Process → Type 0 where
  done : (p : Process) → Steps exports s p p
  step : (p q r : Process) → Step exports s p q → Steps exports s q r → Steps exports s p r
