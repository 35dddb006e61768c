-- ===== src/Tests/Shutdown.antt =====
-- The end of the program after a signal (cmd/open-zone/main.go, internal/dp8/engine.go).
use open_zone.Base.{◌+◌, ◌≤◌, refl, Bool, true, some, [], ◌∷◌, Text, arith, length}
use open_zone.Shim.{Popped, new_shim, pop_event, popped_event, clamped}
use open_zone.Dp8.Engine.{Event}
use open_zone.Dp8.Engine.Polls.{polls, turn}
use open_zone.Startup.Shutdown.{
  Process, timing, grace, forced, selecting, polling, passes, signalled, arms, fires, goes_on,
  takes, Step, Steps, done, step, running,
}
use open_zone.Startup.Shutdown.Late.{Steps-late}
use open_zone.Startup.Shutdown.Deadline.{IsInGrace, IsForced, Steps-IsInGrace, Steps-IsForced}

any_export : Text → Bool
any_export name = true

-- A connect event without bytes.
abbrev connected : Popped
connected = record {
  code = 1;
  event = record { msg_id = 0xffff0007; dpnid = 7; data_len = 0; flags = 0; ts_unix_ms = 5 };
  buffer = [];
}

abbrev connect_event : Event
connect_event = record {
  msg_id = 0xffff0007;
  dpnid = 7;
  payload = [];
  flags = 0;
  ts_unix_ms = 5;
  wall = 100;
  now = 100;
  clock = (101, 102);
}

abbrev at_poll : Process
at_poll = record (running 100) { loop = polling }

abbrev at_signal : Process
at_signal = record at_poll { done_at = some 100 }

-- The event that the loop was about to take is handled after the signal.
abbrev served : Process
served = record at_signal { loop = selecting; seen = connect_event ∷ [] }

serves : Step any_export (some new_shim) at_signal served
unfolding turn pop_event popped_event clamped any_export
serves = takes at_signal (polls connected 100 100 (101, 102)) refl refl

Steps-late_example : length (connect_event ∷ []) ≤ 0 + 1
Steps-late_example =
    Steps-late any_export (some new_shim) at_signal served 100 (step _ _ _ serves (done served))
      refl

-- The round takes longer than the watch waits.
abbrev timed : Process
timed = record at_signal { watch = timing (100 + grace) }

abbrev too_late : Process
too_late = record timed { now = 100 + grace }

abbrev left_there : Process
left_there = record too_late { ended = some forced }

leaves : Steps any_export (some new_shim) (running 100) left_there
leaves = step _ _ _ (goes_on (running 100) refl refl refl) (
    step _ _ _ (signalled at_poll refl refl) (
      step _ _ _ (arms at_signal 100 refl refl refl) (
        step _ _ _ (passes (100 + grace) timed refl (omega arith))
          (step _ _ _ (fires too_late (100 + grace) refl refl (omega arith)) (done left_there)))))

Steps-IsInGrace_example : IsInGrace (some 100) (100 + grace) (some forced)
Steps-IsInGrace_example = Steps-IsInGrace any_export (some new_shim) 100 left_there leaves

-- The signal comes while the loop is in a round, which hangs.
hangs : Steps any_export (some new_shim) (running 100) at_signal
hangs =
    step _ _ _ (goes_on (running 100) refl refl refl)
      (step _ _ _ (signalled at_poll refl refl) (done at_signal))

Steps-IsForced_example :
    (q : Process) × Steps any_export (some new_shim) at_signal q × IsForced at_signal q
Steps-IsForced_example = Steps-IsForced any_export (some new_shim) 100 100 at_signal hangs refl refl
