-- ===== src/Dp8/Engine/Polls.antt =====
-- The loop of `Run` (internal/dp8/engine.go) over the native bridge.
use open_zone.Base.{
  ℕ, ◌≤◌, ◌<◌, ◌*◌, ◌^◌, ◌≡◌, ◌≢◌, refl, ap, some_inj, Bool, Option, none, some, inr, List, [], ◌∷◌,
  ◌++◌, Text, arith, length, All,
}
use open_zone.State.Time.{Time}
use open_zone.Proto.Engine.Handlers.{Readings}
use open_zone.Shim.{Shim, RawEvent, Popped, Outcome, ok, err, panics, load, pop_event}
use open_zone.Shim.Safe.{load-calls}
use open_zone.Shim.Answers.{pop_event-exact}
use open_zone.Dp8.Engine.{Event}

-- The size of `buf`.
abbrev pub buf_size : ℕ
buf_size = 64 * 1024

-- One round: the context is done, or the bridge answers, at a time that the clock shows.
pub data Round : Type 0 where
  done : Round
  polls : Popped → Time → Time → Readings → Round

-- How Run ends.
pub data RunEnd : Type 0 where
  canceled : RunEnd
  failed : Text → RunEnd
  panicked : RunEnd

abbrev pub event_of : RawEvent → Text → Time → Time → Readings → Event
event_of evt payload wall now clock = record {
  msg_id = evt.msg_id;
  dpnid = evt.dpnid;
  payload = payload;
  flags = evt.flags;
  ts_unix_ms = evt.ts_unix_ms;
  wall = wall;
  now = now;
  clock = clock;
}

-- What the loop does in a round: it ends, sleeps, or handles an event. `handleEvent` returns no error.
pub data Turn : Type 0 where
  ends : RunEnd → Turn
  sleeps : Turn
  handles : Event → Turn

abbrev turn_of : Time → Time → Readings → Outcome (Option (RawEvent × Text)) → Turn
turn_of wall now clock panics = ends panicked
turn_of wall now clock (err t) = ends (failed t)
turn_of wall now clock (ok none) = sleeps
turn_of wall now clock (ok (some (evt, payload))) = handles (event_of evt payload wall now clock)

-- A turn, and what the rounds behind it do if the loop goes on.
abbrev after : Turn → List Event × Option RunEnd → List Event × Option RunEnd
after (ends e) rest = ([], some e)
after sleeps rest = rest
after (handles evt) rest = (evt ∷ rest.0, rest.1)

abbrev pub or_canceled : Option RunEnd → RunEnd
or_canceled none = canceled
or_canceled (some e) = e

after-done :
    (t : Turn) (p q : List Event × Option RunEnd)
    → q ≡ (p.0, some (or_canceled p.1))
    → after t q ≡ ((after t p).0, some (or_canceled (after t p).1))
after-done (ends e) p q h = refl
after-done sleeps p q h = h
after-done (handles evt) p q h = ap (λ (r : List Event × Option RunEnd). (evt ∷ r.0, r.1)) h

module _ (exports : Text → Bool) (s : Option Shim) where
  unfoldable pub turn : Round → Turn
  turn done = ends canceled
  turn (polls r wall now clock) = turn_of wall now clock (pop_event exports s r)

  -- The events that the loop handles, in order, and how it ends, if it does.
  unfoldable pub run : List Round → List Event × Option RunEnd
  unfolding turn
  run [] = ([], none)
  run (r ∷ rs) = after (turn r) (run rs)

  -- Once the context is done, no later event is handled.
  pub run-done :
      (rs later : List Round)
      → run (rs ++ done ∷ later) ≡ ((run rs).0, some (or_canceled (run rs).1))
  unfolding run
  run-done [] later = refl
  run-done (r ∷ rs) later = after-done (turn r) (run rs) _ (run-done rs later)

-- The native code keeps the buffer's size.
abbrev pub Fits : Round → Type 0
Fits done = Unit
Fits (polls r wall now clock) = length r.buffer ≡ buf_size

abbrev pub IsSmall : Event → Type 0
IsSmall evt = length evt.payload ≤ buf_size

abbrev GoesWell : Turn → Type 0
GoesWell (ends e) = e ≢ panicked
GoesWell sleeps = Unit
GoesWell (handles evt) = IsSmall evt

abbrev AllWell : List Event × Option RunEnd → Type 0
AllWell q = All IsSmall q.0 × (q.1 ≢ some panicked)

after-GoesWell :
    (t : Turn) (q : List Event × Option RunEnd) → GoesWell t → AllWell q → AllWell (after t q)
after-GoesWell (ends e) q h k = (tt, λ bad. h (some_inj bad))
after-GoesWell sleeps q h k = k
after-GoesWell (handles evt) q h k = ((h, k.0), k.1)

turn_of-GoesWell :
    (wall now : Time) (clock : Readings) (o : Outcome (Option (RawEvent × Text)))
    → (o ≢ panics)
    → ((e : RawEvent) (bytes : Text) → o ≡ ok (some (e, bytes)) → length bytes ≤ buf_size)
    → GoesWell (turn_of wall now clock o)
turn_of-GoesWell wall now clock panics h k = absurd (h refl)
turn_of-GoesWell wall now clock (err t) h k = λ bad. cc
turn_of-GoesWell wall now clock (ok none) h k = tt
turn_of-GoesWell wall now clock (ok (some (evt, payload))) h k = k evt payload refl

module _ (exports : Text → Bool) (path : Text) (answer : Option Text) (s : Shim)
    (loaded : load exports path answer ≡ inr s) where
  turn-GoesWell : (r : Round) → Fits r → GoesWell (turn exports (some s) r)
  unfolding turn
  turn-GoesWell done h = λ bad. cc
  turn-GoesWell (polls r wall now clock) h =
      let small : length r.buffer < 2 ^ 32 = omega arith in
      turn_of-GoesWell wall now clock (pop_event exports (some s) r)
        (load-calls exports path answer s r loaded small 0 0 0 0 []).2
        (λ e bytes got.
          let (is_e, _, len) = pop_event-exact exports s r e bytes small got in
          omega (arith, len, ap (λ (t : RawEvent). t.data_len) is_e, h))

  run-AllWell : (rs : List Round) → All Fits rs → AllWell (run exports (some s) rs)
  unfolding run
  run-AllWell [] h = (tt, λ bad. cc)
  run-AllWell (r ∷ rs) h =
      after-GoesWell (turn exports (some s) r) _ (turn-GoesWell r h.0) (run-AllWell rs h.1)

-- With a bridge that `Load` returned and a buffer of 64 KiB, the loop never panics, whatever the native code
-- answers, and each event that it handles carries at most 64 KiB; and when the context is done, it has
-- handled the events that came before and handles none that comes later.
pub run-loaded :
    (exports : Text → Bool) (path : Text) (answer : Option Text) (s : Shim) (rs later : List Round)
    → load exports path answer ≡ inr s
    → All Fits rs
    → All IsSmall (run exports (some s) rs).0
      × ((run exports (some s) rs).1 ≢ some panicked)
      × (run exports (some s) (rs ++ done ∷ later)
          ≡ ((run exports (some s) rs).0, some (or_canceled (run exports (some s) rs).1)))
run-loaded exports path answer s rs later loaded fits =
    let (small, alive) = run-AllWell exports path answer s loaded rs fits in
    (small, alive, run-done exports (some s) rs later)
