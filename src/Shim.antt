-- ===== src/Shim.antt =====
-- internal/dp8shim/dp8shim_windows.go: the calls of the native bridge.
-- The library behind them is not modelled: `exports` says which procedures it has, and what a call of
-- one returns is an argument, so that every answer is possible. A `uintptr` or a `uint32` is a number,
-- and a conversion to a smaller word keeps its lowest bits.
pub mod Safe
pub mod Answers
use open_zone.Base.{
  ℕ, ◌-◌, ◌%◌, ◌^◌, Bool, true, false, not, Option, none, some, List, [], ◌∷◌, ◌++◌, ◌⊎◌, inl, inr,
  Text, codes, eqb, ltb, leb, if◌then◌else◌, length, take,
}
use open_zone.Base.Attrs.{is_empty}
use open_zone.Base.Numbers.{decimal, hex8}

-- *syscall.LazyProc: the name that it looks up.
abbrev pub LazyProc : Type 0
LazyProc = Text

pub record Shim : Type 0 where
  pub start_server : Option LazyProc
  pub stop_server : Option LazyProc
  pub pop_event : Option LazyProc
  pub send_to : Option LazyProc
  pub queue_depth : Option LazyProc

pub record RawEvent : Type 0 where
  pub msg_id : ℕ
  pub dpnid : ℕ
  pub data_len : ℕ
  pub flags : ℕ
  pub ts_unix_ms : ℕ

-- How a call ends: it returns, returns an error, or panics.
pub data Outcome (A : Type 0) : Type 0 where
  ok : A → Outcome A
  err : Text → Outcome A
  panics : Outcome A

infixl 5 ◌>>=◌
abbrev pub ◌>>=◌ : {A B : Type 0} → Outcome A → (A → Outcome B) → Outcome B
ok a >>= f = f a
err t >>= f = err t
panics >>= f = panics

-- The lowest 32 bits, and whether they are negative as an int32.
abbrev pub low32 : ℕ → ℕ
low32 n = n % 2 ^ 32

abbrev pub is_negative32 : ℕ → Bool
is_negative32 n = leb (2 ^ 31) (low32 n)

-- `%d` of an int32
abbrev decimal32 : ℕ → Text
decimal32 n = if is_negative32 n then b'-' ∷ decimal (2 ^ 32 - low32 n) else decimal (low32 n)

-- strings.Join(names, ", ")
unfoldable pub join : Text → List Text → Text
join sep [] = []
join sep (x ∷ xs) = elim xs [ [] ↦ x | y ∷ ys ↦ x ++ (sep ++ join sep xs) ]

abbrev not_loaded : Text
not_loaded = codes "dp8shim not loaded"

-- buf[:n], on a buffer without room behind its length
abbrev slice_to : ℕ → Text → Outcome Text
slice_to n buf = if leb n (length buf) then ok (take n buf) else panics

abbrev pub new_shim : Shim
new_shim = record {
  start_server = some (codes "DP8_StartServer");
  stop_server = some (codes "DP8_StopServer");
  pop_event = some (codes "DP8_PopEvent");
  send_to = some (codes "DP8_SendTo");
  queue_depth = some (codes "DP8_GetQueueDepth");
}

abbrev required : Shim → List (Text × Option LazyProc)
required s =
    (codes "DP8_StartServer", s.start_server)
    ∷ (codes "DP8_StopServer", s.stop_server)
    ∷ (codes "DP8_PopEvent", s.pop_event)
    ∷ (codes "DP8_SendTo", s.send_to)
    ∷ []

-- What the procedure behind `DP8_PopEvent` leaves: its result, the event, and the buffer.
pub record Popped : Type 0 where
  pub code : ℕ
  pub event : RawEvent
  pub buffer : Text

-- s == nil || s.<field> == nil
abbrev proc : (Shim → Option LazyProc) → Option Shim → Option LazyProc
proc field none = none
proc field (some s) = field s

-- The event's length, cut to the buffer's.
unfoldable pub clamped : Popped → ℕ
clamped r =
    let room = low32 (length r.buffer) in
    if ltb room r.event.data_len then room else r.event.data_len

-- The part of PopEvent behind the call.
unfoldable pub popped_event : Popped → Outcome (Option (RawEvent × Text))
popped_event r =
    if is_negative32 r.code
    then err (codes "DP8_PopEvent failed rc=" ++ decimal32 r.code)
    else if eqb (low32 r.code) 0
    then ok none
    else (do
      bytes ← slice_to (clamped r) r.buffer
      ok (some (record (r.event) { data_len = clamped r }, bytes)))

module _ (exports : Text → Bool) where
  -- The names that Find does not find.
  unfoldable pub missing_exports : List (Text × Option LazyProc) → List Text
  missing_exports [] = []
  missing_exports ((name, p) ∷ rest) =
      let found : Bool = elim p [ none ↦ false | some q ↦ exports q ] in
      (if found then [] else name ∷ []) ++ missing_exports rest

  -- `answer` is what LazyDLL.Load returns: an error, if it fails.
  unfoldable pub load : Text → Option Text → Text ⊎ Shim
  load path (some e) = inl e
  load path none = elim (missing_exports (required new_shim)) [
    | [] ↦ inr new_shim
    | name ∷ names ↦ inl (
        codes "dp8shim "
        ++ (path
            ++ (codes " is missing required exports: "
                ++ (join (codes ", ") (name ∷ names)
                    ++ codes " (rebuild dp8shim.dll from open-zone/dp8shim/dp8shim.cpp)"))))
  ]

  -- LazyProc.Call panics if the procedure cannot be found.
  abbrev call : {A : Type 0} → LazyProc → A → Outcome A
  call p a = if exports p then ok a else panics

  -- `r` is what the procedure returns.
  unfoldable pub start_server : Option Shim → ℕ → ℕ → Outcome (Unit {0})
  start_server s port r = elim (proc (λ (t : Shim). t.start_server) s) [
    | none ↦ err not_loaded
    | some p ↦ call p r >>= λ r1.
        if eqb (low32 r1) 0
        then ok tt
        else err (
            codes "DP8_StartServer failed hr=0x"
            ++ (hex8 (low32 r1) ++ (codes " (port=" ++ (decimal port ++ codes ")"))))
  ]

  unfoldable pub stop_server : Option Shim → ℕ → Outcome (Unit {0})
  stop_server s r = elim (proc (λ (t : Shim). t.stop_server) s) [
    | none ↦ ok tt
    | some p ↦ do _ ← call p r; ok tt
  ]

  -- The event and its bytes, or `none` where no event waits.
  unfoldable pub pop_event : Option Shim → Popped → Outcome (Option (RawEvent × Text))
  pop_event s popped = elim (proc (λ (t : Shim). t.pop_event) s) [
    | none ↦ err not_loaded
    | some p ↦ do r ← call p popped; popped_event r
  ]

  unfoldable pub send_to : Option Shim → ℕ → Text → ℕ → ℕ → Outcome (Unit {0})
  send_to s dpnid payload flags r = elim (proc (λ (t : Shim). t.send_to) s) [
    | none ↦ err not_loaded
    | some p ↦
        if is_empty payload
        then err (codes "empty payload")
        else call p r >>= λ r1.
            if is_negative32 r1
            then err (codes "DP8_SendTo failed hr=0x" ++ hex8 (low32 r1))
            else ok tt
  ]

  -- The export is optional: Find comes before the call.
  unfoldable pub queue_depth : Option Shim → ℕ → Outcome ℕ
  queue_depth s r = elim (proc (λ (t : Shim). t.queue_depth) s) [
    | none ↦ ok 0
    | some p ↦ if not (exports p) then ok 0 else (do r1 ← call p r; ok (low32 r1))
  ]
