-- ===== src/Base/Attrs.antt =====
-- The loop that reads `name="value"` pairs. It stands twice in the sources, in `Parse` of
-- internal/proto/xmlish.go and in `parseAttrs` of internal/state/host_store.go.
-- The loop runs on fuel: every round drops at least three bytes of `rest`, so the length of the text
-- is enough (proved in Attrs/Fuel).
pub mod Fuel
pub mod Unique
use Prim.Native.Nat.{ℕ, zero, suc}
use mathlib.Core.Bool.{Bool, true, false}
use mathlib.Core.Option.{Option, none, some}
use mathlib.Core.List.{List, [], ◌∷◌}
use open_zone.Base.Tests.{if◌then◌else◌}
use open_zone.Base.Options.{◌>>=◌}
use open_zone.Base.Keys.{Text, text_eq}
use open_zone.Base.Dict.{Dict, put}
use open_zone.Base.Strings.{trim_space, cut, cut_byte}

abbrev pub is_empty : Text → Bool
is_empty [] = true
is_empty (c ∷ s) = false

-- if key != "" { attrs[key] = val }
abbrev pub put_named : Text → Text → Dict Text Text → Dict Text Text
put_named key val m = if is_empty key then m else put m key val

-- One round of the loop: the bytes before `="` (trimmed), those up to the next `"`, and the trimmed
-- rest; `none` is either `break`.
unfoldable pub next_attr : Text → Option (Text × Text × Text)
next_attr rest = do
  (key, behind) ← cut (b'=' ∷ b'"' ∷ []) rest
  (val, more) ← cut_byte b'"' behind
  some (trim_space key, val, trim_space more)

-- for rest != "" { … }
unfoldable pub attr_loop : ℕ → Text → Dict Text Text → Dict Text Text
attr_loop zero rest m = m
attr_loop (suc fuel) [] m = m
attr_loop (suc fuel) (c ∷ rest) m = elim (next_attr (c ∷ rest)) [
  | none ↦ m
  | some (key, val, more) ↦ attr_loop fuel more (put_named key val m)
]
