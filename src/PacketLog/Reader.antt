-- ===== src/PacketLog/Reader.antt =====
-- A reader of JSON objects of texts and numbers, after RFC 8259, independent of the printing code: what a
-- consumer of the packet log does with a line (internal/packetlog/packetlog.go).
pub mod Escapes
pub mod Objects
pub mod Records
use open_zone.Base.{
  ℕ, zero, suc, ◌+◌, ◌-◌, ◌*◌, ◌/◌, ◌%◌, Bool, true, false, ◌&&◌, Option, none, some, List, [], ◌∷◌,
  ◌++◌, Text, codes, eqb, ltb, leb, if◌then◌else◌, length, ◌>>=◌,
}
use open_zone.Base.Numbers.{is_digit}
use open_zone.PacketLog.Json.{Value, text, int, Member, between}

-- UTF-8 of a code point below 2^16.
abbrev pub utf8 : ℕ → Text
utf8 n =
    if ltb n 128
    then n ∷ []
    else if ltb n 2048
    then (192 + n / 64) ∷ (128 + n % 64) ∷ []
    else (224 + n / 4096) ∷ (128 + n / 64 % 64) ∷ (128 + n % 64) ∷ []

abbrev pub hex_value : ℕ → Option ℕ
hex_value c =
    if is_digit c
    then some (c - 48)
    else if between 97 102 c
    then some (c - 87)
    else if between 65 70 c
    then some (c - 55)
    else none

-- Where the reader of a text stands: between characters, behind a backslash, or in a `\u` escape with
-- so many digits still to come behind the next one.
pub data ReadState : Type 0 where
  plain : ReadState
  escaped : ReadState
  digits : ℕ → ℕ → ReadState

pub data Token : Type 0 where
  emit : Text → ReadState → Token
  close : Token
  bad : Token

abbrev pub digit_token : ℕ → ℕ → Option ℕ → Token
digit_token n v none = bad
digit_token zero v (some d) = emit (utf8 (v * 16 + d)) plain
digit_token (suc n) v (some d) = emit [] (digits n (v * 16 + d))

-- The byte for the letter of a short escape.
abbrev pub short_token : ℕ → Token
short_token c =
    if eqb c b'"'
    then emit (b'"' ∷ []) plain
    else if eqb c b'\\'
    then emit (b'\\' ∷ []) plain
    else if eqb c b'/'
    then emit (b'/' ∷ []) plain
    else if eqb c b'b'
    then emit (8 ∷ []) plain
    else if eqb c b'f'
    then emit (12 ∷ []) plain
    else if eqb c b'n'
    then emit (b'\n' ∷ []) plain
    else if eqb c b'r'
    then emit (b'\r' ∷ []) plain
    else if eqb c b't'
    then emit (b'\t' ∷ []) plain
    else if eqb c b'u'
    then emit [] (digits 3 0)
    else bad

unfoldable pub token : ReadState → ℕ → Token
token plain c =
    if eqb c b'"'
    then close
    else if eqb c b'\\'
    then emit [] escaped
    else if ltb c 32
    then bad
    else emit (c ∷ []) plain
token escaped c = short_token c
token (digits n v) c = digit_token n v (hex_value c)

abbrev pub prepend : Text → Option (Text × Text) → Option (Text × Text)
prepend t none = none
prepend t (some (s, rest)) = some (t ++ s, rest)

-- The text up to its closing quote, and what stands behind it.
unfoldable pub read_chars : ReadState → Text → Option (Text × Text)
read_chars st [] = none
read_chars st (c ∷ s) = elim (token st c) [
  | emit t st' ↦ prepend t (read_chars st' s)
  | close ↦ some ([], s)
  | bad ↦ none
]

-- What stands behind one given byte.
abbrev pub behind : ℕ → Text → Option Text
behind b [] = none
behind b (c ∷ s) = if eqb c b then some s else none

abbrev pub read_text : Text → Option (Text × Text)
read_text s = do s' ← behind b'"' s; read_chars plain s'

-- The number that the digits in front denote, and what stands behind them.
unfoldable pub read_digits : ℕ → Text → ℕ × Text
read_digits acc [] = (acc, [])
read_digits acc (c ∷ s) =
    let rest = read_digits (acc * 10 + (c - 48)) s in if is_digit c then rest else (acc, c ∷ s)

abbrev pub as_text : Option (Text × Text) → Option (Value × Text)
as_text none = none
as_text (some (t, rest)) = some (text t, rest)

-- A text or a number, by its first byte.
unfoldable pub read_value : Text → Option (Value × Text)
read_value [] = none
read_value (c ∷ s) =
    let (n, rest) = read_digits 0 (c ∷ s) in
    if is_digit c then some (int n, rest) else as_text (read_text (c ∷ s))

unfoldable pub read_member : Text → Option (Member × Text)
read_member s = do
  (name, s1) ← read_text s
  s2 ← behind b':' s1
  (v, s3) ← read_value s2
  some ((name, v), s3)

abbrev pub with_member : Member → Option (List Member) → Option (List Member)
with_member m none = none
with_member m (some ms) = some (m ∷ ms)

-- After a member, more of them or the closing brace, which ends the text.
abbrev pub after_member :
    (Text → Option (List Member)) → Option (Member × Text) → Option (List Member)
after_member more none = none
after_member more (some (m, [])) = none
after_member more (some (m, c ∷ rest)) =
    if eqb c b','
    then with_member m (more rest)
    else if eqb c b'}' && eqb (length rest) 0
    then some (m ∷ [])
    else none

-- The members up to the closing brace; `n` bounds their number.
unfoldable pub read_members : ℕ → Text → Option (List Member)
read_members zero s = none
read_members (suc n) s = after_member (read_members n) (read_member s)

unfoldable pub read_object : Text → Option (List Member)
read_object s = do s' ← behind b'{' s; read_members (length s') s'
