-- ===== src/PacketLog/Json.antt =====
-- encoding/json, for an object of texts and numbers: `json.Marshal` with its escapes.
-- A text is read rune by rune; bytes that are no UTF-8 are written as `\ufffd`.
pub mod Printable
use open_zone.Base.{
  ℕ, zero, suc, ◌+◌, ◌-◌, ◌/◌, ◌%◌, Bool, true, false, not, ◌&&◌, ◌||◌, Option, none, some, List,
  [], ◌∷◌, ◌++◌, Text, codes, eqb, ltb, leb, if◌then◌else◌,
}
use open_zone.Base.Numbers.{decimal}

pub data Value : Type 0 where
  text : Text → Value
  int : ℕ → Value

abbrev pub Member : Type 0
Member = Text × Value

abbrev hex : ℕ → ℕ
hex d = if ltb d 10 then 48 + d else 87 + d

-- The bytes below 128 that stand for themselves.
abbrev pub is_html_safe : ℕ → Bool
is_html_safe c =
    leb b' ' c
    && (not (eqb c b'"')
        && (not (eqb c b'\\') && (not (eqb c b'<') && (not (eqb c b'>') && not (eqb c b'&')))))

unfoldable pub escape_ascii : ℕ → Text
escape_ascii c =
    if is_html_safe c
    then c ∷ []
    else if eqb c b'\\' || eqb c b'"'
    then b'\\' ∷ c ∷ []
    else if eqb c 8
    then b'\\' ∷ b'b' ∷ []
    else if eqb c 12
    then b'\\' ∷ b'f' ∷ []
    else if eqb c b'\n'
    then b'\\' ∷ b'n' ∷ []
    else if eqb c b'\r'
    then b'\\' ∷ b'r' ∷ []
    else if eqb c b'\t'
    then b'\\' ∷ b't' ∷ []
    else b'\\' ∷ b'u' ∷ b'0' ∷ b'0' ∷ hex (c / 16) ∷ hex (c % 16) ∷ []

abbrev pub between : ℕ → ℕ → ℕ → Bool
between a b c = leb a c && leb c b

abbrev pub is_cont : ℕ → Bool
is_cont c = between 128 191 c

-- The second byte that a first byte of three or four allows.
abbrev second3 : ℕ → ℕ → Bool
second3 c d =
    if eqb c 224 then between 160 191 d else if eqb c 237 then between 128 159 d else is_cont d

abbrev second4 : ℕ → ℕ → Bool
second4 c d =
    if eqb c 240 then between 144 191 d else if eqb c 244 then between 128 143 d else is_cont d

-- utf8.DecodeRuneInString: how many bytes of the rune follow its first; `none` is RuneError.
unfoldable pub rune_rest : ℕ → Text → Option ℕ
rune_rest c (d ∷ e ∷ f ∷ s) =
    if between 194 223 c && is_cont d
    then some 1
    else if between 224 239 c && (second3 c d && is_cont e)
    then some 2
    else if between 240 244 c && (second4 c d && (is_cont e && is_cont f))
    then some 3
    else none
rune_rest c (d ∷ e ∷ []) =
    if between 194 223 c && is_cont d
    then some 1
    else if between 224 239 c && (second3 c d && is_cont e)
    then some 2
    else none
rune_rest c (d ∷ []) = if between 194 223 c && is_cont d then some 1 else none
rune_rest c [] = none

-- U+2028 and U+2029 are E2 80 A8 and E2 80 A9: the last digit of the escape, for one of them.
unfoldable pub separator : ℕ → Text → Option ℕ
separator c (d ∷ e ∷ s) =
    if eqb c 226 && (eqb d 128 && between 168 169 e) then some (48 + (e - 160)) else none
separator c _ = none

-- What the loop over the runes still owes: bytes to copy, or bytes to leave out.
pub data Mode : Type 0 where
  copy : ℕ → Mode
  skip : ℕ → Mode

-- The output for a rune of several bytes, by how many follow its first and the digit of a separator.
abbrev pub wide_out : ℕ → Option ℕ → Option ℕ → Text × Mode
wide_out c none sep = (codes "\\ufffd", copy 0)
wide_out c (some n) none = (c ∷ [], copy n)
wide_out c (some n) (some d) = (codes "\\u202" ++ d ∷ [], skip n)

-- The output for the rune that begins with `c`, and what becomes of the bytes behind `c`.
unfoldable pub rune_out : ℕ → Text → Text × Mode
rune_out c s =
    if ltb c 128 then (escape_ascii c, copy 0) else wide_out c (rune_rest c s) (separator c s)

unfoldable pub escape : Mode → Text → Text
escape m [] = []
escape (copy (suc n)) (c ∷ s) = c ∷ escape (copy n) s
escape (skip (suc n)) (c ∷ s) = escape (skip n) s
escape (copy zero) (c ∷ s) = let (o, m) = rune_out c s in o ++ escape m s
escape (skip zero) (c ∷ s) = let (o, m) = rune_out c s in o ++ escape m s

abbrev pub quoted : Text → Text
quoted s = b'"' ∷ (escape (copy 0) s ++ b'"' ∷ [])

abbrev pub marshal_value : Value → Text
marshal_value (text s) = quoted s
marshal_value (int n) = decimal n

-- `sep` is what stands before the first member.
unfoldable pub marshal_members : Text → List Member → Text
marshal_members sep [] = b'}' ∷ []
marshal_members sep ((name, v) ∷ rest) =
    sep ++ (quoted name ++ (b':' ∷ (marshal_value v ++ marshal_members (b',' ∷ []) rest)))

unfoldable pub marshal_object : List Member → Text
marshal_object fields = b'{' ∷ marshal_members [] fields
