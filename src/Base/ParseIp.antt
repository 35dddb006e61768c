-- ===== src/Base/ParseIp.antt =====
-- `net.ParseIP` of Go's standard library, with `IsLoopback` and `IsPrivate` of its result.
-- An address is the list of its sixteen bytes; an IPv4 address is mapped to ::ffff:a.b.c.d.
use Prim.Native.Nat.{ℕ, zero, suc, ◌+◌, ◌-◌, ◌*◌, ◌/◌, ◌%◌}
use mathlib.Core.Bool.{Bool, true, false, not, ◌&&◌, ◌||◌}
use mathlib.Core.Option.{Option, none, some}
use mathlib.Core.List.{List, [], ◌∷◌, ◌++◌}
use open_zone.Base.Tests.{eqb, ltb, leb, if◌then◌else◌}
use open_zone.Base.Lists.{length, drop, take}
use open_zone.Base.Keys.{Text, same_text}
use open_zone.Base.Options.{◌>>=◌, ◌>>◌, guard}
use open_zone.Base.Strings.{cut_byte, cut_when}
use open_zone.Base.Numbers.{is_digit}

-- One field of a dotted quad: the digits read so far give `val`, and `len` counts them.
ipv4_fields : ℕ → ℕ → List ℕ → Text → Option (List ℕ)
ipv4_fields val len fields [] =
    if eqb len 0 || not (eqb (length fields) 3) then none else some (fields ++ (val ∷ []))
ipv4_fields val len fields (c ∷ s) =
    let next = ipv4_fields (val * 10 + (c - 48)) (len + 1) fields s in
    let after_dot = ipv4_fields 0 0 (fields ++ (val ∷ [])) s in
    if is_digit c
    then (if (eqb len 1 && eqb val 0) || ltb 255 (val * 10 + (c - 48)) then none else next)
    else if eqb c b'.'
    then (if eqb len 0 || eqb (length fields) 3 then none else after_dot)
    else none

parse_ipv4 : Text → Option (List ℕ)
parse_ipv4 s = ipv4_fields 0 0 [] s

hex_value : ℕ → Option ℕ
hex_value c =
    if is_digit c
    then some (c - 48)
    else if leb b'a' c && leb c b'f'
    then some (c - 87)
    else if leb b'A' c && leb c b'F'
    then some (c - 55)
    else none

-- The hexadecimal digits at the front: how many, their value, and the rest; a fifth one is refused.
hex_group : ℕ → ℕ → Text → Option (ℕ × ℕ × Text)
hex_group count acc [] = some (count, acc, [])
hex_group count acc (c ∷ s) = elim (hex_value c) [
  | none ↦ some (count, acc, c ∷ s)
  | some d ↦ if ltb 3 count then none else hex_group (count + 1) (acc * 16 + d) s
]

zeros : ℕ → List ℕ
zeros zero = []
zeros (suc n) = 0 ∷ zeros n

-- The bytes read, and where `::` stood: the bytes before it.
record Groups : Type 0 where
  bytes : List ℕ
  ellipsis : Option ℕ

-- After the loop: the whole text is used, and `::` stands for at least one group.
expand : Groups → Option (List ℕ)
expand g = elim g.ellipsis [
  | none ↦ if eqb (length g.bytes) 16 then some g.bytes else none
  | some e ↦
      if ltb (length g.bytes) 16
      then some (take e g.bytes ++ (zeros (16 - length g.bytes) ++ drop e g.bytes))
      else none
]

no_ellipsis : Option ℕ → Bool
no_ellipsis none = true
no_ellipsis (some e) = false

-- What follows a group that a colon ends: another `:` is the ellipsis.
after_colon : Groups → Text → Option (Groups × Text)
after_colon g [] = none
after_colon g (c ∷ s) =
    if eqb c b':'
    then (if no_ellipsis g.ellipsis
        then some (record g { ellipsis = some (length g.bytes) }, s)
        else none)
    else some (g, c ∷ s)

-- The loop over groups; eight are enough, since each gives two bytes.
ipv6_groups : ℕ → Groups → Text → Option Groups
ipv6_groups zero g s = if eqb (length s) 0 then some g else none
ipv6_groups (suc fuel) g s = do
  (count, acc, rest) ← hex_group 0 0 s
  guard (not (eqb count 0))
  elim rest [
    | [] ↦ some (record g { bytes = g.bytes ++ (acc / 256 ∷ acc % 256 ∷ []) })
    | c ∷ more ↦
        if eqb c b'.'
        then (do
          guard (not (no_ellipsis g.ellipsis) || eqb (length g.bytes) 12)
          guard (leb (length g.bytes + 4) 16)
          quad ← parse_ipv4 s
          some (record g { bytes = g.bytes ++ quad }))
        else if eqb c b':'
        then (do
          (g', s') ← after_colon (record g { bytes = g.bytes ++ (acc / 256 ∷ acc % 256 ∷ []) }) more
          elim s' [ [] ↦ some g' | d ∷ t ↦ ipv6_groups fuel g' (d ∷ t) ])
        else none
  ]

parse_ipv6 : Text → Option (List ℕ)
parse_ipv6 s = do g ← ipv6_groups 8 (record { bytes = []; ellipsis = none }) s; expand g

parse_ipv6_front : Text → Option (List ℕ)
parse_ipv6_front [] = none
parse_ipv6_front (c ∷ []) = none
parse_ipv6_front (c ∷ d ∷ []) =
    if eqb c b':' && eqb d b':' then some (zeros 16) else parse_ipv6 (c ∷ d ∷ [])
parse_ipv6_front (c ∷ d ∷ e ∷ s) =
    if eqb c b':' && eqb d b':'
    then (do g ← ipv6_groups 8 (record { bytes = []; ellipsis = some 0 }) (e ∷ s); expand g)
    else parse_ipv6 (c ∷ d ∷ e ∷ s)

mapped : List ℕ
mapped = zeros 10 ++ (255 ∷ 255 ∷ [])

-- The first of `.`, `:` and `%` decides the family; a zone is no address for `net.ParseIP`.
parse_from : Text → Text → Option (List ℕ)
parse_from whole [] = none
parse_from whole (c ∷ s) =
    let later = parse_from whole s in
    if eqb c b'.'
    then (do quad ← parse_ipv4 whole; some (mapped ++ quad))
    else if eqb c b':'
    then elim (cut_byte b'%' whole) [ none ↦ parse_ipv6_front whole | some zone ↦ none ]
    else if eqb c b'%'
    then none
    else later

unfoldable pub parse_ip : Text → Option (List ℕ)
unfolding parse_from mapped zeros parse_ipv4 ipv4_fields parse_ipv6_front parse_ipv6 ipv6_groups
    hex_group hex_value expand no_ellipsis after_colon cut_when
parse_ip s = parse_from s s

-- ip.To4(): the last four bytes of a mapped address
to4 : List ℕ → Option (List ℕ)
to4 ip = if same_text (take 12 ip) mapped then some (drop 12 ip) else none

first : List ℕ → ℕ
first [] = 0
first (a ∷ ip) = a

second : List ℕ → ℕ
second ip = first (drop 1 ip)

unfoldable pub is_loopback : List ℕ → Bool
unfolding to4 same_text mapped zeros first
is_loopback ip = elim (to4 ip) [
  | some v4 ↦ eqb (first v4) 127
  | none ↦ same_text ip (zeros 15 ++ (1 ∷ []))
]

-- RFC 1918 and RFC 4193
unfoldable pub is_private : List ℕ → Bool
unfolding to4 same_text mapped zeros first second
is_private ip = elim (to4 ip) [
  | some v4 ↦
      eqb (first v4) 10
      || ((eqb (first v4) 172 && eqb (second v4 / 16) 1)
          || (eqb (first v4) 192 && eqb (second v4) 168))
  | none ↦ eqb (first ip / 2) 126
]
