-- ===== src/PacketLog/Reader/Objects.antt =====
-- An object is read back from its JSON (internal/packetlog/packetlog.go).
use open_zone.Base.{
  ℕ, zero, suc, ◌+◌, ◌-◌, ◌*◌, ◌≤◌, ◌<◌, ◌≡◌, refl, ap, ◌∙◌, Bool, true, not, some, List, [], ◌∷◌,
  ◌++◌, Text, arith, All, length, length-append, map, append_assoc,
}
use open_zone.Base.Numbers.{
  decimal, is_digit, value_from, All-decimal, value-decimal, length-decimal,
}
use open_zone.PacketLog.Json.{
  Value, text, int, Member, copy, escape, quoted, marshal_value, marshal_members, marshal_object,
}
use open_zone.PacketLog.Reader.{
  plain, read_chars, read_text, read_digits, as_text, read_value, read_member, after_member,
  with_member, read_members, read_object,
}
use open_zone.PacketLog.Reader.Escapes.{to_valid, read_chars-escape}

-- A value and a member as they are read: with U+FFFD for each byte that is no UTF-8.
abbrev pub readable_value : Value → Value
readable_value (text s) = text (to_valid 0 s)
readable_value (int n) = int n

abbrev pub readable_member : Member → Member
readable_member (name, v) = (to_valid 0 name, readable_value v)

read_text-quoted : (s rest : Text) → read_text (quoted s ++ rest) ≡ some (to_valid 0 s, rest)
read_text-quoted s rest =
    ap (read_chars plain) (append_assoc (escape (copy 0) s) (b'"' ∷ []) rest)
    ∙ read_chars-escape s rest

-- What stands behind a value is no digit.
abbrev stops : Text → Bool
stops [] = true
stops (c ∷ s) = not (is_digit c)

read_digits-append :
    (acc : ℕ) (ds rest : Text)
    → All (λ c. is_digit c ≡ true) ds
    → stops rest ≡ true
    → read_digits acc (ds ++ rest) ≡ (value_from acc ds, rest)
unfolding read_digits
read_digits-append acc [] [] a h = refl
read_digits-append acc [] (c ∷ s) a h = ground arith
read_digits-append acc (d ∷ ds) rest a h =
    rw a.0 (read_digits-append (acc * 10 + (d - 48)) ds rest a.1 h)

read_value-digits :
    (ds rest : Text)
    → 1 ≤ length ds
    → All (λ c. is_digit c ≡ true) ds
    → stops rest ≡ true
    → read_value (ds ++ rest) ≡ some (int (value_from 0 ds), rest)
unfolding read_value
read_value-digits [] rest some_digit a h = absurd (omega arith)
read_value-digits (d ∷ ds) rest some_digit a h =
    rw (a.0, read_digits-append 0 (d ∷ ds) rest a h) refl

read_value-marshal :
    (v : Value) (rest : Text)
    → stops rest ≡ true
    → read_value (marshal_value v ++ rest) ≡ some (readable_value v, rest)
unfolding read_value
read_value-marshal (text s) rest h = ap as_text (read_text-quoted s rest)
read_value-marshal (int n) rest h =
    read_value-digits (decimal n) rest (length-decimal n) (All-decimal n) h
    ∙ ap (λ (k : ℕ). some (int k, rest)) (value-decimal n)

read_member-marshal :
    (m : Member) (rest : Text)
    → stops rest ≡ true
    → read_member (quoted m.0 ++ (b':' ∷ (marshal_value m.1 ++ rest)))
      ≡ some (readable_member m, rest)
unfolding read_member
read_member-marshal (name, v) rest h =
    rw (read_text-quoted name (b':' ∷ (marshal_value v ++ rest)))
      (rw (read_value-marshal v rest h) refl)

stops-members : (ms : List Member) → stops (marshal_members (b',' ∷ []) ms) ≡ true
unfolding marshal_members
stops-members [] = refl
stops-members (m ∷ ms) = refl

-- At least one member, and as much fuel as members.
read_members-marshal :
    (n : ℕ) (m : Member) (ms : List Member)
    → length ms < n
    → read_members n (marshal_members [] (m ∷ ms)) ≡ some (map readable_member (m ∷ ms))
unfolding read_members marshal_members
read_members-marshal zero m ms room = absurd (omega arith)
read_members-marshal (suc n) m [] room =
    ap (after_member (read_members n)) (read_member-marshal m (b'}' ∷ []) refl)
read_members-marshal (suc n) m (k ∷ ms) room =
    ap (after_member (read_members n))
      (read_member-marshal m (marshal_members (b',' ∷ []) (k ∷ ms)) (stops-members (k ∷ ms)))
    ∙ ap (with_member (readable_member m)) (read_members-marshal n k ms (omega arith))

length-members : (sep : Text) (ms : List Member) → length ms < length (marshal_members sep ms)
unfolding marshal_members
length-members sep [] = omega arith
length-members sep ((name, v) ∷ ms) = omega (
  arith,
  length-append sep (quoted name ++ (b':' ∷ (marshal_value v ++ marshal_members (b',' ∷ []) ms))),
  length-append (quoted name) (b':' ∷ (marshal_value v ++ marshal_members (b',' ∷ []) ms)),
  length-append (marshal_value v) (marshal_members (b',' ∷ []) ms),
  length-members (b',' ∷ []) ms,
)

-- An object with members is read back, whatever their names and values.
pub read_object-marshal :
    (m : Member) (ms : List Member)
    → read_object (marshal_object (m ∷ ms)) ≡ some (map readable_member (m ∷ ms))
unfolding read_object marshal_object
read_object-marshal m ms =
    read_members-marshal (length (marshal_members [] (m ∷ ms))) m ms
      (omega (arith, length-members [] (m ∷ ms)))
