-- ===== src/PacketLog/Reader/Records.antt =====
-- The records of a packet log are read back from its file (internal/packetlog/packetlog.go).
use open_zone.Base.{
  ℕ, ◌≡◌, refl, sym, ap, ap₂, ◌∙◌, Bool, true, Option, none, some, inl, inr, List, [], ◌∷◌, ◌++◌,
  Text, codes, text_eq, same_text, eqb, if◌then◌else◌, arith, Bool-cases, Option-cases, ltb, map,
  ◌>>=◌, ◌==◌,
}
use open_zone.Base.Attrs.{is_empty}
use open_zone.Base.Dict.{get, UniqueKeys}
use open_zone.Base.Lines.{lines, ends_line}
use open_zone.PacketLog.{Record, members, new_logger}
use open_zone.PacketLog.Json.{Value, text, int, Member, rune_rest, marshal_object}
use open_zone.PacketLog.Lines.{log_all, contents, lines-log_all}
use open_zone.PacketLog.Reader.{read_object}
use open_zone.PacketLog.Reader.Escapes.{to_valid}
use open_zone.PacketLog.Reader.Objects.{readable_value, readable_member, read_object-marshal}

abbrev is_blank : Value → Bool
is_blank (text s) = is_empty s
is_blank (int n) = eqb n 0

-- The members that are not left out.
abbrev present : List Member → List Member
present [] = []
present ((name, v) ∷ ms) = if is_blank v then present ms else (name, v) ∷ present ms

abbrev text_of : Option Value → Text
text_of (some (text s)) = s
text_of _ = []

abbrev number_of : Option Value → ℕ
number_of (some (int n)) = n
number_of _ = 0

-- The record with these members; a member that is not there is the empty value.
abbrev pub record_from : List Member → Record
record_from ms = record {
  run_id = text_of (get ms (codes "run_id"));
  timestamp = text_of (get ms (codes "ts"));
  kind = text_of (get ms (codes "type"));
  direction = text_of (get ms (codes "direction"));
  source = text_of (get ms (codes "src"));
  destination = text_of (get ms (codes "dst"));
  length = number_of (get ms (codes "len"));
  reply_mode = text_of (get ms (codes "reply_mode"));
  tag = text_of (get ms (codes "tag"));
  experiment = text_of (get ms (codes "exp"));
  message = text_of (get ms (codes "message"));
}

-- What a line of the log says.
unfoldable pub read_record : Text → Option Record
read_record line = do ms ← read_object line; some (record_from ms)

get-present : (ms : List Member) (k : Text) → get ms k ≡ none → get (present ms) k ≡ none
unfolding get
get-present [] k h = refl
get-present ((name, v) ∷ ms) k h = elim (Bool-cases (name == k)) [
  | inl here ↦ absurd (ground arith)
  | inr other ↦ ground (arith, get-present ms k)
]

blank-values : (v : Value) → is_blank v ≡ true → (text_of (some v) ≡ []) × (number_of (some v) ≡ 0)
blank-values (text []) h = (refl, refl)
blank-values (text (c ∷ s)) h = absurd (cc)
blank-values (int n) h = (refl, ground arith)

-- What is left out reads as it was.
values-present :
    (ms : List Member) (k : Text)
    → UniqueKeys ms
    → (text_of (get (present ms) k) ≡ text_of (get ms k))
      × (number_of (get (present ms) k) ≡ number_of (get ms k))
unfolding get
values-present [] k u = (refl, refl)
values-present ((name, v) ∷ ms) k u = elim (Bool-cases (is_blank v)) [
  | inl blank ↦ elim (Bool-cases (name == k)) [
    | inl here ↦
        let gone : get (present ms) k ≡ none =
          get-present ms k (rw (sym ((text_eq.equals_iff name k).0 here)) u.0) in
        rw (blank, here) (rw gone (sym (blank-values v blank).0, sym (blank-values v blank).1))
    | inr other ↦ rw (blank, other) (values-present ms k u.1)
  ]
  | inr given ↦ elim (Bool-cases (name == k)) [
    | inl here ↦ rw (given, here) (refl, refl)
    | inr other ↦ rw (given, other) (values-present ms k u.1)
  ]
]

-- The members with `omitempty`, left out or not.
abbrev omitempty : Record → List Member
omitempty r =
    (codes "direction", text r.direction)
    ∷ (codes "src", text r.source)
    ∷ (codes "dst", text r.destination)
    ∷ (codes "len", int r.length)
    ∷ (codes "reply_mode", text r.reply_mode)
    ∷ (codes "tag", text r.tag)
    ∷ (codes "exp", text r.experiment)
    ∷ (codes "message", text r.message)
    ∷ []

omitempty-UniqueKeys : (r : Record) → UniqueKeys (omitempty r)
unfolding get same_text
omitempty-UniqueKeys r = (refl, (refl, (refl, (refl, (refl, (refl, (refl, (refl, tt))))))))

abbrev required : Record → List Member → List Member
required r ms =
    (codes "run_id", text r.run_id)
    ∷ (codes "ts", text r.timestamp)
    ∷ (codes "type", text r.kind)
    ∷ ms

-- The record with the required fields of another, and the rest read from members.
abbrev record_with : Record → List Member → Record
record_with r ms = record (record_from ms) {
  run_id = r.run_id;
  timestamp = r.timestamp;
  kind = r.kind;
}

record_from-required :
    (r : Record) (ms : List Member) → record_from (required r ms) ≡ record_with r ms
unfolding get same_text
record_from-required r ms = refl

record_with-omitempty : (r : Record) → record_with r (omitempty r) ≡ r
unfolding get same_text
record_with-omitempty r = refl

record_with-present :
    (r : Record) (ms : List Member) → UniqueKeys ms → record_with r (present ms) ≡ record_with r ms
record_with-present r ms u = λ i. record {
  run_id = r.run_id;
  timestamp = r.timestamp;
  kind = r.kind;
  direction = (values-present ms (codes "direction") u).0 i;
  source = (values-present ms (codes "src") u).0 i;
  destination = (values-present ms (codes "dst") u).0 i;
  length = (values-present ms (codes "len") u).1 i;
  reply_mode = (values-present ms (codes "reply_mode") u).0 i;
  tag = (values-present ms (codes "tag") u).0 i;
  experiment = (values-present ms (codes "exp") u).0 i;
  message = (values-present ms (codes "message") u).0 i;
}

members-present : (r : Record) → members r ≡ required r (present (omitempty r))
unfolding members
members-present r = refl

record_from-members : (r : Record) → record_from (members r) ≡ r
record_from-members r =
    ap record_from (members-present r)
    ∙ record_from-required r (present (omitempty r))
    ∙ record_with-present r (omitempty r) (omitempty-UniqueKeys r)
    ∙ record_with-omitempty r

-- A record as it is read: with U+FFFD for each byte that is no UTF-8.
abbrev pub readable : Record → Record
readable r = record {
  run_id = to_valid 0 r.run_id;
  timestamp = to_valid 0 r.timestamp;
  kind = to_valid 0 r.kind;
  direction = to_valid 0 r.direction;
  source = to_valid 0 r.source;
  destination = to_valid 0 r.destination;
  length = r.length;
  reply_mode = to_valid 0 r.reply_mode;
  tag = to_valid 0 r.tag;
  experiment = to_valid 0 r.experiment;
  message = to_valid 0 r.message;
}

blank-readable : (v : Value) → is_blank (readable_value v) ≡ is_blank v
unfolding to_valid
blank-readable (text []) = refl
blank-readable (text (c ∷ s)) = elim (Bool-cases (ltb c 128)) [
  | inl ascii ↦ rw ascii refl
  | inr wide ↦ elim (Option-cases (rune_rest c s)) [
    | inl broken ↦ rw (wide, broken) refl
    | inr (n, found) ↦ rw (wide, found) refl
  ]
]
blank-readable (int n) = refl

map-present :
    (ms : List Member) → map readable_member (present ms) ≡ present (map readable_member ms)
map-present [] = refl
map-present ((name, v) ∷ ms) = elim (Bool-cases (is_blank v)) [
  | inl blank ↦ rw (blank-readable v, blank) (map-present ms)
  | inr given ↦ rw (blank-readable v, given) (rw (map-present ms) refl)
]

map-omitempty : (r : Record) → map readable_member (omitempty r) ≡ omitempty (readable r)
unfolding to_valid
map-omitempty r = refl

map-required :
    (r : Record) (ms : List Member)
    → map readable_member (required r ms) ≡ required (readable r) (map readable_member ms)
unfolding to_valid
map-required r ms = refl

map-members : (r : Record) → map readable_member (members r) ≡ members (readable r)
map-members r =
    ap (map readable_member) (members-present r)
    ∙ map-required r (present (omitempty r))
    ∙ ap (required (readable r)) (map-present (omitempty r) ∙ ap present (map-omitempty r))
    ∙ sym (members-present (readable r))

read_record-required :
    (r : Record) (ms : List Member)
    → read_record (marshal_object (required r ms))
      ≡ some (record_from (map readable_member (required r ms)))
unfolding read_record
read_record-required r ms =
    ap (λ (o : Option (List Member)). o >>= λ found. some (record_from found))
      (read_object-marshal (codes "run_id", text r.run_id)
        ((codes "ts", text r.timestamp) ∷ (codes "type", text r.kind) ∷ ms))

read_record-marshal : (r : Record) → read_record (marshal_object (members r)) ≡ some (readable r)
read_record-marshal r =
    ap (λ (ms : List Member). read_record (marshal_object ms)) (members-present r)
    ∙ read_record-required r (present (omitempty r))
    ∙ ap (λ (ms : List Member). some (record_from (map readable_member ms)))
        (sym (members-present r))
    ∙ ap (λ (ms : List Member). some (record_from ms)) (map-members r)
    ∙ ap some (record_from-members (readable r))

read_lines :
    (ls : List Text) (rs : List Record)
    → map read_record (ls ++ map (λ r. marshal_object (members r)) rs)
      ≡ map read_record ls ++ map (λ r. some (readable r)) rs
read_lines [] [] = refl
read_lines [] (r ∷ rs) = ap₂ ◌∷◌ (read_record-marshal r) (read_lines [] rs)
read_lines (l ∷ ls) rs = ap (λ ms. read_record l ∷ ms) (read_lines ls rs)

-- Whoever reads each line of the log as a JSON object gets exactly the logged records, in order and with
-- every field, behind what the file, empty or ended by a line feed, held before. In their texts, which
-- may be any bytes, U+FFFD stands for each byte that is no UTF-8.
pub records-log_all :
    (rs : List Record) (old : Text)
    → ends_line old ≡ true
    → map read_record (lines (contents (log_all rs (new_logger (some old)))))
      ≡ map read_record (lines old) ++ map (λ r. some (readable r)) rs
records-log_all rs old ended =
    ap (map read_record) (lines-log_all rs old ended) ∙ read_lines (lines old) rs
