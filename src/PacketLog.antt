-- ===== src/PacketLog.antt =====
-- internal/packetlog/packetlog.go: one JSON object on a line for each record.
-- PacketLog/Json is what encoding/json makes of the record; the file takes every write.
pub mod Json
pub mod Lines
pub mod Reader
use open_zone.Base.{
  ℕ, Bool, true, false, ◌&&◌, Option, none, some, List, [], ◌∷◌, ◌++◌, Text, codes, eqb,
  if◌then◌else◌,
}
use open_zone.Base.Attrs.{is_empty}
use Json.{Member, text, int, marshal_object}

pub record Record : Type 0 where
  pub run_id : Text
  pub timestamp : Text
  pub kind : Text
  pub direction : Text
  pub source : Text
  pub destination : Text
  pub length : ℕ
  pub reply_mode : Text
  pub tag : Text
  pub experiment : Text
  pub message : Text

-- A record with the empty value in every field but the first three.
abbrev pub record_of : Text → Text → Text → Record
record_of run_id timestamp kind = record {
  run_id = run_id;
  timestamp = timestamp;
  kind = kind;
  direction = [];
  source = [];
  destination = [];
  length = 0;
  reply_mode = [];
  tag = [];
  experiment = [];
  message = [];
}

-- Fields with `omitempty`.
abbrev optional : Text → Text → List Member → List Member
optional name v rest = if is_empty v then rest else (name, text v) ∷ rest

abbrev optional_int : Text → ℕ → List Member → List Member
optional_int name n rest = if eqb n 0 then rest else (name, int n) ∷ rest

-- The fields under the names of their tags.
unfoldable pub members : Record → List Member
members r =
    (codes "run_id", text r.run_id)
    ∷ (codes "ts", text r.timestamp)
    ∷ (codes "type", text r.kind)
    ∷ optional (codes "direction") r.direction (
        optional (codes "src") r.source (
          optional (codes "dst") r.destination (
            optional_int (codes "len") r.length (
              optional (codes "reply_mode") r.reply_mode (
                optional (codes "tag") r.tag (
                  optional (codes "exp") r.experiment
                    (optional (codes "message") r.message [])))))))

-- The logger with its file. `writer` tells whether `w` is set, `is_open` whether the file is open.
pub record Logger : Type 0 where
  pub writer : Bool
  pub is_open : Bool
  pub file : Text

-- `New` on the contents of the file at the path; `none` is the error of OpenFile.
unfoldable pub new_logger : Option Text → Option Logger
new_logger none = none
new_logger (some content) = some (record { writer = true; is_open = true; file = content })

-- The flag tells whether the file was closed without an error. Nothing is left to flush.
unfoldable pub close : Logger → Logger × Bool
close l = (record l { is_open = false }, l.is_open)

-- A nil logger logs nothing; a write to a closed file fails, and the error is dropped.
unfoldable pub log : Record → Option Logger → Option Logger
log r none = none
log r (some l) =
    if l.writer && l.is_open
    then some (record l { file = l.file ++ (marshal_object (members r) ++ b'\n' ∷ []) })
    else some l
