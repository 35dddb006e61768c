-- ===== src/PacketLog/Lines.antt =====
-- The file of the packet log is one line for each record (internal/packetlog/packetlog.go).
use open_zone.Base.{
  ◌≡◌, ap, ◌∙◌, sym, true, Option, none, some, List, [], ◌∷◌, ◌++◌, Text, map, append_assoc,
  append-nil,
}
use open_zone.PacketLog.{Record, Logger, new_logger, log, members}
use open_zone.PacketLog.Json.{marshal_object}
use open_zone.Base.Lines.{lines, lines-cons, lines-append, ends_line, ends_line-snoc}
use open_zone.PacketLog.Json.Printable.{line-IsPrintable}

unfoldable pub log_all : List Record → Option Logger → Option Logger
log_all [] l = l
log_all (r ∷ rs) l = log_all rs (log r l)

abbrev pub contents : Option Logger → Text
contents none = []
contents (some l) = l.file

abbrev line : Record → Text
line r = marshal_object (members r)

lines-log_all_from :
    (rs : List Record) (old : Text)
    → ends_line old ≡ true
    → lines (contents (log_all rs (some (record { writer = true; is_open = true; file = old }))))
      ≡ lines old ++ map line rs
unfolding log_all log
lines-log_all_from [] old h = sym (append-nil (lines old))
lines-log_all_from (r ∷ rs) old h =
    let added = line r ++ b'\n' ∷ [] in
    let ended : ends_line (old ++ added) ≡ true =
      rw (← (append_assoc old (line r) (b'\n' ∷ []))) (ends_line-snoc (old ++ line r)) in
    lines-log_all_from rs (old ++ added) ended
    ∙ ap (λ (ls : List Text). ls ++ map line rs)
        (lines-append old added h
          ∙ ap (λ (ls : List Text). lines old ++ ls)
              (lines-cons (line r) [] (line-IsPrintable (members r))))
    ∙ append_assoc (lines old) (line r ∷ []) (map line rs)

-- Whatever bytes the records hold, the log adds exactly one line for each of them, in order, to a file
-- that is empty or ended by a line feed: the line is the record's JSON object, and no record can break
-- or add a line.
pub lines-log_all :
    (rs : List Record) (old : Text)
    → ends_line old ≡ true
    → lines (contents (log_all rs (new_logger (some old))))
      ≡ lines old ++ map (λ r. marshal_object (members r)) rs
unfolding new_logger
lines-log_all rs old h = lines-log_all_from rs old h
