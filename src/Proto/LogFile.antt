-- ===== src/Proto/LogFile.antt =====
-- internal/proto/util.go: `ResetLogFile`, as the calls that it makes and its error.
-- `dir_of` is filepath.Dir, which goes by the platform; `make_dirs` and `write` are the errors of
-- os.MkdirAll and os.WriteFile, if they have one.
use open_zone.Base.{
  ◌||◌, Option, none, some, List, [], ◌∷◌, Text, codes, text_eq, same_text, if◌then◌else◌,
}
use open_zone.Base.Attrs.{is_empty}
use open_zone.Base.Strings.{trim_space}

pub data FileCall : Type 0 where
  makes_dirs : Text → FileCall
  empties : Text → FileCall

-- The calls so far, and the error that ends them.
abbrev pub Outcome : Type 0
Outcome = List FileCall × Option Text

module _ (dir_of : Text → Text) (make_dirs write : Text → Option Text) where
  abbrev write_file : Text → Outcome
  write_file path = (empties path ∷ [], write path)

  abbrev after_dirs : Text → Text → Option Text → Outcome
  after_dirs dir path none = let (calls, e) = write_file path in (makes_dirs dir ∷ calls, e)
  after_dirs dir path (some e) = (makes_dirs dir ∷ [], some e)

  -- A directory is made if the path names one.
  unfoldable pub reset_log_file : Text → Outcome
  reset_log_file path =
      let dir = dir_of path in
      if is_empty (trim_space path)
      then ([], none)
      else if same_text dir (codes ".") || is_empty dir
      then write_file path
      else after_dirs dir path (make_dirs dir)
