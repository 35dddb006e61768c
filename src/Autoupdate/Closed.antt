-- ===== src/Autoupdate/Closed.antt =====
-- The sink closes and logs every connection (internal/autoupdate/sink.go).
use open_zone.Base.{◌≡◌, refl, ap, true, Option, none, some, List, [], ◌∷◌, ◌++◌, Text, map}
use open_zone.Base.Lines.{lines, ends_line}
use open_zone.PacketLog.{Logger, new_logger, log, members}
use open_zone.PacketLog.Json.{marshal_object}
use open_zone.PacketLog.Lines.{log_all, contents, lines-log_all}
use open_zone.Autoupdate.{
  Accept, conn, error, ConnCall, set_deadline, close, accept_record, startup_record, accept_loop,
  start_sink,
}

-- The times of the connections that come before the first error.
abbrev pub accepted : List Accept → List Text
accepted [] = []
accepted (error ∷ rest) = []
accepted (conn ts ∷ rest) = ts ∷ accepted rest

accept_loop-log_all :
    (run_id : Text) (cs : List Accept) (l : Option Logger)
    → accept_loop run_id cs l ≡ (
      map (λ ts. set_deadline ∷ close ∷ []) (accepted cs),
      log_all (map (accept_record run_id) (accepted cs)) l,
    )
unfolding accept_loop log_all
accept_loop-log_all run_id [] l = refl
accept_loop-log_all run_id (error ∷ cs) l = refl
accept_loop-log_all run_id (conn ts ∷ cs) l =
    ap (λ (q : List (List ConnCall) × Option Logger). ((set_deadline ∷ close ∷ []) ∷ q.0, q.1))
      (accept_loop-log_all run_id cs (log (accept_record run_id ts) l))

-- A sink that listens gives each connection that comes before the first error a deadline and closes
-- it, and does nothing else with it; its log gets one line for the start and one for each connection,
-- in order, behind the lines that the file had, if that was empty or ended by a line feed.
pub accept_loop-lines :
    (run_id ts addr old : Text) (cs : List Accept)
    → ends_line old ≡ true
    → ((accept_loop run_id cs (start_sink run_id ts addr none (new_logger (some old))).1).0
        ≡ map (λ t. set_deadline ∷ close ∷ []) (accepted cs))
      × (lines (
            contents
              (accept_loop run_id cs (start_sink run_id ts addr none (new_logger (some old))).1).1)
          ≡ lines old
            ++ map
                (λ r. marshal_object (members r))
                (startup_record run_id ts addr ∷ map (accept_record run_id) (accepted cs)))
unfolding start_sink
accept_loop-lines run_id ts addr old cs h =
    let start = startup_record run_id ts addr in
    let logs = map (accept_record run_id) (accepted cs) in
    rw (accept_loop-log_all run_id cs (log start (new_logger (some old))))
      (refl, unfold log_all in lines-log_all (start ∷ logs) old h)
