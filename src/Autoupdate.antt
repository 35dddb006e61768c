-- ===== src/Autoupdate.antt =====
-- internal/autoupdate/sink.go: the listener that closes every connection.
-- What `Accept` answers is a list; a connection's deadline and close have no answer that is used.
pub mod Closed
use open_zone.Base.{ℕ, suc, Option, none, some, List, [], ◌∷◌, ◌++◌, Text, codes}
use open_zone.PacketLog.{Record, record_of, Logger, log}

-- A connection, with what NowTS returns, or an error.
pub data Accept : Type 0 where
  conn : Text → Accept
  error : Accept

-- What is done with a connection.
pub data ConnCall : Type 0 where
  set_deadline : ConnCall
  close : ConnCall

unfoldable pub startup_record : Text → Text → Text → Record
startup_record run_id ts addr = record (record_of run_id ts (codes "startup")) {
  experiment = codes "autoupdate-sink";
  message = codes "listening addr=" ++ addr;
}

unfoldable pub accept_record : Text → Text → Record
accept_record run_id ts = record (record_of run_id ts (codes "autoupdate")) {
  direction = codes "in";
  experiment = codes "autoupdate-sink";
  message = codes "accept+close";
}

-- The goroutine that accepts: the calls for each connection, and the log afterwards.
unfoldable pub accept_loop :
    Text → List Accept → Option Logger → List (List ConnCall) × Option Logger
accept_loop run_id [] l = ([], l)
accept_loop run_id (error ∷ rest) l = ([], l)
accept_loop run_id (conn ts ∷ rest) l =
    let (calls, l') = accept_loop run_id rest (log (accept_record run_id ts) l) in
    ((set_deadline ∷ close ∷ []) ∷ calls, l')

-- `StartSink` up to its goroutines: `listen` is the error of Listen, if it has one.
unfoldable pub start_sink :
    Text → Text → Text → Option Text → Option Logger → Option Text × Option Logger
start_sink run_id ts addr (some e) l = (some e, l)
start_sink run_id ts addr none l = (none, log (startup_record run_id ts addr) l)
