-- ===== src/Startup.antt =====
-- cmd/open-zone/main.go: the start and the end of the program.
-- A run is the calls that it makes, in order, and how it ends. `fatal` leaves through os.Exit, which runs
-- no deferred call. The log is left out; Shutdown is about what follows a signal.
pub mod Chains
pub mod Exits
pub mod Order
pub mod Shutdown
use open_zone.Base.{
  ℕ, ◌%◌, ◌^◌, Bool, true, false, not, Option, none, some, List, [], ◌∷◌, ◌++◌, ◌⊎◌, inl, inr, Text,
  codes, text_eq, same_text, eqb, if◌then◌else◌, map,
}
use open_zone.Base.Attrs.{is_empty}
use open_zone.Base.Numbers.{decimal}
use open_zone.State.Players.{PlayerStore, new_player_store, count}
use open_zone.State.Hosts.{HostStore, new_host_store}
use open_zone.State.Rows.{visible_games_count}
use open_zone.Config.{ℤ, to_nat, Config, LoadError, load}
use open_zone.News.{NewsData, StartError}
use open_zone.Proto.Engine.{Engine as ProtoEngine, new_engine}
use open_zone.Shim.{Shim, Outcome, ok, err, panics, start_server}
use open_zone.Shim as Bridge
use open_zone.News
use open_zone.Dp8.Engine.Polls.{Round, RunEnd, canceled, failed, panicked, run}

-- What the program finds around it.
pub record Env : Type 0 where
  pub get_int : Text → ℤ
  pub get_string : Text → Text
  pub make_dir : Text → Bool
  pub opens_log : Bool
  pub listens_tcp : ℕ → Bool
  pub listens_udp : ℕ → Bool
  pub has_file : Text → Bool
  pub exports : Text → Bool
  pub dll_error : Option Text
  pub start_code : ℕ
  pub read_template : Text ⊎ Text
  pub parse_template : Text → Text ⊎ Unit {0}
  pub rounds : List Round

-- The calls that `main` defers.
pub data Cleanup : Type 0 where
  close_log : Cleanup
  stop_dp8 : Cleanup

-- The calls that show outside.
pub data Call : Type 0 where
  open_log : Text → Call
  start_sink : ℕ → Call
  try_tcp : ℕ → Call
  try_udp : ℕ → Call
  load_shim : Text → Call
  start_dp8 : ℕ → Call
  start_news : ℕ → Call
  run_engine : Call
  cleans : Cleanup → Call

-- How a part of `main` ends: it returns, it exits, it panics, or it goes on for ever.
pub data Ending (A : Type 0) : Type 0 where
  returns : A → Ending A
  exits : ℕ → Ending A
  crashes : Ending A
  goes_on : Ending A

-- The calls that a part makes, those that it defers, the last first, and how it ends.
pub record Main (A : Type 0) : Type 0 where
  pub calls : List Call
  pub deferred : List Cleanup
  pub ending : Ending A

abbrev pub ends_in : {A : Type 0} → Ending A → Main A
ends_in e = record { calls = []; deferred = []; ending = e }

abbrev pub then_run : {B : Type 0} → List Call → List Cleanup → Main B → Main B
then_run cs ds m = record { calls = cs ++ m.calls; deferred = m.deferred ++ ds; ending = m.ending }

abbrev pub continue : {A B : Type 0} → List Call → List Cleanup → Ending A → (A → Main B) → Main B
continue cs ds (returns a) f = then_run cs ds (f a)
continue cs ds (exits n) f = record { calls = cs; deferred = ds; ending = exits n }
continue cs ds crashes f = record { calls = cs; deferred = ds; ending = crashes }
continue cs ds goes_on f = record { calls = cs; deferred = ds; ending = goes_on }

infixl 5 ◌>>=◌ ◌>>◌
abbrev pub ◌>>=◌ : {A B : Type 0} → Main A → (A → Main B) → Main B
m >>= f = continue m.calls m.deferred m.ending f

abbrev pub ◌>>◌ : {B : Type 0} → Main (Unit {0}) → Main B → Main B
m >> k = m >>= λ _. k

abbrev pub calls : Call → Main (Unit {0})
calls c = record { calls = c ∷ []; deferred = []; ending = returns tt }

abbrev pub defers : Cleanup → Main (Unit {0})
defers c = record { calls = []; deferred = c ∷ []; ending = returns tt }

-- if err != nil { fatal(…) }
abbrev pub or_fatal : Bool → Main (Unit {0})
or_fatal true = ends_in (returns tt)
or_fatal false = ends_in (exits 1)

abbrev pub done : Main (Unit {0})
done = ends_in (returns tt)

abbrev pub bridge_loaded : Text ⊎ Shim → Main Shim
bridge_loaded (inl e) = ends_in (exits 1)
bridge_loaded (inr s) = ends_in (returns s)

module _ (env : Env) where
  -- The packet log, if it has a path.
  unfoldable pub open_telemetry : Config → Main (Unit {0})
  open_telemetry cfg =
      if is_empty cfg.dp8_log_path
      then done
      else (do calls (open_log cfg.dp8_log_path); or_fatal env.opens_log; defers close_log)

  -- A sink that cannot listen is only reported.
  unfoldable pub open_sink : Config → Main (Unit {0})
  open_sink cfg =
      if eqb (to_nat cfg.auto_port) 0 then done else calls (start_sink (to_nat cfg.auto_port))

  unfoldable pub preflight_port : ℕ → Main (Unit {0})
  preflight_port port = do
    calls (try_tcp port)
    or_fatal (env.listens_tcp port)
    calls (try_udp port)
    or_fatal (env.listens_udp port)

  -- The bridge, by its file.
  unfoldable pub load_bridge : Config → Main Shim
  load_bridge cfg = do
    or_fatal (env.has_file cfg.shim_path)
    calls (load_shim cfg.shim_path)
    bridge_loaded (Bridge.load env.exports cfg.shim_path env.dll_error)

  abbrev pub started : Outcome (Unit {0}) → Main (Unit {0})
  started (ok u) = defers stop_dp8
  started (err t) = ends_in (exits 1)
  started panics = ends_in crashes

  unfoldable pub start_bridge : Config → Shim → Main (Unit {0})
  start_bridge cfg s = do
    calls (start_dp8 (to_nat cfg.dp8_port % 2 ^ 16))
    started (start_server env.exports (some s) (to_nat cfg.dp8_port % 2 ^ 16) env.start_code)

  abbrev pub news_started : Option StartError → Main (Unit {0})
  news_started none = done
  news_started (some e) = ends_in (exits 1)

  unfoldable pub start_news_server : Config → Main (Unit {0})
  start_news_server cfg = do
    news_started (
        News.start (codes ":" ++ decimal (to_nat cfg.news_port))
          (News.load_template env.read_template env.parse_template))
    calls (start_news (to_nat cfg.news_port))

  -- engine.Run returned with this; context.Canceled is no error.
  abbrev pub engine_ended : Option RunEnd → Main (Unit {0})
  engine_ended none = ends_in goes_on
  engine_ended (some canceled) = done
  engine_ended (some (failed t)) = ends_in (exits 1)
  engine_ended (some panicked) = ends_in crashes

  unfoldable pub run_bridge : Shim → Main (Unit {0})
  run_bridge s = do calls run_engine; engine_ended (run env.exports (some s) env.rounds).1

  unfoldable pub with_config : Config → Main (Unit {0})
  with_config cfg = do
    open_telemetry cfg
    open_sink cfg
    preflight_port (to_nat cfg.dp8_port)
    s ← load_bridge cfg
    start_bridge cfg s
    start_news_server cfg
    run_bridge s

  abbrev pub configured : LoadError ⊎ Config → Main (Unit {0})
  configured (inl e) = ends_in (exits 1)
  configured (inr cfg) = with_config cfg

  unfoldable pub body : Main (Unit {0})
  body = configured (load env.get_int env.get_string env.make_dir)

  -- Deferred calls run when `main` returns or panics, and not when it exits.
  abbrev pub unwind : Main (Unit {0}) → List Call
  unwind m = elim (m.ending) [
    | returns u ↦ m.calls ++ map cleans m.deferred
    | crashes ↦ m.calls ++ map cleans m.deferred
    | exits n ↦ m.calls
    | goes_on ↦ m.calls
  ]

  unfoldable pub main : List Call × Ending (Unit {0})
  main = (unwind body, body.ending)

-- The provider of the news.
unfoldable pub news_data : Config → Text → PlayerStore → HostStore → NewsData
news_data cfg server_time players hosts = record {
  tagline = cfg.server_tagline;
  created_by = cfg.server_created_by;
  version = cfg.server_version;
  server_time = server_time;
  players_online = count players;
  games_hosted = visible_games_count hosts;
  message = [];
}
