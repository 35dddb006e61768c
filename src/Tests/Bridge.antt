-- ===== src/Tests/Bridge.antt =====
-- The native bridge and the loop over it (internal/dp8shim, internal/dp8/engine.go), and the start of
-- the program (cmd/open-zone/main.go).
use open_zone.Base.{
  ℕ, zero, suc, ◌≤◌, ◌≡◌, ◌≢◌, refl, Bool, true, false, none, some, inl, inr, List, [], ◌∷◌, ◌++◌,
  Text, codes, text_eq, same_text, if◌then◌else◌, length, arith, All,
}
use open_zone.Base.Strings.{trim_space}
use open_zone.News.{start, load_template}
use open_zone.Config.{ℤ, pos, Config, load}
use open_zone.Shim.{
  Shim, RawEvent, Popped, ok, panics, new_shim, missing_exports, start_server, stop_server,
  pop_event, popped_event, clamped, send_to, queue_depth,
}
use open_zone.Shim as Bridge
use open_zone.Shim.Safe.{load-calls}
use open_zone.Dp8.Engine.Polls.{
  Round, done, polls, canceled, panicked, or_canceled, run, turn, IsSmall, run-loaded,
}
use open_zone.Startup.{
  Env, exits, main, body, with_config, open_telemetry, open_sink, preflight_port, load_bridge,
  start_bridge, start_news_server, run_bridge,
}
use open_zone.Startup.Chains.{any}
use open_zone.Startup.Exits.{is_cleanup, main-exits}
use open_zone.Startup.Order.{starts_at, main-starts}

all_exports : Text → Bool
all_exports name = true

abbrev path : Text
path = codes "bin\\dp8shim.dll"

loaded : Bridge.load all_exports path none ≡ inr new_shim
unfolding Bridge.load all_exports missing_exports
loaded = refl

-- The library lacks DP8_SendTo.
no_send : Text → Bool
no_send name = if same_text name (codes "DP8_SendTo") then false else true

missing :
    missing_exports no_send ((codes "DP8_SendTo", some (codes "DP8_SendTo")) ∷ [])
    ≡ codes "DP8_SendTo" ∷ []
unfolding no_send missing_exports same_text
missing = refl

-- The native code says that its event has 9 bytes, and the buffer has 4.
abbrev long : Popped
long = record {
  code = 1;
  event = record { msg_id = 0xffff0011; dpnid = 7; data_len = 9; flags = 0; ts_unix_ms = 5 };
  buffer = codes "<A/>";
}

popped :
    pop_event all_exports (some new_shim) long
    ≡ ok (
        some (
          record { msg_id = 0xffff0011; dpnid = 7; data_len = 4; flags = 0; ts_unix_ms = 5 },
          codes "<A/>",
        ))
unfolding pop_event popped_event clamped all_exports
popped = refl

load-calls_example :
    (start_server all_exports (some new_shim) 2300 0 ≢ panics)
    × (stop_server all_exports (some new_shim) 0 ≢ panics)
    × (pop_event all_exports (some new_shim) long ≢ panics)
    × (send_to all_exports (some new_shim) 7 (codes "<A/>") 8 0 ≢ panics)
    × (queue_depth all_exports (some new_shim) 0 ≢ panics)
load-calls_example =
    load-calls all_exports path none new_shim long loaded (omega arith) 2300 7 8 0 (codes "<A/>")

zeros : ℕ → Text
zeros zero = []
zeros (suc n) = 0 ∷ zeros n

length-zeros : (n : ℕ) → length (zeros n) ≡ n
unfolding zeros
length-zeros zero = refl
length-zeros (suc n) = omega (arith, length-zeros n)

-- A connect event without bytes, in the engine's buffer.
abbrev connected : Popped
connected = record {
  code = 1;
  event = record { msg_id = 0xffff0007; dpnid = 7; data_len = 0; flags = 0; ts_unix_ms = 5 };
  buffer = zeros 65536;
}

abbrev rounds : List Round
rounds = polls connected 100 100 (101, 102) ∷ []

run-loaded_example :
    All IsSmall (run all_exports (some new_shim) rounds).0
    × ((run all_exports (some new_shim) rounds).1 ≢ some panicked)
    × (run all_exports (some new_shim) (rounds ++ done ∷ rounds) ≡ (
      (run all_exports (some new_shim) rounds).0,
      some (or_canceled (run all_exports (some new_shim) rounds).1),
    ))
run-loaded_example =
    run-loaded all_exports path none new_shim rounds rounds loaded (length-zeros 65536, tt)

stops : run all_exports (some new_shim) (done ∷ rounds) ≡ ([], some canceled)
unfolding run turn
stops = refl

-- The default ports, with a news template that cannot be parsed.
ints : Text → ℤ
ints k = if same_text k (codes "dp8.port") then pos 2300 else pos 80

strings : Text → Text
strings k = if same_text k (codes "server.version") then codes "0.1.0" else codes "x"

abbrev env : Env
env = record {
  get_int = ints;
  get_string = strings;
  make_dir = λ p. true;
  opens_log = true;
  listens_tcp = λ p. true;
  listens_udp = λ p. true;
  has_file = λ p. true;
  exports = all_exports;
  dll_error = none;
  start_code = 0;
  read_template = inr [];
  parse_template = λ t. inl (codes "bad");
  rounds = [];
}

runs_here : ((main env).1 ≡ exits 1) × (any (starts_at 2300) (main env).0 ≡ true)
unfolding main body with_config open_telemetry open_sink preflight_port load_bridge start_bridge
    start_news_server run_bridge ints strings all_exports same_text load trim_space Bridge.load
    missing_exports start_server start load_template
runs_here = (refl, refl)

main-exits_example : any is_cleanup (main env).0 ≡ false
main-exits_example = main-exits env (inl (1, runs_here.0))

main-starts_example :
    (cfg : Config) × (load ints strings env.make_dir ≡ inr cfg)
    × (cfg.dp8_port ≡ pos 2300)
    × (1 ≤ 2300)
    × (2300 ≤ 65535)
    × (env.listens_tcp 2300 ≡ true)
    × (env.listens_udp 2300 ≡ true)
    × (env.has_file cfg.shim_path ≡ true)
    × ((s : Shim) × (Bridge.load env.exports cfg.shim_path env.dll_error ≡ inr s))
main-starts_example = main-starts env 2300 runs_here.1
