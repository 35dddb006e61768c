-- ===== src/Startup/Exits.antt =====
-- What is left undone when the program exits (cmd/open-zone/main.go).
use open_zone.Base.{ℕ, ◌≡◌, refl, Bool, true, false, ◌⊎◌, inl, inr, arith}
use open_zone.Config.{Config, LoadError, to_nat, load}
use open_zone.Shim.{Shim}
use open_zone.Startup.{
  Env, Call, cleans, exits, goes_on, open_telemetry, open_sink, preflight_port, load_bridge,
  start_bridge, start_news_server, run_bridge, with_config, configured, body, main,
}
use open_zone.Startup.Chains.{any, bind-none}

abbrev pub is_cleanup : Call → Bool
is_cleanup (cleans c) = true
is_cleanup _ = false

telemetry-none : (env : Env) (cfg : Config) → any is_cleanup (open_telemetry env cfg).calls ≡ false
unfolding open_telemetry
telemetry-none env cfg = ground arith

sink-none : (env : Env) (cfg : Config) → any is_cleanup (open_sink env cfg).calls ≡ false
unfolding open_sink
sink-none env cfg = ground arith

preflight-none : (env : Env) (port : ℕ) → any is_cleanup (preflight_port env port).calls ≡ false
unfolding preflight_port
preflight-none env port = ground arith

load-none : (env : Env) (cfg : Config) → any is_cleanup (load_bridge env cfg).calls ≡ false
unfolding load_bridge
load-none env cfg = ground arith

start-none :
    (env : Env) (cfg : Config) (s : Shim) → any is_cleanup (start_bridge env cfg s).calls ≡ false
unfolding start_bridge
start-none env cfg s = ground arith

news-none : (env : Env) (cfg : Config) → any is_cleanup (start_news_server env cfg).calls ≡ false
unfolding start_news_server
news-none env cfg = ground arith

run-none : (env : Env) (s : Shim) → any is_cleanup (run_bridge env s).calls ≡ false
unfolding run_bridge
run-none env s = ground arith

with_config-none : (env : Env) (cfg : Config) → any is_cleanup (with_config env cfg).calls ≡ false
unfolding with_config
with_config-none env cfg =
    bind-none is_cleanup (open_telemetry env cfg) _ (telemetry-none env cfg) (λ _.
      bind-none is_cleanup (open_sink env cfg) _ (sink-none env cfg) (λ _.
        bind-none is_cleanup (preflight_port env (to_nat cfg.dp8_port)) _
          (preflight-none env (to_nat cfg.dp8_port))
          (λ _. bind-none is_cleanup (load_bridge env cfg) _ (load-none env cfg) (λ s.
            bind-none is_cleanup (start_bridge env cfg s) _ (start-none env cfg s) (λ _.
              bind-none is_cleanup (start_news_server env cfg) _ (news-none env cfg)
                (λ _. run-none env s))))))

configured-none :
    (env : Env) (l : LoadError ⊎ Config) → any is_cleanup (configured env l).calls ≡ false
configured-none env (inl e) = refl
configured-none env (inr cfg) = with_config-none env cfg

body-none : (env : Env) → any is_cleanup (body env).calls ≡ false
unfolding body
body-none env = configured-none env (load env.get_int env.get_string env.make_dir)

-- When the program leaves through `fatal`, with whatever code, or when the engine's loop goes on for ever, it
-- has neither stopped the DirectPlay server nor closed the packet log.
pub main-exits :
    (env : Env)
    → ((n : ℕ) × ((main env).1 ≡ exits n)) ⊎ ((main env).1 ≡ goes_on)
    → any is_cleanup (main env).0 ≡ false
unfolding main
main-exits env (inl (n, leaves)) = rw leaves (body-none env)
main-exits env (inr stays) = rw stays (body-none env)
