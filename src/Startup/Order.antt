-- ===== src/Startup/Order.antt =====
-- What comes before the start of the server, and what is left undone (cmd/open-zone/main.go).
use open_zone.Base.{
  ℕ, ◌%◌, ◌^◌, ◌≤◌, map, ◌≡◌, refl, ◌∙◌, sym, ap, Bool, true, false, ◌⊎◌, inl, inr, some, List, [],
  ◌∷◌, arith, eqb, eqb_iff,
}
use open_zone.Config.{pos, Config, LoadError, to_nat, load}
use open_zone.Config.Checks.{load-IsConfig}
use open_zone.Shim.{Shim, Outcome, ok, err, panics, start_server}
use open_zone.Shim as Bridge
use open_zone.Startup.{
  Env, Cleanup, Call, cleans, start_dp8, Ending, returns, exits, crashes, goes_on, calls,
  open_telemetry, open_sink, preflight_port, load_bridge, start_bridge, started, start_news_server,
  run_bridge, with_config, configured, body, main, unwind,
}
use open_zone.Startup.Chains.{any, any-append, bind-calls, bind-skip}

abbrev pub starts_at : ℕ → Call → Bool
starts_at port (start_dp8 p) = eqb p port
starts_at port _ = false

telemetry-quiet :
    (env : Env) (cfg : Config) (port : ℕ)
    → any (starts_at port) (open_telemetry env cfg).calls ≡ false
unfolding open_telemetry
telemetry-quiet env cfg port = ground arith

sink-quiet :
    (env : Env) (cfg : Config) (port : ℕ) → any (starts_at port) (open_sink env cfg).calls ≡ false
unfolding open_sink
sink-quiet env cfg port = ground arith

preflight-quiet :
    (env : Env) (p port : ℕ) → any (starts_at port) (preflight_port env p).calls ≡ false
unfolding preflight_port
preflight-quiet env p port = ground arith

load-quiet :
    (env : Env) (cfg : Config) (port : ℕ) → any (starts_at port) (load_bridge env cfg).calls ≡ false
unfolding load_bridge
load-quiet env cfg port = ground arith

news-quiet :
    (env : Env) (cfg : Config) (port : ℕ)
    → any (starts_at port) (start_news_server env cfg).calls ≡ false
unfolding start_news_server
news-quiet env cfg port = ground arith

run-quiet :
    (env : Env) (s : Shim) (port : ℕ) → any (starts_at port) (run_bridge env s).calls ≡ false
unfolding run_bridge
run-quiet env s port = ground arith

preflight-returns :
    (env : Env) (p : ℕ) (u : Unit {0})
    → (preflight_port env p).ending ≡ returns u
    → (env.listens_tcp p ≡ true) × (env.listens_udp p ≡ true)
unfolding preflight_port
preflight-returns env p u h = (ground arith, ground arith)

load-returns :
    (env : Env) (cfg : Config) (s : Shim)
    → (load_bridge env cfg).ending ≡ returns s
    → (env.has_file cfg.shim_path ≡ true)
      × (Bridge.load env.exports cfg.shim_path env.dll_error ≡ inr s)
unfolding load_bridge
load-returns env cfg s h = (ground arith, ground arith)

started-quiet :
    (env : Env) (o : Outcome (Unit {0})) (port : ℕ)
    → any (starts_at port) (started env o).calls ≡ false
started-quiet env (ok u) port = refl
started-quiet env (err t) port = refl
started-quiet env panics port = refl

start-at :
    (env : Env) (cfg : Config) (s : Shim) (port : ℕ)
    → any (starts_at port) (start_bridge env cfg s).calls ≡ true
    → to_nat cfg.dp8_port % 2 ^ 16 ≡ port
unfolding start_bridge
start-at env cfg s port h =
    let p = to_nat cfg.dp8_port % 2 ^ 16 in
    let opened = start_server env.exports (some s) p env.start_code in
    elim (bind-calls (starts_at port) (calls (start_dp8 p)) (λ _. started env opened) h) [
      | inl here ↦ (eqb_iff p port).0 (ground arith)
      | inr (_, _, later) ↦ absurd (cc (started-quiet env opened port))
    ]

-- What the start of the server depends on, for a configuration.
pub record IsReady (env : Env) (cfg : Config) (port : ℕ) : Type 0 where
  pub at : port ≡ to_nat cfg.dp8_port % 2 ^ 16
  pub tcp : env.listens_tcp (to_nat cfg.dp8_port) ≡ true
  pub udp : env.listens_udp (to_nat cfg.dp8_port) ≡ true
  pub file : env.has_file cfg.shim_path ≡ true
  pub bridge : (s : Shim) × (Bridge.load env.exports cfg.shim_path env.dll_error ≡ inr s)

with_config-starts :
    (env : Env) (cfg : Config) (port : ℕ)
    → any (starts_at port) (with_config env cfg).calls ≡ true
    → IsReady env cfg port
unfolding with_config
with_config-starts env cfg port h =
    let p = starts_at port in
    let (_, _, h1) = bind-skip p (open_telemetry env cfg) _ (telemetry-quiet env cfg port) h in
    let (_, _, h2) = bind-skip p (open_sink env cfg) _ (sink-quiet env cfg port) h1 in
    let (u, checked, h3) =
      bind-skip p (preflight_port env (to_nat cfg.dp8_port)) _
        (preflight-quiet env (to_nat cfg.dp8_port) port) h2 in
    let (s, loaded, h4) = bind-skip p (load_bridge env cfg) _ (load-quiet env cfg port) h3 in
    let (tcp, udp) = preflight-returns env (to_nat cfg.dp8_port) u checked in
    let (file, bridge) = load-returns env cfg s loaded in
    elim (bind-calls p (start_bridge env cfg s) _ h4) [
      | inl here ↦ record {
        at = sym (start-at env cfg s port here);
        tcp = tcp;
        udp = udp;
        file = file;
        bridge = (s, bridge);
      }
      | inr (_, _, h5) ↦
          let (_, _, h6) = bind-skip p (start_news_server env cfg) _ (news-quiet env cfg port) h5 in
          absurd (cc (run-quiet env s port))
    ]

cleanups-quiet : (ds : List Cleanup) (port : ℕ) → any (starts_at port) (map cleans ds) ≡ false
cleanups-quiet [] port = refl
cleanups-quiet (d ∷ ds) port = cleanups-quiet ds port

unwind-calls :
    (env : Env) (port : ℕ) (cs : List Call) (ds : List Cleanup) (e : Ending (Unit {0}))
    → any (starts_at port) (unwind env (record { calls = cs; deferred = ds; ending = e })) ≡ true
    → any (starts_at port) cs ≡ true
unwind-calls env port cs ds (returns u) h =
    ground (arith, any-append (starts_at port) cs (map cleans ds), cleanups-quiet ds port)
unwind-calls env port cs ds crashes h =
    ground (arith, any-append (starts_at port) cs (map cleans ds), cleanups-quiet ds port)
unwind-calls env port cs ds (exits n) h = h
unwind-calls env port cs ds goes_on h = h

configured-starts :
    (env : Env) (l : LoadError ⊎ Config) (port : ℕ)
    → any (starts_at port) (configured env l).calls ≡ true
    → (cfg : Config) × (l ≡ inr cfg) × IsReady env cfg port
configured-starts env (inl e) port h = absurd (cc)
configured-starts env (inr cfg) port h = (cfg, refl, with_config-starts env cfg port h)

-- If the DirectPlay server is started, then at the port of a configuration that `Load` accepts, which is not 0
-- and fits in 16 bits, and only when both probes of that port have succeeded, the bridge's file is there
-- and `Load` of the bridge has found its exports.
pub main-starts :
    (env : Env) (port : ℕ)
    → any (starts_at port) (main env).0 ≡ true
    → (cfg : Config) × (load env.get_int env.get_string env.make_dir ≡ inr cfg)
      × (cfg.dp8_port ≡ pos port)
      × (1 ≤ port)
      × (port ≤ 65535)
      × (env.listens_tcp port ≡ true)
      × (env.listens_udp port ≡ true)
      × (env.has_file cfg.shim_path ≡ true)
      × ((s : Shim) × (Bridge.load env.exports cfg.shim_path env.dll_error ≡ inr s))
unfolding main body
main-starts env port h =
    let l = load env.get_int env.get_string env.make_dir in
    let started_here =
      unwind-calls env port (body env).calls (body env).deferred (body env).ending h in
    let (cfg, loaded, ready) = configured-starts env l port started_here in
    let checked = load-IsConfig env.get_int env.get_string env.make_dir cfg loaded in
    let (low, high, same) = checked.dp8 in
    let at : port ≡ to_nat cfg.dp8_port = omega (arith, ready.at) in
    (
      cfg,
      loaded,
      same ∙ ap pos (sym at),
      omega arith,
      omega arith,
      rw at ready.tcp,
      rw at ready.udp,
      ready.file,
      ready.bridge,
    )
