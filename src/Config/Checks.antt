-- ===== src/Config/Checks.antt =====
-- What a loaded configuration guarantees (internal/config/config.go).
use open_zone.Base.{
  ◌≤◌, ◌≡◌, ◌⊎◌, ◌∙◌, ap, sym, inl, inr, refl, Bool, true, false, ◌||◌, Text, codes, arith,
  if◌then◌else◌, subst,
}
use open_zone.Base.Attrs.{is_empty}
use open_zone.Base.Strings.{trim_space}
use open_zone.Config.{
  ℤ, pos, negsuc, to_nat, is_negative, at_most_zero, above_ports, Config, LoadError,
  create_telemetry_dir, read_config, load,
}

-- A port that a socket can be bound to, and one that may also be 0.
abbrev pub IsPort : ℤ → Type 0
IsPort n = (1 ≤ to_nat n) × (to_nat n ≤ 65535) × (n ≡ pos (to_nat n))

abbrev pub IsPortOrZero : ℤ → Type 0
IsPortOrZero n = (to_nat n ≤ 65535) × (n ≡ pos (to_nat n))

pub record IsConfig (cfg : Config) : Type 0 where
  pub dp8 : IsPort cfg.dp8_port
  pub news : IsPort cfg.news_port
  pub auto : IsPortOrZero cfg.auto_port
  pub advertised : cfg.proto.advertise_port ≤ 65535
  pub same : cfg.dp8_port ≡ pos cfg.proto.port
  pub shim : is_empty (trim_space cfg.shim_path) ≡ false
  pub version : is_empty cfg.server_version ≡ false

checked-IsPort : (n : ℤ) → at_most_zero n || above_ports n ≡ false → IsPort n
checked-IsPort (pos n) h = (ground arith, ground arith, refl)
checked-IsPort (negsuc n) h = absurd (cc)

checked-IsPortOrZero : (n : ℤ) → is_negative n || above_ports n ≡ false → IsPortOrZero n
checked-IsPortOrZero (pos n) h = (ground arith, refl)
checked-IsPortOrZero (negsuc n) h = absurd (cc)

-- A guard that did not refuse.
passed :
    (b : Bool) (err : LoadError) (next : LoadError ⊎ Config) (cfg : Config)
    → (if b then inl err else next) ≡ inr cfg
    → (b ≡ false) × (next ≡ inr cfg)
passed true err next cfg e = absurd (cc)
passed false err next cfg e = (refl, e)

-- What the checks of `Load` ask for: a configuration in range, an advertised port that is not negative, and
-- a telemetry directory that is not wanted or can be created.
abbrev pub IsAccepted : (Text → ℤ) → (Text → Text) → (Text → Bool) → Type 0
IsAccepted get_int get_string make_dir =
    IsConfig (read_config get_int get_string make_dir)
    × (is_negative (get_int (codes "dp8.advertise_port")) ≡ false)
    × (is_empty (trim_space (get_string (codes "telemetry.dp8_ndjson_path")))
          || make_dir (get_string (codes "telemetry.dp8_ndjson_path"))
        ≡ true)

load-checked :
    (get_int : Text → ℤ) (get_string : Text → Text) (make_dir : Text → Bool) (cfg : Config)
    → load get_int get_string make_dir ≡ inr cfg
    → (read_config get_int get_string make_dir ≡ cfg) × IsAccepted get_int get_string make_dir
unfolding load
load-checked get_int get_string make_dir cfg e =
    let raw = read_config get_int get_string make_dir in
    let (dp8, e1) = passed _ _ _ cfg e in
    let (advertise, e2) = passed _ _ _ cfg e1 in
    let (news, e3) = passed _ _ _ cfg e2 in
    let (auto, e4) = passed _ _ _ cfg e3 in
    let (shim, e5) = passed _ _ _ cfg e4 in
    let (version, e6) = passed _ _ _ cfg e5 in
    let (telemetry, e7) = passed _ create_telemetry_dir (inr raw) cfg e6 in
    let dp8_port = checked-IsPort raw.dp8_port dp8 in
    let checked : IsConfig raw = record {
      dp8 = dp8_port;
      news = checked-IsPort raw.news_port news;
      auto = checked-IsPortOrZero raw.auto_port auto;
      advertised = (checked-IsPortOrZero (get_int (codes "dp8.advertise_port")) advertise).0;
      same = dp8_port.2;
      shim = shim;
      version = version;
    } in
    (cc e7, (checked, ground arith, ground arith))

pub load-IsConfig :
    (get_int : Text → ℤ) (get_string : Text → Text) (make_dir : Text → Bool) (cfg : Config)
    → load get_int get_string make_dir ≡ inr cfg
    → IsConfig cfg
load-IsConfig get_int get_string make_dir cfg e =
    let (same, accepted) = load-checked get_int get_string make_dir cfg e in
    subst IsConfig same accepted.0

load-accepts :
    (get_int : Text → ℤ) (get_string : Text → Text) (make_dir : Text → Bool)
    → IsAccepted get_int get_string make_dir
    → load get_int get_string make_dir ≡ inr (read_config get_int get_string make_dir)
unfolding load
load-accepts get_int get_string make_dir (ok, signed, dir) =
    let raw = read_config get_int get_string make_dir in
    rw (port_accepted raw.dp8_port ok.dp8) (
      rw (signed, advertised_accepted (get_int (codes "dp8.advertise_port")) ok.advertised)
        (rw (port_accepted raw.news_port ok.news) (
          rw (zero_port_accepted raw.auto_port ok.auto)
            (rw ok.shim (rw ok.version (ground arith))))))
  where
    port_accepted : (n : ℤ) → IsPort n → at_most_zero n || above_ports n ≡ false
    port_accepted (pos n) h = ground arith
    port_accepted (negsuc n) h = absurd (cc (h.2))

    zero_port_accepted : (n : ℤ) → IsPortOrZero n → is_negative n || above_ports n ≡ false
    zero_port_accepted (pos n) h = ground arith
    zero_port_accepted (negsuc n) h = absurd (cc (h.1))

    advertised_accepted : (n : ℤ) → to_nat n ≤ 65535 → above_ports n ≡ false
    advertised_accepted (pos n) h = ground arith
    advertised_accepted (negsuc n) h = refl

-- `Load` either accepts or fails, and it accepts exactly what it should: the configuration as it was read, if
-- that has the DirectPlay and news ports between 1 and 65535, the auto-update and the advertised port between 0
-- and 65535, the DirectPlay port as the protocol engine's, a shim path and a version, and the telemetry
-- directory is not wanted or can be created; in every other case it returns an error.
pub load-IsAccepted :
    (get_int : Text → ℤ) (get_string : Text → Text) (make_dir : Text → Bool)
    → ((load get_int get_string make_dir ≡ inr (read_config get_int get_string make_dir))
        × IsAccepted get_int get_string make_dir)
      ⊎ ((err : LoadError) × (load get_int get_string make_dir ≡ inl err)
          × (¬ (IsAccepted get_int get_string make_dir)))
load-IsAccepted get_int get_string make_dir = by_result (load get_int get_string make_dir) refl
  where
    by_result :
        (r : LoadError ⊎ Config)
        → load get_int get_string make_dir ≡ r
        → ((load get_int get_string make_dir ≡ inr (read_config get_int get_string make_dir))
            × IsAccepted get_int get_string make_dir)
          ⊎ ((err : LoadError) × (load get_int get_string make_dir ≡ inl err)
              × (¬ (IsAccepted get_int get_string make_dir)))
    by_result (inl err) e = inr (err, e, λ ok. cc (load-accepts get_int get_string make_dir ok, e))
    by_result (inr cfg) e =
        let (same, ok) = load-checked get_int get_string make_dir cfg e in
        inl (e ∙ ap inr (sym same), ok)
