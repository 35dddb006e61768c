-- ===== src/Config.antt =====
-- internal/config/config.go: what `Load` accepts.
-- The viper library reads the file, the environment and the defaults: `get_int` and `get_string` are what
-- it answers. `make_dir` says whether the directory of a path could be created.
pub mod Checks
use open_zone.Base.{
  ℕ, Bool, true, false, not, ◌&&◌, ◌||◌, ◌⊎◌, inl, inr, Text, codes, eqb, ltb, leb, if◌then◌else◌,
}
use open_zone.Base.Attrs.{is_empty}
use open_zone.Base.Strings.{trim_space}
use open_zone.Proto.Engine.{EngineConfig}

-- Go's `int`; `negsuc n` is -(n + 1).
pub data ℤ : Type 0 where
  pos : ℕ → ℤ
  negsuc : ℕ → ℤ

abbrev pub to_nat : ℤ → ℕ
to_nat (pos n) = n
to_nat (negsuc n) = 0

-- n < 0, n <= 0 and n > 65535
abbrev pub is_negative : ℤ → Bool
is_negative (pos n) = false
is_negative (negsuc n) = true

abbrev pub at_most_zero : ℤ → Bool
at_most_zero (pos n) = eqb n 0
at_most_zero (negsuc n) = true

abbrev pub above_ports : ℤ → Bool
above_ports (pos n) = ltb 65535 n
above_ports (negsuc n) = false

pub record Config : Type 0 where
  pub dp8_port : ℤ
  pub news_port : ℤ
  pub auto_port : ℤ
  pub server_created_by : Text
  pub server_version : Text
  pub server_tagline : Text
  pub shim_path : Text
  pub dp8_log_path : Text
  pub proto : EngineConfig

pub data LoadError : Type 0 where
  invalid_dp8_port : ℤ → LoadError
  invalid_advertise_port : ℤ → LoadError
  invalid_news_port : ℤ → LoadError
  invalid_auto_port : ℤ → LoadError
  empty_shim_path : LoadError
  empty_version : LoadError
  create_telemetry_dir : LoadError

module _ (get_int : Text → ℤ) (get_string : Text → Text) (make_dir : Text → Bool) where
  -- The configuration as it is read; the protocol engine's port is the DirectPlay port.
  abbrev pub read_config : Config
  read_config = record {
    dp8_port = get_int (codes "dp8.port");
    news_port = get_int (codes "news.port");
    auto_port = get_int (codes "autoupdate.port");
    server_created_by = trim_space (get_string (codes "server.created_by"));
    server_version = trim_space (get_string (codes "server.version"));
    server_tagline = trim_space (get_string (codes "server.tagline"));
    shim_path = get_string (codes "shim.path");
    dp8_log_path = get_string (codes "telemetry.dp8_ndjson_path");
    proto = record {
      port = to_nat (get_int (codes "dp8.port"));
      advertise_ip = trim_space (get_string (codes "dp8.advertise_ip"));
      advertise_port = to_nat (get_int (codes "dp8.advertise_port"));
    };
  }

  unfoldable pub load : LoadError ⊎ Config
  load =
      let cfg = read_config in
      let advertise_port = get_int (codes "dp8.advertise_port") in
      if at_most_zero cfg.dp8_port || above_ports cfg.dp8_port
      then inl (invalid_dp8_port cfg.dp8_port)
      else if is_negative advertise_port || above_ports advertise_port
      then inl (invalid_advertise_port advertise_port)
      else if at_most_zero cfg.news_port || above_ports cfg.news_port
      then inl (invalid_news_port cfg.news_port)
      else if is_negative cfg.auto_port || above_ports cfg.auto_port
      then inl (invalid_auto_port cfg.auto_port)
      else if is_empty (trim_space cfg.shim_path)
      then inl empty_shim_path
      else if is_empty cfg.server_version
      then inl empty_version
      else if not (is_empty (trim_space cfg.dp8_log_path)) && not (make_dir cfg.dp8_log_path)
      then inl create_telemetry_dir
      else inr cfg
