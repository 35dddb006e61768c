-- ===== src/Tests/Settings.antt =====
-- Settings through `Load` (internal/config/config.go), and news texts (internal/news/server.go).
use open_zone.Base.{
  ◌⊎◌, inl, inr, some, ◌≡◌, refl, false, [], Text, codes, text_eq, same_text, if◌then◌else◌, Bool,
}
use open_zone.Base.Strings.{trim_space, contains, cut, has_prefix}
use open_zone.Config.{LoadError, ℤ, pos, negsuc, load, read_config, invalid_news_port}
use open_zone.Config.Checks.{IsAccepted, load-IsAccepted}
use open_zone.News.{ensure_crlf, crlf_to_lf, lf_to_crlf, NewsData, news_text, Request, serve}

-- The defaults of the repository.
ints : Text → ℤ
ints k =
    if same_text k (codes "dp8.port")
    then pos 2300
    else if same_text k (codes "news.port")
    then pos 2301
    else if same_text k (codes "autoupdate.port")
    then pos 80
    else pos 0

strings : Text → Text
strings k =
    if same_text k (codes "shim.path")
    then codes "bin\\dp8shim.dll"
    else if same_text k (codes "server.version")
    then codes "0.1.0"
    else []

no_dir : Text → Bool
no_dir path = false

defaults : load ints strings no_dir ≡ inr (read_config ints strings no_dir)
unfolding load ints strings no_dir same_text trim_space
defaults = refl

no_news :
    load (λ k. if same_text k (codes "news.port") then negsuc 0 else ints k) strings no_dir
    ≡ inl (invalid_news_port (negsuc 0))
unfolding load ints strings no_dir same_text trim_space
no_news = refl

load-IsAccepted_example :
    ((load ints strings no_dir ≡ inr (read_config ints strings no_dir))
      × IsAccepted ints strings no_dir)
    ⊎ ((err : LoadError) × (load ints strings no_dir ≡ inl err)
        × (¬ (IsAccepted ints strings no_dir)))
load-IsAccepted_example = load-IsAccepted ints strings no_dir

converted : ensure_crlf (codes "a\nb\r\n") ≡ codes "a\r\nb\r\n"
unfolding ensure_crlf crlf_to_lf lf_to_crlf contains cut has_prefix
converted = refl

abbrev news : NewsData
news = record {
  tagline = [];
  created_by = codes "A";
  version = codes "0.1.0";
  server_time = codes "12:00";
  players_online = 3;
  games_hosted = 1;
  message = [];
}

abbrev get_news : Request
get_news = record { method = codes "GET"; path = codes "/" }

not_allowed :
    (serve
      (λ x. some (news_text x))
      (some news)
      (record { method = codes "PUT"; path = codes "/" })).status
    ≡ 405
unfolding serve same_text
not_allowed = refl
