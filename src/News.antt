-- ===== src/News.antt =====
-- internal/news: the news text of templates/news.tmpl, and the handler of server.go that serves it.
-- The template is written out as the text that text/template makes of it.
pub mod LineEnds
pub mod Layout
pub mod Served
use open_zone.Base.{
  ℕ, Bool, true, false, not, ◌&&◌, ◌||◌, Option, none, some, List, [], ◌∷◌, ◌++◌, ◌⊎◌, inl, inr,
  Text, codes, text_eq, same_text, eqb, if◌then◌else◌,
}
use open_zone.Base.Attrs.{is_empty}
use open_zone.Base.Numbers.{decimal}
use open_zone.Base.Strings.{contains}
use open_zone.Proto.Xmlish.{starts_with_byte}

-- strings.ReplaceAll(s, "\r\n", "\n")
unfoldable pub crlf_to_lf : Text → Text
crlf_to_lf [] = []
crlf_to_lf (c ∷ s) =
    let rest = crlf_to_lf s in if eqb c b'\r' && starts_with_byte b'\n' s then rest else c ∷ rest

-- strings.ReplaceAll(s, "\n", "\r\n")
unfoldable pub lf_to_crlf : Text → Text
lf_to_crlf [] = []
lf_to_crlf (c ∷ s) =
    let rest = lf_to_crlf s in if eqb c b'\n' then b'\r' ∷ b'\n' ∷ rest else c ∷ rest

unfoldable pub ensure_crlf : Text → Text
unfolding crlf_to_lf lf_to_crlf
ensure_crlf s = if contains s (b'\n' ∷ []) then lf_to_crlf (crlf_to_lf s) else s

-- `Data`
pub record NewsData : Type 0 where
  pub tagline : Text
  pub created_by : Text
  pub version : Text
  pub server_time : Text
  pub players_online : ℕ
  pub games_hosted : ℕ
  pub message : Text

abbrev pub no_data : NewsData
no_data = record {
  tagline = [];
  created_by = [];
  version = [];
  server_time = [];
  players_online = 0;
  games_hosted = 0;
  message = [];
}

abbrev pub headline : Text → Text
headline tagline =
    if is_empty tagline then codes "The official OpenZone server - enjoy :)" else tagline

-- A line that stands only if its value does.
abbrev pub line_if : Text → Text → Text
line_if label v = if is_empty v then [] else b'\n' ∷ (label ++ v)

-- templates/news.tmpl
unfoldable pub news_text : NewsData → Text
news_text d =
    headline d.tagline
    ++ (codes "\n\nPlayers online: "
        ++ (decimal d.players_online
            ++ (codes "\nGames hosted: "
                ++ (decimal d.games_hosted
                    ++ (line_if (codes "Created by: ") d.created_by
                        ++ (codes "\nVersion: "
                            ++ (d.version
                                ++ (codes "\nServer time on last cache: "
                                    ++ (d.server_time
                                        ++ (line_if [] d.message ++ codes "\n"))))))))))

pub record Request : Type 0 where
  pub method : Text
  pub path : Text

-- What a handler writes; `allow` is the header of that name.
pub record Response : Type 0 where
  pub status : ℕ
  pub allow : Option Text
  pub content_type : Text
  pub body : Text

abbrev pub plain_text : Text
plain_text = codes "text/plain; charset=utf-8"

-- http.Error, which ends the body with a line feed
abbrev pub http_error : ℕ → Option Text → Text → Response
http_error status allow body = record {
  status = status;
  allow = allow;
  content_type = plain_text;
  body = body ++ (b'\n' ∷ []);
}

abbrev data_of : Option NewsData → NewsData
data_of none = no_data
data_of (some d) = d

-- The handler of `Start`. `provided` is what the provider returns, if there is one, and `execute` what
-- the template makes of it, if it makes something.
unfoldable pub serve : (NewsData → Option Text) → Option NewsData → Request → Response
unfolding ensure_crlf
serve execute provided r =
    if not (same_text r.path (codes "/"))
    then http_error 404 none (codes "404 page not found")
    else if not (same_text r.method (codes "GET")) && not (same_text r.method (codes "HEAD"))
    then http_error 405 (some (codes "GET, HEAD")) (codes "Method Not Allowed")
    else elim (execute (data_of provided)) [
      | none ↦ http_error 500 none (codes "News Template Error")
      | some s ↦ record {
        status = 200;
        allow = none;
        content_type = plain_text;
        body = ensure_crlf s;
      }
    ]

-- `loadTemplate`: `read` is the embedded file or an error, and `parse_template` what text/template makes
-- of it.
unfoldable pub load_template : {T : Type 0} → Text ⊎ Text → (Text → Text ⊎ T) → Text ⊎ T
load_template (inl e) parse_template = inl (codes "read embedded news template: " ++ e)
load_template (inr file) parse_template = elim (parse_template file) [
  | inl e ↦ inl (codes "parse embedded news template: " ++ e)
  | inr t ↦ inr t
]

pub data StartError : Type 0 where
  empty_addr : StartError
  bad_template : Text → StartError

-- The guards of `Start`; `loaded` is what loadTemplate returns.
unfoldable pub start : {T : Type 0} → Text → Text ⊎ T → Option StartError
start addr loaded =
    if is_empty addr
    then some empty_addr
    else elim loaded [ inl e ↦ some (bad_template e) | inr t ↦ none ]
