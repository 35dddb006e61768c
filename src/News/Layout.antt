-- ===== src/News/Layout.antt =====
-- The lines of the news text (internal/news/templates/news.tmpl).
use open_zone.Base.{
  ℕ, ◌≡◌, ap, ◌∙◌, List, [], ◌∷◌, ◌++◌, Text, codes, text_eq, arith, if◌then◌else◌, All, All-append,
  All-map,
}
use open_zone.Base.Attrs.{is_empty}
use open_zone.Base.Lines.{IsPrintable, lines, lines-cons, lines-labelled}
use open_zone.Base.Numbers.{decimal, All-decimal}
use open_zone.News.{NewsData, headline, line_if, news_text}

-- The texts of the data hold no control characters.
pub record IsPlain (d : NewsData) : Type 0 where
  pub tagline_plain : All IsPrintable d.tagline
  pub created_by_plain : All IsPrintable d.created_by
  pub version_plain : All IsPrintable d.version
  pub server_time_plain : All IsPrintable d.server_time
  pub message_plain : All IsPrintable d.message

abbrev optional_line : Text → Text → List Text
optional_line label v = if is_empty v then [] else (label ++ v) ∷ []

-- The lines that the news should have.
abbrev pub news_lines : NewsData → List Text
news_lines d =
    headline d.tagline
    ∷ []
    ∷ (codes "Players online: " ++ decimal d.players_online)
    ∷ (codes "Games hosted: " ++ decimal d.games_hosted)
    ∷ (optional_line (codes "Created by: ") d.created_by
        ++ ((codes "Version: " ++ d.version)
            ∷ (codes "Server time on last cache: " ++ d.server_time)
            ∷ optional_line [] d.message))

pub decimal-IsPrintable : (n : ℕ) → All IsPrintable (decimal n)
decimal-IsPrintable n = All-map (decimal n) (λ c d. ground arith) (All-decimal n)

pub headline-IsPrintable : (t : Text) → All IsPrintable t → All IsPrintable (headline t)
headline-IsPrintable [] h = omega arith
headline-IsPrintable (c ∷ t) h = h

message_lines :
    (time msg : Text)
    → All IsPrintable time
    → All IsPrintable msg
    → lines (codes "Server time on last cache: " ++ (time ++ (line_if [] msg ++ b'\n' ∷ [])))
      ≡ (codes "Server time on last cache: " ++ time) ∷ optional_line [] msg
message_lines time [] ht hm =
    lines-labelled (codes "Server time on last cache: ") time [] (omega arith) ht
message_lines time (c ∷ m) ht hm =
    lines-labelled (codes "Server time on last cache: ") time ((c ∷ m) ++ b'\n' ∷ []) (omega arith)
      ht
    ∙ ap (λ (ls : List Text). (codes "Server time on last cache: " ++ time) ∷ ls)
        (lines-cons (c ∷ m) [] hm)

version_lines :
    (version time msg : Text)
    → All IsPrintable version
    → All IsPrintable time
    → All IsPrintable msg
    → lines (
        codes "Version: "
        ++ (version
            ++ (codes "\nServer time on last cache: " ++ (time ++ (line_if [] msg ++ b'\n' ∷ [])))))
      ≡ (codes "Version: " ++ version)
        ∷ (codes "Server time on last cache: " ++ time)
        ∷ optional_line [] msg
version_lines version time msg hv ht hm =
    lines-labelled (codes "Version: ") version _ (omega arith) hv
    ∙ ap (λ (ls : List Text). (codes "Version: " ++ version) ∷ ls) (message_lines time msg ht hm)

-- The text from the line of the version on, and its lines.
abbrev version_part : NewsData → Text
version_part d =
    codes "Version: "
    ++ (d.version
        ++ (codes "\nServer time on last cache: "
            ++ (d.server_time ++ (line_if [] d.message ++ b'\n' ∷ []))))

abbrev version_part_lines : NewsData → List Text
version_part_lines d =
    (codes "Version: " ++ d.version)
    ∷ (codes "Server time on last cache: " ++ d.server_time)
    ∷ optional_line [] d.message

games_lines :
    (d : NewsData) (created_by : Text)
    → IsPlain d
    → All IsPrintable created_by
    → lines (
        codes "Games hosted: "
        ++ (decimal d.games_hosted
            ++ (line_if (codes "Created by: ") created_by ++ (b'\n' ∷ version_part d))))
      ≡ (codes "Games hosted: " ++ decimal d.games_hosted)
        ∷ (optional_line (codes "Created by: ") created_by ++ version_part_lines d)
games_lines d [] h hc =
    lines-labelled (codes "Games hosted: ") (decimal d.games_hosted) (version_part d) (omega arith)
      (decimal-IsPrintable d.games_hosted)
    ∙ ap (λ (ls : List Text). (codes "Games hosted: " ++ decimal d.games_hosted) ∷ ls)
        (version_lines d.version d.server_time d.message h.version_plain h.server_time_plain
          h.message_plain)
games_lines d (c ∷ t) h hc =
    let by = codes "Created by: " ++ (c ∷ t) in
    lines-labelled (codes "Games hosted: ") (decimal d.games_hosted)
      (by ++ (b'\n' ∷ version_part d)) (omega arith) (decimal-IsPrintable d.games_hosted)
    ∙ ap (λ (ls : List Text). (codes "Games hosted: " ++ decimal d.games_hosted) ∷ ls)
        (lines-cons by (version_part d)
            (All-append IsPrintable (codes "Created by: ") (c ∷ t) (omega arith) hc)
          ∙ ap (λ (ls : List Text). by ∷ ls)
              (version_lines d.version d.server_time d.message h.version_plain h.server_time_plain
                h.message_plain))

pub news_text-lines : (d : NewsData) → IsPlain d → lines (news_text d) ≡ news_lines d
unfolding news_text
news_text-lines d h =
    lines-cons (headline d.tagline) _ (headline-IsPrintable d.tagline h.tagline_plain)
    ∙ ap (λ (ls : List Text). headline d.tagline ∷ [] ∷ ls)
        (lines-labelled (codes "Players online: ") (decimal d.players_online) _ (omega arith)
            (decimal-IsPrintable d.players_online)
          ∙ ap (λ (ls : List Text). (codes "Players online: " ++ decimal d.players_online) ∷ ls)
              (games_lines d d.created_by h h.created_by_plain))
