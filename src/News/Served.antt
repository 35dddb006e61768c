-- ===== src/News/Served.antt =====
-- The lines of the news that a client gets (internal/news/server.go, templates/news.tmpl).
use open_zone.Base.{ℕ, ◌≡◌, true, not, text_eq, eqb}

-- No carriage return.
abbrev NotReturn : ℕ → Type 0
NotReturn c = not (eqb c b'\r') ≡ true
