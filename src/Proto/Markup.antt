-- ===== src/Proto/Markup.antt =====
-- The markup that the handlers of internal/proto/protocol.go print, and its escaping.
-- A format string such as `<X A="%s" B="%s" />` is `printed` of the tag and the attributes in order.
pub mod Escape
use open_zone.Base.{ℕ, List, [], ◌∷◌, ◌++◌, Text, codes, eqb, if◌then◌else◌, zero, suc}

-- ` k="v"` for each attribute in turn
abbrev pub spaced : List (Text × Text) → Text
spaced [] = []
spaced ((k, v) ∷ r) = 32 ∷ (k ++ (61 ∷ 34 ∷ (v ++ (34 ∷ spaced r))))

-- `<Tag k="v" … />`
unfoldable pub printed : Text → List (Text × Text) → Text
printed tag r = 60 ∷ (tag ++ (spaced r ++ (32 ∷ 47 ∷ 62 ∷ [])))

-- `<Tag k="v" …>`, with a body and the closing tag
unfoldable pub wrapped : Text → List (Text × Text) → Text → Text
wrapped tag r body = 60 ∷ (tag ++ (spaced r ++ (62 ∷ (body ++ (60 ∷ 47 ∷ (tag ++ (62 ∷ [])))))))

escape_attr_byte : ℕ → Text
escape_attr_byte c =
    if eqb c b'&'
    then codes "&amp;"
    else if eqb c b'"'
    then codes "&quot;"
    else if eqb c b'<'
    then codes "&lt;"
    else if eqb c b'>'
    then codes "&gt;"
    else c ∷ []

-- `xmlEscapeAttr`: a replacer of single bytes, in one pass
unfoldable pub xml_escape_attr : Text → Text
unfolding escape_attr_byte
xml_escape_attr [] = []
xml_escape_attr (c ∷ s) = escape_attr_byte c ++ xml_escape_attr s

escape_text_byte : ℕ → Text
escape_text_byte c =
    if eqb c b'&'
    then codes "&amp;"
    else if eqb c b'<'
    then codes "&lt;"
    else if eqb c b'>'
    then codes "&gt;"
    else c ∷ []

-- `xmlEscapeText`
unfoldable pub xml_escape_text : Text → Text
unfolding escape_text_byte
xml_escape_text [] = []
xml_escape_text (c ∷ s) = escape_text_byte c ++ xml_escape_text s
