-- ===== src/Proto/Engine/Fallback.antt =====
-- The fallback answer of internal/proto/protocol.go does not depend on the order in which Go iterates
-- over the attributes: they are sorted.
use mathlib.Core.List.{Perm, Permᴰ}
use mathlib.Core.Logic.{∥∥₁_elim}
use open_zone.Base.{◌≡◌, refl, ap, ◌∙◌, true, ◌||◌, List, [], ◌∷◌, Text, arith, map}
use open_zone.Proto.Engine.Dispatch.{text_le, insert_text, sort_texts, pair_text, handle_fallback}
use open_zone.Proto.Xmlish.{Msg}

text_le_total : (s t : Text) → text_le s t || text_le t s ≡ true
unfolding text_le
text_le_total [] t = refl
text_le_total (x ∷ s) [] = refl
text_le_total (x ∷ s) (y ∷ t) = ground (arith, text_le_total s t)

text_le_antisym : (s t : Text) → text_le s t ≡ true → text_le t s ≡ true → s ≡ t
unfolding text_le
text_le_antisym [] [] h k = refl
text_le_antisym [] (y ∷ t) h k = absurd (cc)
text_le_antisym (x ∷ s) [] h k = absurd (cc)
text_le_antisym (x ∷ s) (y ∷ t) h k =
    let same : x ≡ y = ground arith in
    let rest : s ≡ t = text_le_antisym s t (ground (arith, same)) (ground (arith, same)) in
    rw same (ap (◌∷◌ y) rest)

text_le_trans : (s t u : Text) → text_le s t ≡ true → text_le t u ≡ true → text_le s u ≡ true
unfolding text_le
text_le_trans [] t u h k = refl
text_le_trans (x ∷ s) [] u h k = absurd (cc)
text_le_trans (x ∷ s) (y ∷ t) [] h k = absurd (cc)
text_le_trans (x ∷ s) (y ∷ t) (z ∷ u) h k = ground (arith, text_le_trans s t u)

insert_comm :
    (a b : Text) (xs : List Text)
    → insert_text a (insert_text b xs) ≡ insert_text b (insert_text a xs)
unfolding insert_text
insert_comm a b [] = ground (arith, text_le_total a b, text_le_antisym a b)
insert_comm a b (x ∷ xs) = ground (
  arith,
  text_le_total a b,
  text_le_antisym a b,
  text_le_trans a b x,
  text_le_trans b a x,
  insert_comm a b xs,
)

sort-Permᴰ :
    (xs ys : List (Text × Text))
    → Permᴰ xs ys
    → sort_texts (map pair_text xs) ≡ sort_texts (map pair_text ys)
unfolding sort_texts
sort-Permᴰ xs ys Permᴰ.nil = refl
sort-Permᴰ xs ys (Permᴰ.cons {a} {b} {l₁} {l₂} e p) =
    ap (λ (kv : Text × Text). insert_text (pair_text kv) (sort_texts (map pair_text l₁))) e
    ∙ ap (insert_text (pair_text b)) (sort-Permᴰ l₁ l₂ p)
sort-Permᴰ xs ys (Permᴰ.swap {a} {b} {a'} {b'} {l} e f) =
    insert_comm (pair_text a) (pair_text b) (sort_texts (map pair_text l))
    ∙ ap
        (λ (kv : Text × Text).
          insert_text (pair_text kv) (insert_text (pair_text a) (sort_texts (map pair_text l))))
        f
    ∙ ap
        (λ (kv : Text × Text).
          insert_text (pair_text a') (insert_text (pair_text kv) (sort_texts (map pair_text l))))
        e
sort-Permᴰ xs ys (Permᴰ.trans {l₁} {l₂} {l₃} p q) = sort-Permᴰ l₁ l₂ p ∙ sort-Permᴰ l₂ l₃ q

texts_set : IsSet (List Text)
texts_set = hlevel

sort-Perm :
    (xs ys : List (Text × Text))
    → Perm xs ys
    → sort_texts (map pair_text xs) ≡ sort_texts (map pair_text ys)
sort-Perm xs ys p = ∥∥₁_elim p (texts_set _ _) (λ d. sort-Permᴰ xs ys d)

-- Two messages with the same tag and the same attributes, in whatever order the map of attributes is
-- iterated, get the same fallback answer.
handle_fallback-order :
    (m n : Msg) → m.tag ≡ n.tag → Perm m.attrs n.attrs → handle_fallback m ≡ handle_fallback n
unfolding handle_fallback
handle_fallback-order m n same p = rw same (rw (sort-Perm m.attrs n.attrs p) refl)
