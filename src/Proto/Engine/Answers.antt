-- ===== src/Proto/Engine/Answers.antt =====
-- The answers of `handleRowPg` and `handlePage` (internal/proto/protocol.go) on the wire.
use open_zone.Base.{
  refl, List, [], ◌∷◌, ◌▹◌, Text, codes, text_eq, same_text, All, All-map, Option-cases, Bool-cases,
  inl, inr,
}
use open_zone.Base.Attrs.{is_empty}
use open_zone.Base.Numbers.{decimal}
use open_zone.Base.Dict.{get, put}
use open_zone.State.Addresses.{attr}
use open_zone.State.Hosts.{GameRow}
use open_zone.State.Rows.{row_by_rid}
use open_zone.Proto.Markup.{printed}
use open_zone.Proto.Xmlish.{Msg}
use open_zone.Proto.Xmlish.Head.{IsValue, AreAttrs}
use open_zone.Proto.Xmlish.Shape.{IsMsg}
use open_zone.Proto.Engine.{Engine, out, attr_or}
use open_zone.Proto.Engine.Handlers.{
  success, failure, cx_of, row_pg_attrs, row_pg_found, row_pg_host, handle_row_pg,
}
use open_zone.Proto.Engine.Dispatch.{page_attrs, page_res, rows_for, handle_page}
use open_zone.Proto.Engine.Wire.{
  Answers, Carries, printed-Answers, wrapped-Answers, name, named-AreAttrs, IsValue-literal,
  IsValue-escape, IsValue-decimal,
}
use open_zone.Base.{length}

module _ (m : Msg) (shape : IsMsg m) where
  pub IsValue-attr : (k : Text) → IsValue (attr m.attrs k)
  IsValue-attr k = elim (Option-cases (get m.attrs k)) [
    | inl missing ↦ rw missing tt
    | inr (v, found) ↦ rw found (All-map v (λ c p. (p.1, p.0)) (shape.attrs_bare.values k v found))
  ]

  pub IsValue-attr_or : (k d : Text) → IsValue d → IsValue (attr_or m.attrs k d)
  IsValue-attr_or k d h = elim (Bool-cases (is_empty (attr m.attrs k))) [
    | inl e ↦ rw e h
    | inr e ↦ rw e (IsValue-attr k)
  ]

  pub IsValue-cx : IsValue (cx_of m)
  IsValue-cx = IsValue-attr_or (codes "Cx") (codes "0x0") (IsValue-literal (codes "0x0") refl)

  pub IsValue-zero : (k : Text) → IsValue (attr_or m.attrs k (codes "0"))
  IsValue-zero k = IsValue-attr_or k (codes "0") (IsValue-literal (codes "0") refl)

  row_pg_attrs-AreAttrs : (hr n : Text) → IsValue hr → IsValue n → AreAttrs (row_pg_attrs m hr n)
  row_pg_attrs-AreAttrs hr n h i = named-AreAttrs (row_pg_attrs m hr n) refl (
      h
      ▹ IsValue-cx
      ▹ IsValue-zero (codes "Vid")
      ▹ IsValue-zero (codes "Rid")
      ▹ IsValue-escape (attr_or m.attrs (codes "Num") (codes "0"))
      ▹ IsValue-escape (attr m.attrs (codes "Str"))
      ▹ i
      ▹ tt)

  page_attrs-AreAttrs : (n : Text) → IsValue n → AreAttrs (page_attrs m n)
  page_attrs-AreAttrs n h =
      let z = IsValue-literal (codes "0") refl in
      let vid = IsValue-zero (codes "Vid") in
      let page_no = IsValue-zero (codes "PageNo") in
      named-AreAttrs (page_attrs m n) refl (
        IsValue-literal success refl
        ▹ IsValue-cx
        ▹ vid
        ▹ vid
        ▹ page_no
        ▹ page_no
        ▹ z
        ▹ z
        ▹ z
        ▹ z
        ▹ z
        ▹ z
        ▹ h
        ▹ IsValue-escape (attr_or m.attrs (codes "Num") (codes "0"))
        ▹ IsValue-escape (attr m.attrs (codes "Str"))
        ▹ tt)

  Carries-row_pg : (hr n : Text) → Carries (cx_of m) (row_pg_attrs m hr n)
  unfolding put get same_text
  Carries-row_pg hr n = (refl, refl)

  Carries-page : (n : Text) → Carries (cx_of m) (page_attrs m n)
  unfolding put get same_text
  Carries-page n = (refl, refl)

  pub row_pg-Answers : (p : Engine) → All (Answers (cx_of m)) (handle_row_pg m p)
  unfolding handle_row_pg row_pg_host row_pg_found
  row_pg-Answers p = elim (Option-cases p.host) [
    | inl missing ↦
        rw (missing, row_pg_host)
          (short failure (IsValue-literal failure refl) (codes "send-safe-fail"), tt)
    | inr (s, there) ↦
        rw (there, row_pg_host)
          (elim (Option-cases (row_by_rid (attr_or m.attrs (codes "Rid") (codes "0")) s)) [
            | inl miss ↦
                rw (miss, row_pg_found)
                  (short success (IsValue-literal success refl) (codes "send-rowpg-miss"), tt)
            | inr (row, hit) ↦
                rw (hit, row_pg_found)
                  (
                    wrapped-Answers (cx_of m) (codes "RowPgRes")
                        (row_pg_attrs m success (codes "1")) _ (codes "send-rowpg-hit")
                        (name (codes "RowPgRes") refl)
                        (row_pg_attrs-AreAttrs success (codes "1") (IsValue-literal success refl)
                          (IsValue-literal (codes "1") refl))
                        (Carries-row_pg success (codes "1")),
                    tt,
                  )
          ])
  ]
    where
      short :
          (hr : Text)
          → IsValue hr
          → (exp : Text)
          → Answers (cx_of m) (
              out
                (codes "RowPgRes")
                (printed (codes "RowPgRes") (row_pg_attrs m hr (codes "0")))
                exp)
      short hr h exp =
          printed-Answers (cx_of m) (codes "RowPgRes") (row_pg_attrs m hr (codes "0")) exp
            (name (codes "RowPgRes") refl)
            (row_pg_attrs-AreAttrs hr (codes "0") h (IsValue-literal (codes "0") refl))
            (Carries-row_pg hr (codes "0"))

  page_res-Answers : (rows : List GameRow) → Answers (cx_of m) (page_res m rows)
  unfolding page_res
  page_res-Answers [] =
      printed-Answers (cx_of m) (codes "PageRes") (page_attrs m (codes "0")) (codes "send")
        (name (codes "PageRes") refl)
        (page_attrs-AreAttrs (codes "0") (IsValue-literal (codes "0") refl))
        (Carries-page (codes "0"))
  page_res-Answers (r ∷ rows) =
      wrapped-Answers (cx_of m) (codes "PageRes") (page_attrs m (decimal (length (r ∷ rows)))) _
        (codes "send-page-rows") (name (codes "PageRes") refl)
        (page_attrs-AreAttrs _ (IsValue-decimal (length (r ∷ rows))))
        (Carries-page (decimal (length (r ∷ rows))))

  pub page-Answers : (p : Engine) → All (Answers (cx_of m)) (handle_page m p)
  unfolding handle_page
  page-Answers p =
      (page_res-Answers (rows_for (attr_or m.attrs (codes "Vid") (codes "0")) p.host), tt)
