-- ===== src/State/Rows/Columns.antt =====
-- What the columns of a row hold.
use open_zone.Base.{
  ◌≡◌, refl, ap, subst, ◌∙◌, Bool, true, false, not, ◌&&◌, ◌||◌, some, List, [], ◌∷◌, ◌++◌, Text,
  codes, text_eq, same_text, arith, if◌then◌else◌, Bool-cases, inl, inr,
}
use open_zone.Base.Dict.{Dict, get, put, get-put}
use open_zone.Base.Attrs.{is_empty}
use open_zone.State.Addresses.{or_empty, attr, host_browse_ips}
use open_zone.State.Hosts.{HostSession}
use open_zone.Proto.Engine.Handlers.{header_tokens_for_view}
use open_zone.State.Rows.{
  early_columns, late_columns, copy_if_non_empty, copy_columns, put_addresses, row_items,
}

abbrev among : Text → List Text → Bool
among k [] = false
among k (j ∷ ks) = same_text j k || among k ks

attr-put :
    (m : Dict Text Text) (j k v : Text)
    → attr (put m j v) k ≡ (if same_text j k then v else attr m k)
attr-put m j k v = ap or_empty (get-put m j k v) ∙ by_cases (same_text j k)
  where
    by_cases : (b : Bool) → or_empty (if b then some v else get m k) ≡ (if b then v else attr m k)
    by_cases true = refl
    by_cases false = refl

attr-copy_columns :
    (server : Dict Text Text) (ks : List Text) (dst : Dict Text Text) (k : Text)
    → attr (copy_columns server ks dst) k
      ≡ (if among k ks && not (is_empty (attr server k)) then attr server k else attr dst k)
unfolding copy_columns copy_if_non_empty
attr-copy_columns server [] dst k = refl
attr-copy_columns server (j ∷ ks) dst k =
    attr-copy_columns server ks (copy_if_non_empty dst j (attr server j)) k
    ∙ ground (arith, attr-put dst j k (attr server j), text_eq.equals_iff j k)

attr-put_addresses :
    (ips : Text × Text) (dst : Dict Text Text) (k : Text)
    → attr (put_addresses ips dst) k ≡ (
        if is_empty ips.0
        then attr dst k
        else if same_text (codes "Ip2") k
        then ips.1
        else if same_text (codes "IpAddr") k
        then ips.0
        else attr dst k)
unfolding put_addresses
attr-put_addresses ips dst k = elim (Bool-cases (is_empty ips.0)) [
  | inl none_known ↦ rw none_known
  | inr known ↦ rw known (
      attr-put (put dst (codes "IpAddr") ips.0) (codes "Ip2") k ips.1
      ∙ ap (λ (t : Text). if same_text (codes "Ip2") k then ips.1 else t)
          (attr-put dst (codes "IpAddr") k ips.0))
]

-- The choice among the writes, for a column that is neither an address nor the row id.
choose :
    (late early none_shown : Bool) (v : Text)
    → (if late && not (is_empty v)
        then v
        else if none_shown
        then (if early && not (is_empty v) then v else [])
        else if early && not (is_empty v)
        then v
        else [])
      ≡ (if early || late then v else [])
choose late early none_shown [] = ground arith
choose late early none_shown (c ∷ v) = ground arith

among-append : (k : Text) (xs ys : List Text) → among k (xs ++ ys) ≡ among k xs || among k ys
among-append k [] ys = refl
among-append k (x ∷ xs) ys = ground (arith, among-append k xs ys)

either_way : (b : Bool) (t : Text) → (if b then t else t) ≡ t
either_way true t = refl
either_way false t = refl

empty_or_self : (t : Text) → (if is_empty t then [] else t) ≡ t
empty_or_self [] = refl
empty_or_self (c ∷ t) = refl

module _ (rid : Text) (h : HostSession) where
  abbrev shown : Text × Text
  shown = host_browse_ips h.observed_remote_ip h.server

  -- The value of any column, through the writes in reverse order.
  attr-row_items :
      (k : Text)
      → attr (row_items rid h) k ≡ (
          if among k late_columns && not (is_empty (attr h.server k))
          then attr h.server k
          else if is_empty shown.0
          then (if among k early_columns && not (is_empty (attr h.server k))
              then attr h.server k
              else attr (put [] (codes "Rid") rid) k)
          else if same_text (codes "Ip2") k
          then shown.1
          else if same_text (codes "IpAddr") k
          then shown.0
          else if among k early_columns && not (is_empty (attr h.server k))
          then attr h.server k
          else attr (put [] (codes "Rid") rid) k)
  unfolding row_items
  attr-row_items k =
      let first = put [] (codes "Rid") rid in
      let early = copy_columns h.server early_columns first in
      attr-copy_columns h.server late_columns (put_addresses shown early) k
      ∙ ap
          (λ (t : Text).
            if among k late_columns && not (is_empty (attr h.server k)) then attr h.server k else t)
          (attr-put_addresses shown early k
            ∙ ap
                (λ (t : Text).
                  if is_empty shown.0
                  then t
                  else if same_text (codes "Ip2") k
                  then shown.1
                  else if same_text (codes "IpAddr") k
                  then shown.0
                  else t)
                (attr-copy_columns h.server early_columns first k))

  -- What stands under a name: the row id, the addresses that are shown (both, or neither), and what the host
  -- has published, for the other columns of the games view that have a value at all.
  abbrev pub value_under : Text → Text
  value_under k =
      if same_text (codes "Rid") k
      then rid
      else if same_text (codes "IpAddr") k
      then shown.0
      else if same_text (codes "Ip2") k
      then (if is_empty shown.0 then [] else shown.1)
      else if same_text (codes "InGame") k
      then []
      else if among k (header_tokens_for_view (codes "101"))
      then attr h.server k
      else []

  -- Any name but the four.
  listed :
      (k : Text)
      → same_text (codes "Rid") k ≡ false
      → same_text (codes "IpAddr") k ≡ false
      → same_text (codes "Ip2") k ≡ false
      → same_text (codes "InGame") k ≡ false
      → among k (header_tokens_for_view (codes "101"))
        ≡ among k early_columns || among k late_columns
  unfolding header_tokens_for_view same_text
  listed k not_rid not_ip not_ip2 not_in_game =
      rw (not_rid, not_ip) (rw (not_ip2, not_in_game) (among-append k early_columns late_columns))

  published :
      (k : Text)
      → same_text (codes "Rid") k ≡ false
      → same_text (codes "IpAddr") k ≡ false
      → same_text (codes "Ip2") k ≡ false
      → same_text (codes "InGame") k ≡ false
      → attr (row_items rid h) k ≡ value_under k
  unfolding put get
  published k not_rid not_ip not_ip2 not_in_game =
      attr-row_items k
      ∙ rw (not_rid, not_ip)
          (rw (not_ip2, not_in_game)
            (rw (listed k not_rid not_ip not_ip2 not_in_game) (
              choose (among k late_columns) (among k early_columns) (is_empty shown.0)
                (attr h.server k))))

  at_name :
      (j k : Text)
      → same_text j k ≡ true
      → attr (row_items rid h) j ≡ value_under j
      → attr (row_items rid h) k ≡ value_under k
  at_name j k e =
      subst (λ (t : Text). attr (row_items rid h) t ≡ value_under t) ((text_eq.equals_iff j k).0 e)

  rid-exact : attr (row_items rid h) (codes "Rid") ≡ value_under (codes "Rid")
  unfolding same_text put get
  rid-exact = attr-row_items (codes "Rid") ∙ either_way (is_empty shown.0) rid

  ip-exact : attr (row_items rid h) (codes "IpAddr") ≡ value_under (codes "IpAddr")
  unfolding same_text put get
  ip-exact = attr-row_items (codes "IpAddr") ∙ empty_or_self shown.0

  ip2-exact : attr (row_items rid h) (codes "Ip2") ≡ value_under (codes "Ip2")
  unfolding same_text put get
  ip2-exact = attr-row_items (codes "Ip2")

  in_game-exact : attr (row_items rid h) (codes "InGame") ≡ value_under (codes "InGame")
  unfolding same_text put get
  in_game-exact = attr-row_items (codes "InGame") ∙ either_way (is_empty shown.0) []

  -- Whatever the name: a row holds its row id under `Rid`; under `IpAddr` and `Ip2` the addresses that are shown,
  -- both or neither; under each other column of the games view but `InGame` what the host has published; and
  -- under `InGame` and any other name nothing, whatever the host has published.
  pub row_items-exact : (k : Text) → attr (row_items rid h) k ≡ value_under k
  row_items-exact k = elim (Bool-cases (same_text (codes "Rid") k)) [
    | inl e ↦ at_name (codes "Rid") k e rid-exact
    | inr n1 ↦ elim (Bool-cases (same_text (codes "IpAddr") k)) [
      | inl e ↦ at_name (codes "IpAddr") k e ip-exact
      | inr n2 ↦ elim (Bool-cases (same_text (codes "Ip2") k)) [
        | inl e ↦ at_name (codes "Ip2") k e ip2-exact
        | inr n3 ↦ elim (Bool-cases (same_text (codes "InGame") k)) [
          | inl e ↦ at_name (codes "InGame") k e in_game-exact
          | inr n4 ↦ published k n1 n2 n3 n4
        ]
      ]
    ]
  ]
