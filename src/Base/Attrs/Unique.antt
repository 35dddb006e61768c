-- ===== src/Base/Attrs/Unique.antt =====
-- The attributes that the loop collects have one entry for each name.
use Prim.Native.Nat.{ℕ, zero, suc}
use mathlib.Core.Logic.{inl, inr}
use mathlib.Core.List.{[], ◌∷◌}
use open_zone.Base.Tests.{Option-cases}
use open_zone.Base.Keys.{Text, text_eq}
use open_zone.Base.Dict.{Dict, UniqueKeys, UniqueKeys-put}
use open_zone.Base.Attrs.{next_attr, attr_loop, put_named}
use open_zone.Base.Attrs.Fuel.{attr_loop-stop, attr_loop-next}

put_named-UniqueKeys :
    (k v : Text) (m : Dict Text Text) → UniqueKeys m → UniqueKeys (put_named k v m)
put_named-UniqueKeys [] v m u = u
put_named-UniqueKeys (c ∷ k) v m u = UniqueKeys-put m (c ∷ k) v u

pub attr_loop-UniqueKeys :
    (f : ℕ) (s : Text) (m : Dict Text Text) → UniqueKeys m → UniqueKeys (attr_loop f s m)
attr_loop-UniqueKeys zero s m u = unfold attr_loop in u
attr_loop-UniqueKeys (suc f) [] m u = unfold attr_loop in u
attr_loop-UniqueKeys (suc f) (c ∷ s) m u = elim (Option-cases (next_attr (c ∷ s))) [
  | inl stop ↦ rw (attr_loop-stop f c s m stop) u
  | inr (q, more) ↦
      rw (attr_loop-next f c s m q more)
        (attr_loop-UniqueKeys f q.2 (put_named q.0 q.1 m) (put_named-UniqueKeys q.0 q.1 m u))
]
