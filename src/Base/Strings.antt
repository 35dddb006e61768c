-- ===== src/Base/Strings.antt =====
-- The functions of Go's `strings` package that the program calls, on byte texts.
-- An index followed by slicing is modelled by the two slices: `cut` returns what stands before the
-- first match and what stands behind it.
mod Trim
mod Cut
unfoldable pub use Trim.{trim_space, trim_right, trim_suffix}
unfoldable pub use Cut.{has_prefix, cut, cut_when, contains}
pub use Trim.{
  is_ascii_space, IsSolid, trim_space-IsSolid, trim_space_blank, length-trim_space-le,
  trim_space-snoc_blank, trim_right-stop, trim_right-drop, trim_suffix-snoc, trim_suffix-keep,
}
pub use Cut.{
  cut_byte, has_prefix-append, cut-first, cut_when-first, cut_when-none, CutAt, cut_when-CutAt,
  cut_when-eq-none, contains-append, contains-cons, cut-split, length-cut, length-cut_when, All-cut,
  All-cut_when,
}
pub use Trim.Members.{All-trim_space, All-trim_suffix}
