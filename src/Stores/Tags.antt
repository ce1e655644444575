-- ===== src/Stores/Tags.antt =====
-- stores/memory/store.go: `hasTag`, by which the memory stores find the entries of a tag.
use Prim.Native.String.{String}
use text.Mathlib.Text.{◌==◌}
use go_memoize.Base.{Bool, true, false, List, [], ◌∷◌, if◌then◌else◌}

unfoldable pub has_tag : List String → String → Bool
has_tag [] tag = false
has_tag (t ∷ tags) tag = if t == tag then true else has_tag tags tag
