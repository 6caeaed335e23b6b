-- ===== src/Observability/Label.antt =====
-- `label` (internal/observability/metrics.go)
use backend_challenge.Base.{ℕ, Bool, ◌||◌, ◌&&◌, List, [], ◌∷◌, map, leb, ◌==◌, if◌then◌else◌}
use backend_challenge.Text.{Text, text, lower_runes, trim_space}

-- The characters that a label keeps.
unfoldable pub is_label_rune : ℕ → Bool
is_label_rune r = leb b'a' r && leb r b'z' || leb b'0' r && leb r b'9' || r == b'_' || r == b'-'

unfoldable pub label_rune : ℕ → ℕ
unfolding is_label_rune
label_rune r = if is_label_rune r then r else b'_'

-- The label of the runes that are left of a value.
unfoldable pub label_of : List ℕ → Text
unfolding label_rune
label_of [] = text "unknown"
label_of (r ∷ rs) = map label_rune (r ∷ rs)

unfoldable pub label : Text → Text
unfolding label_of trim_space lower_runes
label value = label_of (trim_space (lower_runes value))
