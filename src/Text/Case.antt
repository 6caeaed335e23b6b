-- ===== src/Text/Case.antt =====
-- Case and white space: `strings.ToLower`, `strings.EqualFold`, `strings.TrimSpace`,
-- `strings.HasSuffix`.
use backend_challenge.Base.{
  ◌≡◌, refl, ◌≡◌, ℕ, Bool, true, false, ◌&&◌, ◌+◌, Option, none, some, List, [], ◌∷◌, map, leb,
  ◌==◌, if◌then◌else◌,
}
use mathlib.Core.List.{reverse}
use backend_challenge.Text.Bytes.{Text, text, str_eq}
use backend_challenge.Text.Utf8.{runes}
use backend_challenge.Text.Space.{is_space}

-- `unicode.ToLower`, where it gives an ASCII letter: of A to Z, the Kelvin sign and the dotted
-- capital I. Any other rune stays: its lower case is no ASCII letter either.
unfoldable pub lower_rune : ℕ → ℕ
lower_rune r =
    if leb b'A' r && leb r b'Z'
    then r + 32
    else if r == 0x212a
    then b'k'
    else if r == 0x130
    then b'i'
    else r

-- The rune that `strings.Map` passes on for an invalid byte is U+FFFD.
abbrev pub rune_or_error : Option ℕ → ℕ
rune_or_error none = 0xfffd
rune_or_error (some r) = r

-- The runes of `strings.ToLower`
unfoldable pub lower_runes : Text → List ℕ
unfolding lower_rune
lower_runes s = map (λ r. lower_rune (rune_or_error r)) (runes s)

unfoldable pub trim_left : List ℕ → List ℕ
trim_left [] = []
trim_left (r ∷ rs) = let rest = trim_left rs in if is_space (some r) then rest else r ∷ rs

-- `strings.TrimSpace` on runes
unfoldable pub trim_space : List ℕ → List ℕ
unfolding trim_left
trim_space rs = reverse (trim_left (reverse (trim_left rs)))

unfoldable pub lower_byte : ℕ → ℕ
lower_byte c = if leb b'A' c && leb c b'Z' then c + 32 else c

-- `strings.EqualFold` with a text of ASCII letters other than k and s, which only such letters
-- fold to.
unfoldable pub equal_fold : Text → Text → Bool
unfolding lower_byte str_eq
equal_fold s t = str_eq (map lower_byte s) (map lower_byte t)

-- `strings.HasPrefix`
unfoldable pub has_prefix : Text → Text → Bool
has_prefix s [] = true
has_prefix [] (c ∷ prefix) = false
has_prefix (d ∷ s) (c ∷ prefix) = d == c && has_prefix s prefix

-- `strings.HasSuffix`
unfoldable pub has_suffix : Text → Text → Bool
unfolding has_prefix
has_suffix s suffix = has_prefix (reverse s) (reverse suffix)

fold_example : equal_fold (text "beArer") (text "Bearer") ≡ true
unfolding equal_fold
fold_example = refl

suffix_example : has_suffix (text "a.fifo") (text ".fifo") ≡ true
unfolding has_suffix
suffix_example = refl
