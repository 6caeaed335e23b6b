-- ===== src/Text/Utf8.antt =====
-- `unicode/utf8`: decoding with one error rune for each byte that begins no encoding.
use backend_challenge.Base.{
  take, ℕ, zero, suc, ◌+◌, ◌-◌, ◌*◌, Bool, true, false, ◌&&◌, Option, none, some, List, [], ◌∷◌,
  leb, ltb, all, length, if◌then◌else◌,
}
use backend_challenge.Text.Bytes.{Text}

between : ℕ → ℕ → ℕ → Bool
between lo hi b = leb lo b && leb b hi

abbrev keep_if : Bool → ℕ → Option ℕ
keep_if true r = some r
keep_if false r = none

-- The encodings of two, three and four bytes; the second byte excludes overlong forms,
-- surrogates and what lies past U+10FFFF.
rune2 : ℕ → Text → Option ℕ
unfolding between
rune2 a [] = none
rune2 a (b ∷ _) =
    keep_if (between 0xc2 0xdf a && between 0x80 0xbf b) ((a - 0xc0) * 64 + (b - 0x80))

second_of_three : ℕ → ℕ → Bool
unfolding between
second_of_three a b =
    if leb a 0xe0
    then between 0xa0 0xbf b
    else if between 0xed 0xed a
    then between 0x80 0x9f b
    else between 0x80 0xbf b

rune3 : ℕ → Text → Option ℕ
unfolding between second_of_three
rune3 a [] = none
rune3 a (b ∷ []) = none
rune3 a (b ∷ c ∷ _) =
    keep_if (between 0xe0 0xef a && second_of_three a b && between 0x80 0xbf c)
      ((a - 0xe0) * 4096 + (b - 0x80) * 64 + (c - 0x80))

second_of_four : ℕ → ℕ → Bool
unfolding between
second_of_four a b =
    if leb a 0xf0
    then between 0x90 0xbf b
    else if leb 0xf4 a
    then between 0x80 0x8f b
    else between 0x80 0xbf b

rune4 : ℕ → Text → Option ℕ
unfolding between second_of_four
rune4 a [] = none
rune4 a (b ∷ []) = none
rune4 a (b ∷ c ∷ []) = none
rune4 a (b ∷ c ∷ d ∷ _) =
    keep_if
      (between 0xf0 0xf4 a && second_of_four a b && between 0x80 0xbf c && between 0x80 0xbf d)
      ((a - 0xf0) * 262144 + (b - 0x80) * 4096 + (c - 0x80) * 64 + (d - 0x80))

-- The next choice, if this one decodes nothing.
abbrev try : ℕ → Option ℕ → Option ℕ × ℕ → Option ℕ × ℕ
try size none other = other
try size (some r) other = (some r, size)

-- `utf8.DecodeRuneInString` on a first byte and the rest: the rune, `none` for an error, and its
-- width.
decode_rune : ℕ → Text → Option ℕ × ℕ
unfolding rune2 rune3 rune4
decode_rune a s =
    if ltb a 0x80
    then (some a, 1)
    else try 2 (rune2 a s) (try 3 (rune3 a s) (try 4 (rune4 a s) (none, 1)))

-- The runes that a `range` loop visits; the number counts the bytes of the last rune still to skip.
runes_from : ℕ → Text → List (Option ℕ)
unfolding decode_rune
runes_from k [] = []
runes_from zero (a ∷ s) = (decode_rune a s).0 ∷ runes_from ((decode_rune a s).1 - 1) s
runes_from (suc k) (a ∷ s) = runes_from k s

unfoldable pub runes : Text → List (Option ℕ)
unfolding runes_from
runes s = runes_from 0 s

abbrev is_some : Option ℕ → Bool
is_some none = false
is_some (some r) = true

-- `utf8.ValidString`
unfoldable pub valid_string : Text → Bool
unfolding runes
valid_string s = all is_some (runes s)

-- `utf8.RuneCountInString`
unfoldable pub rune_count : Text → ℕ
unfolding runes
rune_count s = length (runes s)

-- The bytes of each rune, with the rune; the number counts the bytes of the last one to skip.
chunks_from : ℕ → Text → List (Option ℕ × Text)
unfolding decode_rune
chunks_from k [] = []
chunks_from zero (a ∷ s) =
    ((decode_rune a s).0, take (decode_rune a s).1 (a ∷ s))
    ∷ chunks_from ((decode_rune a s).1 - 1) s
chunks_from (suc k) (a ∷ s) = chunks_from k s

unfoldable pub chunks : Text → List (Option ℕ × Text)
unfolding chunks_from
chunks s = chunks_from 0 s
