-- ===== src/Text/Space.antt =====
-- `strings.TrimSpace(s) == ""`: every rune of the string is white space.
use backend_challenge.Base.{
  if◌then◌else◌, ◌++◌, [], ◌∷◌, List, ℕ, ◌≡◌, refl, Bool, false, ◌&&◌, ◌||◌, Option, none, some,
  leb, ◌==◌, all,
}
use backend_challenge.Text.Bytes.{Text, text}
use backend_challenge.Text.Utf8.{chunks, runes}

-- `unicode.IsSpace`; an invalid byte is none.
abbrev pub is_space : Option ℕ → Bool
is_space none = false
is_space (some r) =
    leb 9 r && leb r 13
    || r == 0x20
    || r == 0x85
    || r == 0xa0
    || r == 0x1680
    || leb 0x2000 r && leb r 0x200a
    || r == 0x2028
    || r == 0x2029
    || r == 0x202f
    || r == 0x205f
    || r == 0x3000

unfoldable pub is_blank : Text → Bool
unfolding runes
is_blank s = all is_space (runes s)

blank_tab : is_blank (text " \t") ≡ backend_challenge.Base.true
unfolding is_blank
blank_tab = refl

-- `strings.Fields`: what the white space separates, with the field read so far.
close_field : Text → List Text → List Text
close_field [] rest = rest
close_field (c ∷ field) rest = (c ∷ field) ∷ rest

fields_from : List (Option ℕ × Text) → Text → List Text
unfolding close_field
fields_from [] field = close_field field []
fields_from ((r, bytes) ∷ cs) field =
    let next = close_field field (fields_from cs []) in
    let longer = fields_from cs (field ++ bytes) in if is_space r then next else longer

unfoldable pub fields : Text → List Text
unfolding chunks fields_from
fields s = fields_from (chunks s) []

two_fields : fields (text " Bearer  abc") ≡ text "Bearer" ∷ text "abc" ∷ []
unfolding fields
two_fields = refl
