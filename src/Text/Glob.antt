-- ===== src/Text/Glob.antt =====
-- `path.Match` on a name without a slash: a pattern of `*`, `?`, classes, escapes and literals.
use backend_challenge.Base.{
  ◌≡◌, refl, ◌≡◌, ℕ, Bool, true, false, not, ◌&&◌, ◌||◌, Option, none, some, List, [], ◌∷◌, leb,
  ◌==◌, any, if◌then◌else◌,
}

abbrev pub Span : Type 0
Span = ℕ × ℕ

pub data Item : Type 0 where
  star any_rune : Item
  literal : ℕ → Item
  -- negated or not, and its ranges
  class : Bool → List Span → Item

-- Where the parser stands: in front of an item, behind a backslash, behind `[`, or in a class with
-- the ranges read so far. There it is in front of a bound, behind a backslash, or behind the lower
-- or the upper bound of a range.
pub data Mode : Type 0 where
  plain escaped opened : Mode
  low low_escaped : Bool → List Span → Mode
  after_low high high_escaped : Bool → List Span → ℕ → Mode

abbrev backslash : ℕ
backslash = 92

cons_item : Item → Option (List Item) → Option (List Item)
cons_item item none = none
cons_item item (some items) = some (item ∷ items)

abbrev is_empty_list : List Span → Bool
is_empty_list [] = true
is_empty_list (x ∷ xs) = false

-- What one rune does: a malformed pattern, the next state, or the next state behind an item.
pub data Move : Type 0 where
  bad : Move
  to : Mode → Move
  emit : Item → Mode → Move

abbrev start_low : Bool → List Span → ℕ → Move
start_low negated spans c =
    if c == b']' && not (is_empty_list spans)
    then emit (class negated spans) plain
    else if c == b'-' || c == b']'
    then bad
    else if c == backslash
    then to (low_escaped negated spans)
    else to (after_low negated spans c)

move : Mode → ℕ → Move
move plain c =
    if c == b'*'
    then emit star plain
    else if c == b'?'
    then emit any_rune plain
    else if c == b'['
    then to opened
    else if c == backslash
    then to escaped
    else emit (literal c) plain
move escaped c = emit (literal c) plain
move opened c = if c == b'^' then to (low true []) else start_low false [] c
move (low negated spans) c = start_low negated spans c
move (low_escaped negated spans) c = to (after_low negated spans c)
move (after_low negated spans lo) c =
    if c == b'-' then to (high negated spans lo) else start_low negated ((lo, lo) ∷ spans) c
move (high negated spans lo) c =
    if c == b'-' || c == b']'
    then bad
    else if c == backslash
    then to (high_escaped negated spans lo)
    else to (low negated ((lo, c) ∷ spans))
move (high_escaped negated spans lo) c = to (low negated ((lo, c) ∷ spans))

parse_from : Mode → List ℕ → Option (List Item)
unfolding move cons_item
parse_from plain [] = some []
parse_from mode [] = none
parse_from mode (c ∷ cs) = elim (move mode c) [
  | bad ↦ none
  | to next ↦ parse_from next cs
  | emit item next ↦ cons_item item (parse_from next cs)
]

unfoldable pub parse_pattern : List ℕ → Option (List Item)
unfolding parse_from
parse_pattern cs = parse_from plain cs

-- One rune against an item that is no star.
unfoldable pub accepts : Item → ℕ → Bool
accepts star r = false
accepts any_rune r = true
accepts (literal c) r = c == r
accepts (class negated spans) r =
    let within = any (λ (span : Span). leb span.0 r && leb r span.1) spans in
    if negated then not within else within

-- The star takes no rune, or one and stays.
star_matches : (List ℕ → Bool) → List ℕ → Bool
star_matches rest [] = rest []
star_matches rest (r ∷ rs) = rest (r ∷ rs) || star_matches rest rs

one_matches : Item → (List ℕ → Bool) → List ℕ → Bool
unfolding accepts
one_matches item rest [] = false
one_matches item rest (r ∷ rs) = accepts item r && rest rs

unfoldable pub matches : List Item → List ℕ → Bool
unfolding star_matches one_matches
matches [] [] = true
matches [] (r ∷ rs) = false
matches (star ∷ items) rs = star_matches (matches items) rs
matches (item ∷ items) rs = one_matches item (matches items) rs

-- `path.Match` with its error dropped
unfoldable pub glob_match : List ℕ → List ℕ → Bool
unfolding parse_pattern matches
glob_match pattern_runes name = elim (parse_pattern pattern_runes) [
  | none ↦ false
  | some items ↦ matches items name
]

star_example : glob_match (b's' ∷ b'*' ∷ []) (b's' ∷ b'q' ∷ []) ≡ true
unfolding glob_match
star_example = refl

class_example : glob_match (b'[' ∷ b'^' ∷ b'a' ∷ b'-' ∷ b'c' ∷ b']' ∷ []) (b'b' ∷ []) ≡ false
unfolding glob_match
class_example = refl
