-- ===== src/Observability/Labels.antt =====
-- The labels of the counters (`label`, internal/observability/metrics.go).
use backend_challenge.Base.{
  &&-eq-true, ℕ, ◌≡◌, ◌≢◌, refl, ap, Bool, true, false, List, [], ◌∷◌, ◌++◌, map, all, ltb, arith,
  some,
}
use mathlib.Core.List.{reverse, reverse-cons, reverse-reverse}
use backend_challenge.Text.{Text, runes, is_space, lower_rune, lower_runes, trim_left, trim_space}
use backend_challenge.Observability.{is_label_rune, label_rune, label_of, label}

-- An ASCII byte is a rune by itself.
runes-ascii : (c : ℕ) (s : Text) → ltb c 0x80 ≡ true → runes (c ∷ s) ≡ some c ∷ runes s
unfolding runes
runes-ascii c s h = rw h refl

runes_nil : runes [] ≡ []
unfolding runes
runes_nil = refl

label_rune_ascii : (r : ℕ) → is_label_rune r ≡ true → ltb r 0x80 ≡ true
unfolding is_label_rune
label_rune_ascii r h = ground (arith, h)

label_rune_lower : (r : ℕ) → is_label_rune r ≡ true → lower_rune r ≡ r
unfolding is_label_rune lower_rune
label_rune_lower r h = ground (arith, h)

label_rune_kept : (r : ℕ) → is_label_rune r ≡ true → label_rune r ≡ r
unfolding label_rune
label_rune_kept r h = rw h refl

label_rune_not_space : (r : ℕ) → is_label_rune r ≡ true → is_space (some r) ≡ false
unfolding is_label_rune
label_rune_not_space r h = ground (arith, h)

is_label_rune-label_rune : (r : ℕ) → is_label_rune (label_rune r) ≡ true
unfolding label_rune is_label_rune
is_label_rune-label_rune r = ground arith

lower_runes_kept : (s : Text) → all is_label_rune s ≡ true → lower_runes s ≡ s
unfolding lower_runes
lower_runes_kept [] h = rw runes_nil refl
lower_runes_kept (r ∷ s) h =
    let (here, rest) = &&-eq-true (is_label_rune r) (all is_label_rune s) h in
    rw (runes-ascii r s (label_rune_ascii r here), label_rune_lower r here)
      (ap (λ rs. r ∷ rs) (lower_runes_kept s rest))

all-map-eq : (rs : List ℕ) → all is_label_rune rs ≡ true → map label_rune rs ≡ rs
all-map-eq [] h = refl
all-map-eq (r ∷ rs) h =
    let (here, rest) = &&-eq-true (is_label_rune r) (all is_label_rune rs) h in
    rw (label_rune_kept r here) (ap (λ rs. r ∷ rs) (all-map-eq rs rest))

all-map-label_rune : (rs : List ℕ) → all is_label_rune (map label_rune rs) ≡ true
all-map-label_rune [] = refl
all-map-label_rune (r ∷ rs) = rw (is_label_rune-label_rune r) (all-map-label_rune rs)

all-label_of : (rs : List ℕ) → all is_label_rune (label_of rs) ≡ true
unfolding label_of is_label_rune
all-label_of [] = refl
all-label_of (r ∷ rs) = all-map-label_rune (r ∷ rs)

label_of_kept : (s : Text) → all is_label_rune s ≡ true → s ≢ [] → label_of s ≡ s
unfolding label_of
label_of_kept [] h nonempty = absurd (nonempty refl)
label_of_kept (r ∷ s) h nonempty = all-map-eq (r ∷ s) h

trim_left_kept : (s : List ℕ) → all is_label_rune s ≡ true → trim_left s ≡ s
unfolding trim_left
trim_left_kept [] h = refl
trim_left_kept (r ∷ s) h =
    let (here, rest) = &&-eq-true (is_label_rune r) (all is_label_rune s) h in
    rw (label_rune_not_space r here) refl

all-append :
    (p : ℕ → Bool) (xs ys : List ℕ) → all p xs ≡ true → all p ys ≡ true → all p (xs ++ ys) ≡ true
all-append p [] ys h k = k
all-append p (x ∷ xs) ys h k =
    let (here, rest) = &&-eq-true (p x) (all p xs) h in rw here (all-append p xs ys rest k)

all-reverse : (p : ℕ → Bool) (xs : List ℕ) → all p xs ≡ true → all p (reverse xs) ≡ true
all-reverse p [] h = refl
all-reverse p (x ∷ xs) h =
    let (here, rest) = &&-eq-true (p x) (all p xs) h in
    rw (reverse-cons x xs)
      (all-append p (reverse xs) (x ∷ []) (all-reverse p xs rest) (rw here refl))

trim_space_kept : (s : List ℕ) → all is_label_rune s ≡ true → trim_space s ≡ s
unfolding trim_space
trim_space_kept s h =
    rw (trim_left_kept s h, trim_left_kept (reverse s) (all-reverse is_label_rune s h))
      (reverse-reverse s)

label_of-nonempty : (rs : List ℕ) → label_of rs ≢ []
unfolding label_of
label_of-nonempty [] h = cc
label_of-nonempty (r ∷ rs) h = cc

-- A label is not empty, has none but the characters a to z, 0 to 9, _ and -, and is its own label:
-- any value gives a metric's line that is well-formed, and a label may be labelled again.
pub label_lem :
    (value : Text)
    → (label value ≢ [])
      × (all is_label_rune (label value) ≡ true)
      × (label (label value) ≡ label value)
unfolding label
label_lem value =
    let rs = trim_space (lower_runes value) in
    let kept = all-label_of rs in
    let nonempty = label_of-nonempty rs in
    (
      nonempty,
      kept,
      rw (lower_runes_kept (label_of rs) kept, trim_space_kept (label_of rs) kept)
          (label_of_kept (label_of rs) kept nonempty),
    )
