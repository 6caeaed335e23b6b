-- ===== src/Pages/Continuation.antt =====
-- A page goes on where the one before it ended (`ListLedger.Execute`,
-- internal/application/list_ledger.go).
use backend_challenge.Base.{
  some_inj, subst, ◌≡◌, sym, refl, ap, ◌∙◌, ℕ, zero, suc, ◌+◌, Bool, true, inl, inr, Option, none,
  some, List, [], ◌∷◌, ◌++◌, arith, All, Bool-cases, take, drop,
}
use backend_challenge.Domain.Wallet.{Uuid}
use backend_challenge.Domain.Ledger.{WalletLedgerEntry}
use backend_challenge.Application.{
  LedgerPosition, position_of, is_below, is_after, ordered, keep, nth, page_rows,
}
use backend_challenge.Pages.Order.{
  below, HasUniqueIds, IsDescending, below_irrefl, below_asym, ordered-IsDescending,
  keep-IsDescending,
}

pub nth-take : {A : Type 0} (n : ℕ) (xs : List A) → nth n (take (suc n) xs) ≡ nth n xs
unfolding nth
nth-take n [] = refl
nth-take zero (x ∷ xs) = refl
nth-take (suc n) (x ∷ xs) = nth-take n xs

take-of_nil : {A : Type 0} (n : ℕ) → [] ≡ take {A = A} n []
take-of_nil zero = refl
take-of_nil (suc n) = refl

suc_plus : (m k : ℕ) → suc (m + k) ≡ suc m + k
suc_plus m k = omega arith

take-take-drop :
    {A : Type 0} (m k : ℕ) (xs : List A) → take m xs ++ take k (drop m xs) ≡ take (m + k) xs
take-take-drop zero k xs = ap (λ i. take i xs) (omega arith)
take-take-drop (suc m) zero [] = take-of_nil (suc m + 0)
take-take-drop (suc m) (suc k) [] = take-of_nil (suc m + suc k)
take-take-drop (suc m) k (x ∷ xs) =
    ap (λ ys. x ∷ ys) (take-take-drop m k xs) ∙ ap (λ i. take i (x ∷ xs)) (suc_plus m k)

keep_everything :
    {A : Type 0} (p : A → Bool) (xs : List A) → All (λ y. p y ≡ true) xs → keep p xs ≡ xs
unfolding keep
keep_everything p [] all = refl
keep_everything p (x ∷ xs) (here, rest) = rw here (ap (λ ys. x ∷ ys) (keep_everything p xs rest))

pub nth-All :
    {A : Type 0} (P : A → Type 0) (n : ℕ) (xs : List A) (x : A) → All P xs → nth n xs ≡ some x → P x
unfolding nth
nth-All P n [] x all h = absurd cc
nth-All P zero (y ∷ xs) x (here, rest) h = rw (sym (some_inj h)) here
nth-All P (suc n) (y ∷ xs) x (here, rest) h = nth-All P n xs x rest h

-- The second condition leaves nothing that the first one drops.
keep-keep :
    {A : Type 0} (p q : A → Bool) (xs : List A)
    → ((y : A) → q y ≡ true → p y ≡ true)
    → keep q (keep p xs) ≡ keep q xs
unfolding keep
keep-keep p q [] within = refl
keep-keep p q (x ∷ xs) within = elim (Bool-cases (p x)) [
  | inl kept ↦ rw kept (elim (Bool-cases (q x)) [
    | inl last ↦ rw last (ap (λ ys. x ∷ ys) (keep-keep p q xs within))
    | inr left ↦ rw left (keep-keep p q xs within)
  ])
  | inr left ↦ elim (Bool-cases (q x)) [
    | inl last ↦ absurd (ground (arith, within x last, left))
    | inr also ↦ rw (left, also) (keep-keep p q xs within)
  ]
]

kept-holds : {A : Type 0} (p : A → Bool) (xs : List A) → All (λ y. p y ≡ true) (keep p xs)
unfolding keep
kept-holds p [] = tt
kept-holds p (x ∷ xs) = elim (Bool-cases (p x)) [
  | inl kept ↦ rw kept (kept, kept-holds p xs)
  | inr left ↦ rw left (kept-holds p xs)
]

-- The entries below the one at index n are those behind it.
below-drop :
    (n : ℕ) (xs : List WalletLedgerEntry) (last : WalletLedgerEntry)
    → IsDescending xs
    → nth n xs ≡ some last
    → keep (below last) xs ≡ drop (suc n) xs
unfolding nth keep
below-drop n [] last sorted h = absurd cc
below-drop zero (x ∷ xs) last (tops, sorted) h =
    subst (λ z. keep (below z) (x ∷ xs) ≡ xs) (some_inj h)
      (rw (below_irrefl x) (keep_everything (below x) xs tops))
below-drop (suc n) (x ∷ xs) last (tops, sorted) h =
    rw (below_asym x last (nth-All _ n xs last tops h)) (below-drop n xs last sorted h)

after-below :
    (id : Uuid) (position : Option LedgerPosition) (last y : WalletLedgerEntry)
    → is_after position last ≡ true
    → below last y ≡ true
    → is_after position y ≡ true
unfolding is_after is_below
after-below id none last y h k = refl
after-below id (some position) last y h k = ground (arith, h, k)

-- Where the identifiers of the entries are unique, the rows of a page and the rows of the page
-- that is asked for with the position of its last row are together the rows of the page of their
-- summed size: no entry is skipped or repeated.
pub page_rows-continues :
    (id : Uuid) (position : Option LedgerPosition) (n k : ℕ) (ledger : List WalletLedgerEntry)
    (last : WalletLedgerEntry)
    → HasUniqueIds ledger
    → nth n (page_rows id position (suc n) ledger) ≡ some last
    → page_rows id position (suc n) ledger ++ page_rows id (some (position_of id last)) k ledger
      ≡ page_rows id position (suc n + k) ledger
unfolding page_rows is_after
page_rows-continues id position n k ledger last unique h =
    let xs : List WalletLedgerEntry = keep (is_after position) (ordered id ledger) in
    let at = sym (nth-take n xs) ∙ h in
    let sorted =
      keep-IsDescending (is_after position) (ordered id ledger)
        (ordered-IsDescending id ledger unique) in
    let own = nth-All _ n xs last (kept-holds (is_after position) (ordered id ledger)) at in
    let narrowed =
      keep-keep (is_after position) (below last) (ordered id ledger)
        (λ y e. after-below id position last y own e) in
    ap (λ ys. take (suc n) xs ++ take k ys) (sym narrowed ∙ below-drop n xs last sorted at)
    ∙ take-take-drop (suc n) k xs
