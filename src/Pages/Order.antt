-- ===== src/Pages/Order.antt =====
-- The order of the entries that a page lists (`ORDER BY created_at DESC,id DESC`,
-- internal/infrastructure/postgres/wallet_queries.go).
use backend_challenge.Base.{
  ◌≡◌, ◌≢◌, Bool, true, false, inl, inr, List, [], ◌∷◌, ◌==◌, arith, All, Bool-cases,
}
use backend_challenge.Domain.Wallet.{Uuid}
use backend_challenge.Domain.Ledger.{WalletLedgerEntry}
use backend_challenge.Application.{is_below, place, ordered, keep}

-- The second entry comes behind the first one.
abbrev pub below : WalletLedgerEntry → WalletLedgerEntry → Bool
below x y = is_below x.created_at x.id y

abbrev pub Apart : WalletLedgerEntry → WalletLedgerEntry → Type 0
Apart x y = x.id ≢ y.id

-- The primary key of the table.
abbrev pub HasUniqueIds : List WalletLedgerEntry → Type 0
HasUniqueIds [] = Unit
HasUniqueIds (x ∷ xs) = All (Apart x) xs × HasUniqueIds xs

abbrev pub IsDescending : List WalletLedgerEntry → Type 0
IsDescending [] = Unit
IsDescending (x ∷ xs) = All (λ y. below x y ≡ true) xs × IsDescending xs

pub below_trans :
    (x y z : WalletLedgerEntry) → below x y ≡ true → below y z ≡ true → below x z ≡ true
unfolding is_below
below_trans x y z h k = ground (arith, h, k)

pub below_irrefl : (x : WalletLedgerEntry) → below x x ≡ false
unfolding is_below
below_irrefl x = ground arith

pub below_asym : (x y : WalletLedgerEntry) → below x y ≡ true → below y x ≡ false
unfolding is_below
below_asym x y h = ground (arith, h)

below_total : (x y : WalletLedgerEntry) → Apart x y → below x y ≡ false → below y x ≡ true
unfolding is_below
below_total x y apart h = ground (arith, apart, h)

pub All-map :
    (P Q : WalletLedgerEntry → Type 0) (xs : List WalletLedgerEntry)
    → ((y : WalletLedgerEntry) → P y → Q y)
    → All P xs
    → All Q xs
All-map P Q [] f all = tt
All-map P Q (x ∷ xs) f (here, rest) = (f x here, All-map P Q xs f rest)

-- What holds of an entry and of a list holds of the list with the entry placed in it.
place-All :
    (P : WalletLedgerEntry → Type 0) (e : WalletLedgerEntry) (xs : List WalletLedgerEntry)
    → P e
    → All P xs
    → All P (place e xs)
unfolding place
place-All P e [] h all = (h, tt)
place-All P e (x ∷ xs) h (here, rest) = elim (Bool-cases (below e x)) [
  | inl first ↦ rw first (h, (here, rest))
  | inr later ↦ rw later (here, place-All P e xs h rest)
]

place-IsDescending :
    (e : WalletLedgerEntry) (xs : List WalletLedgerEntry)
    → All (Apart e) xs
    → IsDescending xs
    → IsDescending (place e xs)
unfolding place
place-IsDescending e [] apart sorted = (tt, tt)
place-IsDescending e (x ∷ xs) (here, rest) (tops, sorted) = elim (Bool-cases (below e x)) [
  | inl first ↦
      rw first ((first, All-map _ _ xs (λ y h. below_trans e x y first h) tops), (tops, sorted))
  | inr later ↦
      rw later
        (place-All _ e xs (below_total e x here later) tops, place-IsDescending e xs rest sorted)
]

ordered-All :
    (P : WalletLedgerEntry → Type 0) (id : Uuid) (xs : List WalletLedgerEntry)
    → All P xs
    → All P (ordered id xs)
unfolding ordered
ordered-All P id [] all = tt
ordered-All P id (x ∷ xs) (here, rest) = elim (Bool-cases (x.wallet_id == id)) [
  | inl own ↦ rw own (place-All P x (ordered id xs) here (ordered-All P id xs rest))
  | inr other ↦ rw other (ordered-All P id xs rest)
]

-- The entries of a wallet are listed from the latest to the earliest, without ties.
pub ordered-IsDescending :
    (id : Uuid) (xs : List WalletLedgerEntry) → HasUniqueIds xs → IsDescending (ordered id xs)
unfolding ordered
ordered-IsDescending id [] unique = tt
ordered-IsDescending id (x ∷ xs) (apart, unique) = elim (Bool-cases (x.wallet_id == id)) [
  | inl own ↦ rw own (
      place-IsDescending x (ordered id xs) (ordered-All _ id xs apart)
        (ordered-IsDescending id xs unique))
  | inr other ↦ rw other (ordered-IsDescending id xs unique)
]

module _ (p : WalletLedgerEntry → Bool) where
  keep-All :
      (P : WalletLedgerEntry → Type 0) (xs : List WalletLedgerEntry) → All P xs → All P (keep p xs)
  unfolding keep
  keep-All P [] all = tt
  keep-All P (x ∷ xs) (here, rest) = elim (Bool-cases (p x)) [
    | inl kept ↦ rw kept (here, keep-All P xs rest)
    | inr left ↦ rw left (keep-All P xs rest)
  ]

  pub keep-IsDescending : (xs : List WalletLedgerEntry) → IsDescending xs → IsDescending (keep p xs)
  unfolding keep
  keep-IsDescending [] sorted = tt
  keep-IsDescending (x ∷ xs) (tops, sorted) = elim (Bool-cases (p x)) [
    | inl kept ↦ rw kept (keep-All _ xs tops, keep-IsDescending xs sorted)
    | inr left ↦ rw left (keep-IsDescending xs sorted)
  ]
