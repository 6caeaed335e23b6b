-- ===== src/Books/Logic.antt =====
-- Reasoning about actions over every fault of the runtime: what an action leaves as it was, what
-- its success ensures, and what it keeps whatever its result. The books are the tables of wallets
-- and ledger entries.
use backend_challenge.Base.{◌∙◌, ◌≡◌, refl, sym, Bool, true, false, List, inl, inr, if◌then◌else◌}
use backend_challenge.Errors.{ok_inj, err_not_ok, Error, Result, ok, err, Result-cases}
use backend_challenge.Domain.Wallet.{Wallet}
use backend_challenge.Domain.Ledger.{WalletLedgerEntry}
use backend_challenge.Postgres.{
  next, Db, Runtime, World, Action, pure, lift, ◌>>=◌, clock, fresh_id,
}
use backend_challenge.Application.{attempt}

pub record Books : Type 0 where
  pub wallets : List Wallet
  pub ledger : List WalletLedgerEntry

abbrev pub books : Db → Books
books db = record { wallets = db.wallets; ledger = db.ledger }

module _ {A : Type 0} where
  -- The action leaves the books, whatever its result.
  unfoldable pub Frames : Action A → Type 0
  Frames m = (w : World) → books (m w).1.db ≡ books w.db

  -- From books of which `P` holds, a success of the action leads to books of which `Q` holds.
  unfoldable pub Ensures : (Books → Type 0) → Action A → (A → Books → Type 0) → Type 0
  Ensures P m Q = (w : World) (a : A) → P (books w.db) → (m w).0 ≡ ok a → Q a (books (m w).1.db)

  -- The action keeps what holds of the books, whatever its result.
  unfoldable pub Keeps : (Books → Type 0) → Action A → Type 0
  Keeps P m = (w : World) → P (books w.db) → P (books (m w).1.db)

module _ {A B : Type 0} (m : Action A) (f : A → Action B) where
  pub bind-ok : (w : World) (a : A) → (m w).0 ≡ ok a → (m >>= f) w ≡ f a (m w).1
  bind-ok w a h = rw (h, next) refl

  pub bind-err : (w : World) (e : Error) → (m w).0 ≡ err e → (m >>= f) w ≡ (err e, (m w).1)
  bind-err w e h = rw (h, next) refl

  pub >>=-Frames : Frames m → ((a : A) → Frames (f a)) → Frames (m >>= f)
  unfolding Frames
  >>=-Frames hm hf w = elim (Result-cases (m w).0) [
    | inl (a, h) ↦ rw (bind-ok w a h) (hf a (m w).1 ∙ hm w)
    | inr (e, h) ↦ rw (bind-err w e h) (hm w)
  ]

  pub >>=-Keeps : (P : Books → Type 0) → Keeps P m → ((a : A) → Keeps P (f a)) → Keeps P (m >>= f)
  unfolding Keeps
  >>=-Keeps P hm hf w p = elim (Result-cases (m w).0) [
    | inl (a, h) ↦ rw (bind-ok w a h) (hf a (m w).1 (hm w p))
    | inr (e, h) ↦ rw (bind-err w e h) (hm w p)
  ]

  pub >>=-Ensures :
      (P : Books → Type 0) (Q : A → Books → Type 0) (R : B → Books → Type 0)
      → Ensures P m Q
      → ((a : A) → Ensures (Q a) (f a) R)
      → Ensures P (m >>= f) R
  unfolding Ensures
  >>=-Ensures P Q R hm hf w b p h = elim (Result-cases (m w).0) [
    | inl (a, ha) ↦ rw (bind-ok w a ha) (hf a (m w).1 b (hm w a p ha) (rw (bind-ok w a ha) at h))
    | inr (e, he) ↦ absurd (err_not_ok (rw (bind-err w e he) at h))
  ]

module _ {A : Type 0} where
  pub lift-Frames : (r : Result A) → Frames (lift r)
  unfolding Frames
  lift-Frames r w = refl

  pub pure-Frames : (a : A) → Frames (pure a)
  unfolding Frames
  pure-Frames a w = refl

  pub lift-Ensures :
      (P : Books → Type 0) (r : Result A) → Ensures P (lift r) (λ a b. P b × (r ≡ ok a))
  unfolding Ensures
  lift-Ensures P r w a p h = (p, h)

  pub if-Frames : (b : Bool) (m n : Action A) → Frames m → Frames n → Frames (if b then m else n)
  if-Frames true m n hm hn = hm
  if-Frames false m n hm hn = hn

  pub attempt-Frames : (m : Action A) → Frames m → Frames (attempt m)
  unfolding Frames
  attempt-Frames m h w = h w

  -- An action that leaves the books keeps what holds of them.
  pub Frames-Keeps : (P : Books → Type 0) (m : Action A) → Frames m → Keeps P m
  unfolding Frames Keeps
  Frames-Keeps P m h w p = rw (h w) p

  pub Frames-Ensures : (P : Books → Type 0) (m : Action A) → Frames m → Ensures P m (λ a. P)
  unfolding Frames Ensures
  Frames-Ensures P m h w a p e = rw (h w) p

-- A success of an action that leaves the books gives its value.
module _ {A : Type 0} (P : Books → Type 0) where
  pub pure-Ensures : (a : A) → Ensures P (pure a) (λ b books. P books × (b ≡ a))
  unfolding Ensures
  pure-Ensures a w b p h = (p, sym (ok_inj h))

  pub Ensures-weaken :
      (m : Action A) (Q R : A → Books → Type 0)
      → Ensures P m Q
      → ((a : A) (b : Books) → Q a b → R a b)
      → Ensures P m R
  unfolding Ensures
  Ensures-weaken m Q R h f w a p e = f a _ (h w a p e)

  pub Ensures-narrow :
      (m : Action A) (S : Books → Type 0) (Q : A → Books → Type 0)
      → Ensures P m Q
      → ((b : Books) → S b → P b)
      → Ensures S m Q
  unfolding Ensures
  Ensures-narrow m S Q h f w a p e = h w a (f _ p) e

  -- A part of the precondition that does not speak of the books.
  pub Ensures-given :
      (H : Type 0) (m : Action A) (Q : A → Books → Type 0)
      → (H → Ensures P m Q)
      → Ensures (λ b. P b × H) m Q
  unfolding Ensures
  Ensures-given H m Q f w a p e = f p.1 w a p.0 e

module _ {A B : Type 0} (P : Books → Type 0) (R : B → Books → Type 0) where
  -- The step behind an action that leaves the books, and behind a result.
  pub Frames->>= :
      (m : Action A) (f : A → Action B)
      → Frames m
      → ((a : A) → Ensures P (f a) R)
      → Ensures P (m >>= f) R
  Frames->>= m f hm hf = >>=-Ensures m f P (λ a. P) R (Frames-Ensures P m hm) hf

  pub lift->>= :
      (r : Result A) (f : A → Action B)
      → ((a : A) → r ≡ ok a → Ensures P (f a) R)
      → Ensures P (lift r >>= f) R
  lift->>= r f hf =
      >>=-Ensures (lift r) f P (λ a b. P b × (r ≡ ok a)) R (lift-Ensures P r)
        (λ a. Ensures-given P (r ≡ ok a) (f a) R (hf a))

pub lift->>=-Keeps :
    {A B : Type 0} (P : Books → Type 0) (r : Result A) (f : A → Action B)
    → ((a : A) → r ≡ ok a → Keeps P (f a))
    → Keeps P (lift r >>= f)
unfolding Keeps
lift->>=-Keeps P (ok a) f h w p = h a refl w p
lift->>=-Keeps P (err e) f h w p = p

pub if-Ensures :
    {A : Type 0} (b : Bool) (m n : Action A) (P : Books → Type 0) (Q : A → Books → Type 0)
    → Ensures P m Q
    → Ensures P n Q
    → Ensures P (if b then m else n) Q
if-Ensures true m n P Q hm hn = hm
if-Ensures false m n P Q hm hn = hn

pub clock-Frames : (rt : Runtime) → Frames (clock rt)
unfolding Frames clock
clock-Frames rt w = refl

pub fresh_id-Frames : (rt : Runtime) → Frames (fresh_id rt)
unfolding Frames fresh_id
fresh_id-Frames rt w = refl
