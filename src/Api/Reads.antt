-- ===== src/Api/Reads.antt =====
-- The use cases that change no table (internal/application and internal/infrastructure/httpapi).
use backend_challenge.Base.{
  ◌+◌, pos_part, pos, ltb_ℤ, ℕ, ◌≡◌, refl, ℤ, ◌||◌, inl, inr, Option, Bool-cases, Option-cases,
}
use backend_challenge.Text.{Text}
use backend_challenge.Errors.{invalid_ledger_page, invalid_wallet, fail_if, Result-cases}
use backend_challenge.Domain.Wallet.{is_nil, Uuid}
use backend_challenge.Postgres.{
  lift, Runtime, Db, World, Action, within_transaction, finish, commit, called, find_wallet,
  find_by_id, find_by_external_id,
}
use backend_challenge.Application.{
  ledger_page, decode_ledger_cursor, page_rows, read_entries, LedgerPosition, CursorCodec,
  list_ledger, list_rows, reconcile_wallet,
}
use backend_challenge.Replay.Reads.{Reads, >>=-Reads, lift-Reads, query-Reads}

module _ (rt : Runtime) where
  commit-Reads :
      {A : Type 0} (before : Db) (a : A) (w : World)
      → w.db ≡ before
      → (commit rt before a w).1.db ≡ before
  unfolding commit
  commit-Reads before a w same = elim (Option-cases (rt.fault w.calls)) [
    | inl done ↦ rw (done, commit) same
    | inr (e, failed) ↦ elim (Bool-cases (rt.lost_reply w.calls)) [
      | inl lost ↦ rw (failed, lost, commit) same
      | inr back ↦ rw (failed, back, commit) refl
    ]
  ]

  within_transaction-Reads :
      {A : Type 0} (work : Action A) → Reads work → Reads (within_transaction rt work)
  unfolding Reads within_transaction finish
  within_transaction-Reads work reads w = elim (Option-cases (rt.fault w.calls)) [
    | inr (e, failed) ↦ rw (failed, within_transaction) refl
    | inl begun ↦ elim (Result-cases (work (called w)).0) [
      | inr (e, failed) ↦ rw (begun, failed, within_transaction, finish) refl
      | inl (a, done) ↦
          rw (begun, done, within_transaction, finish)
            (commit-Reads w.db a (work (called w)).1 (reads (called w)))
    ]
  ]

  find_wallet-Reads : (id : Uuid) → Reads (find_wallet rt id)
  unfolding find_wallet
  find_wallet-Reads id = query-Reads rt _

  pub transaction_wallet-Reads : (id : Uuid) → Reads (within_transaction rt (find_wallet rt id))
  transaction_wallet-Reads id = within_transaction-Reads (find_wallet rt id) (find_wallet-Reads id)

  pub transaction_id-Reads :
      (provider : Text) (id : Uuid) → Reads (within_transaction rt (find_by_id rt provider id))
  unfolding find_by_id
  transaction_id-Reads provider id = within_transaction-Reads _ (query-Reads rt _)

  pub transaction_name-Reads :
      (provider external_id : Text)
      → Reads (within_transaction rt (find_by_external_id rt provider external_id))
  unfolding find_by_external_id
  transaction_name-Reads provider external_id = within_transaction-Reads _ (query-Reads rt _)

  pub reconcile_wallet-Reads : (id : Uuid) → Reads (reconcile_wallet rt id)
  unfolding reconcile_wallet
  reconcile_wallet-Reads id =
      >>=-Reads _ _ (lift-Reads _)
        (λ checked. >>=-Reads _ _ (query-Reads rt _) (λ snapshot. lift-Reads _))

  list_rows-Reads :
      (codec : CursorCodec) (id : Uuid) (position : Option LedgerPosition) (limit : ℕ)
      → Reads (list_rows rt codec id position limit)
  unfolding list_rows
  list_rows-Reads codec id position limit =
      >>=-Reads (find_wallet rt id) _ (find_wallet-Reads id)
        (λ wallet. query-Reads rt (λ now db. read_entries (page_rows id position limit db.ledger)))

  pub list_ledger-Reads :
      (codec : CursorCodec) (id : Uuid) (cursor : Text) (limit : ℤ)
      → Reads (list_ledger rt codec id cursor limit)
  unfolding list_ledger
  list_ledger-Reads codec id cursor limit =
      >>=-Reads (lift (fail_if (is_nil id) invalid_wallet)) _ (lift-Reads _) (λ named.
        >>=-Reads
          (lift (fail_if (ltb_ℤ limit (pos 1) || ltb_ℤ (pos 100) limit) invalid_ledger_page)) _
          (lift-Reads _)
          (λ bounded.
            >>=-Reads (lift (decode_ledger_cursor codec id cursor)) _ (lift-Reads _) (λ position.
              >>=-Reads (list_rows rt codec id position (pos_part limit + 1)) _
                (list_rows-Reads codec id position (pos_part limit + 1))
                (λ items. lift-Reads (ledger_page codec id (pos_part limit) items)))))
