-- ===== src/Replay/Stored.antt =====
-- `findWagerReplay` on a request whose idempotency key is stored (process_wager.go).
use backend_challenge.Base.{
  subst, ℕ, ap, ◌≡◌, refl, sym, ◌∙◌, ◌⊎◌, inl, inr, Bool, true, false, ◌&&◌, Option, none, some,
  if◌then◌else◌, arith,
}
use backend_challenge.Text.{str_eq}
use backend_challenge.Errors
use backend_challenge.Errors.{
  Error, Result, ok, err, fail, ok_inj, err_not_ok, is_error, wager_not_found, idempotency_conflict,
  then-eq-ok,
}
use backend_challenge.Domain.Wallet.{Time}
use backend_challenge.Domain.Wager.{WagerTransaction}
use backend_challenge.Postgres.{
  find_by_external_id, lift, lift, Runtime, World, WagerRow, Db, Action, ◌>>=◌, first, has_key,
  scan_wager, select_wager, find_by_idempotency_key,
}
use backend_challenge.Application.{
  ProcessWagerInput, WagerResult, wager_result, hash_payload, replay_of, replay_found,
  second_lookup, find_wager_replay, unless_replayed, attempt,
}
use backend_challenge.Replay.Reads.{
  Answers, Reads, IsAnswered, >>=-IsAnswered, lift-Reads, attempt-Reads, if-Reads, query-Reads,
  query-cases, >>=-Reads,
}

-- The row that the table has under the key.
pub record IsStored (input : ProcessWagerInput) (existing : WagerTransaction) (db : Db)
    : Type 0 where
  pub row : WagerRow
  pub found : first (has_key input.provider_id input.idempotency_key) db.wagers ≡ some row
  pub scanned : scan_wager row ≡ ok existing

-- The answer to a request whose key belongs to a stored operation.
unfoldable pub stored_answer : Runtime → ProcessWagerInput → WagerTransaction → Result WagerResult
stored_answer rt input existing =
    if str_eq existing.payload_hash (rt.digest (hash_payload input))
      && str_eq existing.idempotency_key input.idempotency_key
    then ok (wager_result existing true)
    else fail idempotency_conflict

-- The program's own error for a missing operation comes from no fault.
abbrev pub HonestFaults : Runtime → Type 0
HonestFaults rt = (n : ℕ) (e : Error) → rt.fault n ≡ some e → is_error e wager_not_found ≡ false

-- The transaction that is built for a request.
pub record IsRequest (rt : Runtime) (input : ProcessWagerInput) (t : WagerTransaction)
    : Type 0 where
  pub provider : t.provider_id ≡ input.provider_id
  pub key : t.idempotency_key ≡ input.idempotency_key
  pub hash : t.payload_hash ≡ rt.digest (hash_payload input)

select_wager-found :
    (matches : WagerRow → Bool) (row : WagerRow) (now : Time) (db : Db)
    → first matches db.wagers ≡ some row
    → select_wager matches now db ≡ scan_wager row
unfolding select_wager
select_wager-found matches row now db h = rw (h, select_wager) refl

module _ (rt : Runtime) (honest : HonestFaults rt) (input : ProcessWagerInput)
    (existing t : WagerTransaction) (request : IsRequest rt input t) where
  replay_of-answer : replay_of t existing ≡ stored_answer rt input existing
  unfolding replay_of stored_answer
  replay_of-answer = rw (request.key, request.hash) (ground arith)

  selected :
      (w : World)
      → IsStored input existing w.db
      → select_wager (has_key t.provider_id t.idempotency_key) (rt.now w.calls) w.db ≡ ok existing
  selected w stored =
      rw (request.provider, request.key)
        (select_wager-found _ stored.row _ w.db stored.found ∙ stored.scanned)

  find-Reads : Reads (find_by_idempotency_key rt t.provider_id t.idempotency_key)
  unfolding find_by_idempotency_key
  find-Reads = query-Reads rt _

  -- The first lookup finds the stored operation, or fails.
  looked_up :
      (w : World) (r : Result WagerTransaction)
      → IsStored input existing w.db
      → (attempt (find_by_idempotency_key rt t.provider_id t.idempotency_key) w).0 ≡ ok r
      → (r ≡ ok existing) ⊎ ((e : Error) × (r ≡ err e) × (is_error e wager_not_found ≡ false))
  unfolding find_by_idempotency_key
  looked_up w r stored h =
      elim (query-cases rt (select_wager (has_key t.provider_id t.idempotency_key)) w) [
        | inl value ↦ inl (sym (ok_inj h) ∙ value ∙ selected w stored)
        | inr (e, faulty, value) ↦ inr (e, sym (ok_inj h) ∙ value, honest w.calls e faulty)
      ]

  abbrev replay_answer : Result (Option WagerResult)
  replay_answer = Errors.◌>>=◌ (stored_answer rt input existing) (λ result. ok (some result))

  -- The end of `findWagerReplay`, behind the first lookup.
  behind_lookup :
      (by_key : Result WagerTransaction) (db : Db) (v : World)
      → v.db ≡ db
      → (by_key ≡ ok existing)
        ⊎ ((e : Error) × (by_key ≡ err e) × (is_error e wager_not_found ≡ false))
      → IsAnswered replay_answer db
          ((second_lookup rt t by_key >>= λ looked. lift (replay_found t looked)) v)
  unfolding second_lookup replay_found
  behind_lookup by_key db v same (inl here) = rw here (record {
    unchanged = same;
    answered = inl (ap (λ a. Errors.◌>>=◌ a (λ result. ok (some result))) replay_of-answer);
  })
  behind_lookup by_key db v same (inr (e, broken, other)) =
      rw (broken, other) (record { unchanged = same; answered = inr (e, rw other refl) })

  find_wager_replay-Answered :
      (w : World)
      → IsStored input existing w.db
      → IsAnswered replay_answer w.db (find_wager_replay rt t w)
  unfolding find_wager_replay
  find_wager_replay-Answered w stored =
      >>=-IsAnswered _ _ replay_answer w.db w refl (attempt-Reads _ find-Reads)
        (λ by_key v same h. behind_lookup by_key w.db v same (looked_up w by_key stored h))

  second_lookup-Reads : (by_key : Result WagerTransaction) → Reads (second_lookup rt t by_key)
  unfolding second_lookup find_by_external_id
  second_lookup-Reads (ok found) = lift-Reads (ok (ok found))
  second_lookup-Reads (err e) =
      if-Reads (is_error e wager_not_found) _ _ (attempt-Reads _ (query-Reads rt _))
        (lift-Reads (ok (err e)))

  find_wager_replay-Reads : Reads (find_wager_replay rt t)
  unfolding find_wager_replay
  find_wager_replay-Reads = >>=-Reads _ _ (attempt-Reads _ find-Reads) (λ by_key.
      >>=-Reads _ _ (second_lookup-Reads by_key) (λ looked. lift-Reads (replay_found t looked)))

  -- A replay that was found is the answer.
  replayed :
      (answer : Result WagerResult) (replay : Option WagerResult) (rest : Action WagerResult)
      (v : World)
      → Errors.◌>>=◌ answer (λ result. ok (some result)) ≡ ok replay
      → IsAnswered answer v.db (unless_replayed rt replay rest v)
  unfolding unless_replayed
  replayed (ok result) (some replay) rest v h = record { unchanged = refl; answered = inl cc }
  replayed (ok result) none rest v h = absurd cc
  replayed (err e) replay rest v h = absurd cc

  unless_replayed-Answered :
      (rest : Action WagerResult) (db : Db) (w : World)
      → w.db ≡ db
      → IsStored input existing db
      → IsAnswered
          (stored_answer rt input existing)
          db
          ((find_wager_replay rt t >>= λ replay. unless_replayed rt replay rest) w)
  unless_replayed-Answered rest db w here stored =
      >>=-IsAnswered _ _ (stored_answer rt input existing) db w here find_wager_replay-Reads
        (λ replay v same h.
          elim (find_wager_replay-Answered w
            (subst (IsStored input existing) (sym here) stored)).answered [
              | inl answer ↦
                  rw (sym same)
                    (replayed (stored_answer rt input existing) replay rest v (sym answer ∙ h))
              | inr (e, broken) ↦ absurd (err_not_ok (sym broken ∙ h))
            ])

  pub unless_replayed-Answers :
      (rest : Action WagerResult) (db : Db)
      → IsStored input existing db
      → Answers
          (stored_answer rt input existing)
          db
          (find_wager_replay rt t >>= λ replay. unless_replayed rt replay rest)
  unfolding Answers
  unless_replayed-Answers rest db stored w same = unless_replayed-Answered rest db w same stored
