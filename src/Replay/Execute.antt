-- ===== src/Replay/Execute.antt =====
-- `Execute` on a request whose idempotency key is stored (process_wager.go).
use backend_challenge.Base.{Option, none, subst, ◌≡◌, refl, sym}
use backend_challenge.Text.{Text, is_blank}
use backend_challenge.Errors.{Result, ok, ok_inj, then-eq-ok}
use backend_challenge.Domain.Money
use backend_challenge.Domain.Wallet.{Time, Uuid}
use backend_challenge.Domain.Wager.{new_wager_transaction, WagerTransaction}
use backend_challenge.Domain.Wager.Transitions.{new_wager_transaction_inv}
use backend_challenge.Postgres.{Runtime, World, Db}
use backend_challenge.Application.{
  Trace, InboxMessage, WagerResult, ProcessWagerInput, payload_hash, requested_wager,
  process_request, deliver, correlation, context_error, execute_request, execute,
}
use backend_challenge.Replay.Reads.{
  Answers, Reads->>=, lift->>=-Answers, within_transaction-Answers, Reads, IsAnswered, lift-Reads,
  if-Reads, query-Reads, clock-Reads, fresh_id-Reads, >>=-Reads,
}
use backend_challenge.Replay.Stored.{
  IsStored, IsRequest, HonestFaults, stored_answer, unless_replayed-Answers,
}

correlation-Reads : (rt : Runtime) (id : Text) → Reads (correlation rt id)
unfolding correlation
correlation-Reads rt id =
    if-Reads (is_blank id) _ _
      (>>=-Reads _ _ (fresh_id-Reads rt) (λ fresh. lift-Reads (ok (rt.uuid_text fresh))))
      (lift-Reads (ok id))

-- The transaction that is built for a request has its provider and key, and the digest of its
-- content.
IsRequest-built :
    (rt : Runtime) (input : ProcessWagerInput) (hash : Text) (now : Time) (id : Uuid)
    (t : WagerTransaction)
    → payload_hash rt input ≡ ok hash
    → new_wager_transaction now id (requested_wager input hash) ≡ ok t
    → IsRequest rt input t
unfolding payload_hash
IsRequest-built rt input hash now id t hashed built =
    let (valid, digest) = then-eq-ok (Money.validate input.money) _ hashed in
    let (checked, known, external, same) =
      new_wager_transaction_inv now id (requested_wager input hash) t built in
    subst (IsRequest rt input) (sym same)
      (record { provider = refl; key = refl; hash = sym (ok_inj digest) })

-- What the work of the transaction answers for every transaction of the request, the request does.
pub execute_request-Answers :
    (rt : Runtime) (provider : Text) (input : ProcessWagerInput) (message : Option InboxMessage)
    (answer : Result WagerResult) (db : Db)
    → ((trace : Trace) (t : WagerTransaction)
        → IsRequest rt input t
        → Answers answer db (deliver rt input trace t message))
    → Answers answer db (execute_request rt provider input message)
unfolding execute_request context_error
execute_request-Answers rt provider input message answer db answers =
    Reads->>= answer db _ _ (query-Reads rt _) (λ live.
      Reads->>= answer db _ _ (lift-Reads _) (λ checked.
        lift->>=-Answers answer db _ _ (λ hash hashed.
          Reads->>= answer db _ _ (clock-Reads rt) (λ now.
            Reads->>= answer db _ _ (fresh_id-Reads rt) (λ id.
              lift->>=-Answers answer db _ _ (λ t built.
                Reads->>= answer db _ _ (correlation-Reads rt input.correlation_id)
                  (λ correlation_id.
                    within_transaction-Answers rt _ answer db
                      (answers _ t (IsRequest-built rt input hash now id t hashed built)))))))))

request-Answers :
    (rt : Runtime) (provider : Text) (input : ProcessWagerInput) (existing : WagerTransaction)
    (db : Db)
    → HonestFaults rt
    → IsStored input existing db
    → Answers (stored_answer rt input existing) db (execute rt provider input)
unfolding execute deliver process_request
request-Answers rt provider input existing db honest stored =
    execute_request-Answers rt provider input none (stored_answer rt input existing) db
      (λ trace t request. unless_replayed-Answers rt honest input existing t request _ db stored)

-- Where the key of a request is stored, and no fault is the program's own error for a missing
-- operation, `Execute` changes no table; it answers with the stored operation, as a replay, if that
-- has the same content, refuses the request as a conflict if it has not, or returns an error.
pub execute-IsAnswered :
    (rt : Runtime) (provider : Text) (input : ProcessWagerInput) (existing : WagerTransaction)
    (w : World)
    → HonestFaults rt
    → IsStored input existing w.db
    → IsAnswered (stored_answer rt input existing) w.db (execute rt provider input w)
unfolding Answers
execute-IsAnswered rt provider input existing w honest stored =
    request-Answers rt provider input existing w.db honest stored w refl
