-- ===== src/Lib.antt =====
-- The wagering backend: wallets, wager operations, their ledger and their events.
--
-- A wager request comes from the HTTP API or from a queue, is authorised by its provider, and runs
-- as one unit of work on PostgreSQL: it is replayed if it is stored already, and otherwise moves
-- the wallet's balance, stores the operation, its ledger entry and its events, or rejects the
-- operation, or lets it wait for the operation that it refers to. Workers resume the waiting
-- operations and publish the stored events.
--
-- Files and what they model, paths from the root of the repository:
--   Base, Text, Errors: integers and `int64`, byte strings (UTF-8, TrimSpace, ParseInt, Itoa), and
--     the error values that the packages under internal declare, with `errors.Is`.
--   Domain/Money: internal/domain/money.go (NewMoney is new_money, MoneyFromMinorUnits is
--     money_from_minor_units, String is to_string). Arithmetic, Notation, Grammar, Range and
--     RoundTrip prove.
--   Domain/Wallet: internal/domain/wallet.go (Credit and Debit are credit and debit).
--   Domain/Ledger: internal/domain/wallet_ledger_entry.go.
--   Domain/Wager: internal/domain/wager_transaction.go and wager_transaction_state.go (Fail is
--     mark_failed). A method that changes the transaction returns the changed one.
--   Domain/Events: internal/domain/events.go.
--   Postgres: internal/infrastructure/postgres, a repository per file, over the tables of
--     migrations. Statements are functions on the tables, run by the actions of UnitOfWork.
--   Application: internal/application, a use case per file (processWager is process_wager in
--     Process, Execute and ExecuteMessage are execute and execute_message in Execute).
--   Observability: internal/observability/metrics.go (Metrics is a record in State; ServeHTTP is
--     serve_metrics in Render; label is in Label). Labels and Durations prove.
--   Adapters/Responses, Adapters/Messages: the answers to errors of
--     internal/infrastructure/httpapi/json.go, and the messages and the classification of errors of
--     internal/infrastructure/messaging.
--   Adapters/Machine: the state that a request and a message work on: the tables, the metrics, and
--     the requests that were sent to the queue. Tasks has the rules for what tasks keep.
--   Adapters/Policy: internal/infrastructure/messaging/iam_policy.go (validateQueuePolicy is
--     validate_queue_policy). Grants and LeastPrivilege prove.
--   Adapters/Auth: internal/infrastructure/auth/authenticator.go and middleware.go (Authenticate is
--     authenticate, authorize is authorize; the start is start_authenticator in Discovery).
--     Admission proves.
--   Adapters/Settings: the settings of the packages under internal/infrastructure, apart from those
--     of the workers (NewConfig and NewConsumerConfig, a function each).
--   Adapters/Publisher: the start of internal/infrastructure/messaging/sqs.go.
--   Adapters/Consumer: internal/infrastructure/messaging/sqs_consumer.go (Handle is handle in
--     Handle; Receive, CheckReady and the start are receive, check_ready and start_consumer in
--     Receive). Requests and Refusals prove.
--   Adapters/Http: internal/infrastructure/httpapi (readJSON, writeJSON and contracts.go in Content,
--     the handlers of wallets and of wagers, and the routes with ready and Handler, which is serve,
--     in Api).
--   Api: what a request does to the tables, from the handlers up to serve.
--   Books: the invariant that a wallet's balance is the sum of its ledger entries. Logic has the
--     rules for actions that leave the books, keep what holds of them, or ensure something by their
--     success; the other files go from the statements up to the use cases.
--   Replay: what a repeated request does.
--   Pages: the order of a wallet's ledger pages, and their cursor (ListLedger, in Application/Pages).
--   Publishing: the reservations of the events that wait in the outbox, its statements in any
--     sequence (Lasting, with the open rows in Open), and an execution of PublishOutbox (Outcome).
--   Workers: internal/infrastructure/workers (the settings; the loop, which is work; and a turn of
--     each worker). Safety, Balance and Ending prove.
--   Tests: concrete runs.
--
-- How the code is read:
--   An `int64` is an integer whose operations wrap (Base/Int64); amounts are `int64` where a theorem
--   says so. Versions, attempts and times are natural numbers: no operation makes one negative, and
--   a version stops at the greatest `int64`. A time is a number of nanoseconds since the zero time,
--   a UUID a number with the nil UUID as 0. Pointers to domain objects are not nil. A kind, a status
--   or a direction outside the named ones is `unknown`. Wrapped errors are the errors they wrap.
--   The decimal digits of a number are printed on fuel 20, which is enough below 10 ^ 20, and an
--   `int64` is below 10 ^ 19.
--   A Runtime stands for what the program calls: uuid.New, time.Now, the digests, the equality of
--   JSONB, and for each statement the error that the database or a cancelled context may give it,
--   and for each COMMIT whether only its reply was lost. Theorems hold for every runtime, thus for
--   every schedule of faults. The calls are numbered, so two of them may differ.
--   A table is a list of rows with its unique indexes. CHECK constraints, foreign keys and triggers
--   are faults of the runtime. Units of work run one after the other, as the row locks order those
--   on one wallet; interleavings are not modelled.
--
-- A request's document is its decoding by encoding/json, or why there is none; a header is its
-- values; a route is a pattern of the router with its decoded path. `encodes` says which bodies
-- json.Marshal takes. The identity provider is a function from a token to its answer, the queue
-- service a Broker, which may fail each request, and a QueueService. Logs are not modelled.
--
-- A worker runs for a number of turns, which is a variable of the theorems, as long as it is not
-- cancelled. An Environment has the variables, time.ParseDuration, url.Parse, net.SplitHostPort and
-- the decoded senders.
--
-- Not modelled: the router of net/http, the listening server and JSON's text, the AWS client, the
-- connection pool and the wiring of the start-up, which are transport and third-party calls around
-- the parts above. The base64 and JSON text of a ledger cursor is a parameter, a CursorCodec.
pub mod Base
pub mod Text
pub mod Errors
pub mod Domain
pub mod Postgres
pub mod Application
pub mod Books
pub mod Replay
pub mod Publishing
pub mod Pages
pub mod Api
pub mod Adapters
pub mod Observability
pub mod Workers
pub mod Tests
