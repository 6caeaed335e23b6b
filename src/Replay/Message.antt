-- ===== src/Replay/Message.antt =====
-- A second delivery of a message (`ExecuteMessage`, internal/application/process_wager.go, and
-- `Register`, internal/infrastructure/postgres/inbox_repository.go).
use backend_challenge.Base.{true, Bool, if◌then◌else◌}
use backend_challenge.Text.{Text, str_eq}
use backend_challenge.Errors.{ok, fail, Result, inbox_conflict, inbox_incomplete}
use backend_challenge.Domain.Wager.{WagerTransaction}
use backend_challenge.Postgres.{Runtime, InboxRow}
use backend_challenge.Application.{ProcessWagerInput, WagerResult}
use backend_challenge.Replay.Stored.{stored_answer}

-- The answer to a message that is in the inbox: the stored operation for the same body, a conflict
-- for another body, and the program's own error where its treatment was not completed.
unfoldable pub message_answer :
    Runtime → InboxRow → Text → ProcessWagerInput → WagerTransaction → Result WagerResult
message_answer rt row body input existing =
    if str_eq row.payload_hash (rt.body_digest body)
    then if row.completed then stored_answer rt input existing else fail inbox_incomplete
    else fail inbox_conflict

module _ (rt : Runtime) (consumer id hash : Text) (row : InboxRow) where
  -- What the state of the row makes of the registration.
  state_of : Result Bool
  state_of =
      if str_eq row.payload_hash hash
      then if row.completed then ok true else fail inbox_incomplete
      else fail inbox_conflict
