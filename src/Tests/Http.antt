-- ===== src/Tests/Http.antt =====
-- A provider's request for a bet on the wallet that was opened.
use backend_challenge.Adapters.Http.{at_end, value, malformed}
use backend_challenge.Errors.{ok}
use backend_challenge.Domain.Wager.{bet}
use backend_challenge.Base.{pos, none, some, [], ◌∷◌, true, ◌⊎◌, ◌≡◌}
use backend_challenge.Adapters.Http.{wager_route, Services, serve, WagerRequest, Request}
use backend_challenge.Adapters.Machine.{Machine}
use backend_challenge.Books.Balance.{IsBalanced}
use backend_challenge.Tests.Scenario.{brl, runtime, opened}
use backend_challenge.Api.Entitlement.{serve-IsEntitled, IsEntitled}
use backend_challenge.Text.{text}
use backend_challenge.Books.Logic.{books}
use backend_challenge.Api.Balance.{serve-IsBalanced}
use backend_challenge.Observability.{new_metrics}
use backend_challenge.Tests.Books.{opened-IsBalanced}
use backend_challenge.Tests.Auth.{ask, settings}

abbrev services : Services
services = record {
  runtime = runtime;
  encodes = λ body. true;
  codec = record { encode = λ position. ok (text "c"); decode = λ cursor. none };
  auth = settings;
  ask = ask;
  unix = λ time. pos time;
  seconds = λ micros. text "0.000000";
  check_sqs = λ n. ok (pos 0);
}

abbrev wager : WagerRequest
wager = record {
  provider_id = text "p";
  external_transaction_id = text "e1";
  player_id = 7;
  wallet_id = 102;
  round_id = text "r";
  game_id = text "g";
  kind = bet;
  money = record { amount = text "2.50"; currency = brl };
  reference_external_transaction_id = none;
}

abbrev request : Request
request = record {
  route = wager_route;
  authorization = text "Bearer p" ∷ [];
  correlation = text "c";
  idempotency_keys = text "k1" ∷ [];
  media_type = some (text "application/json");
  wallet_document = malformed;
  wager_document = value (some wager) at_end;
}

abbrev machine : Machine
machine = record { world = opened; metrics = new_metrics; queue = [] }

serve-IsBalanced_example : IsBalanced (books (serve services request machine).1.world.db)
serve-IsBalanced_example = serve-IsBalanced services request machine opened-IsBalanced

serve-IsEntitled_example :
    ((serve services request machine).1.world.db ≡ machine.world.db) ⊎ IsEntitled services request
serve-IsEntitled_example = serve-IsEntitled services request machine
