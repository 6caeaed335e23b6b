-- ===== src/Api/Balance.antt =====
-- The requests of the HTTP API keep the books balanced (internal/infrastructure/httpapi).
use backend_challenge.Adapters.Http.{wager_input, serve, Request, Services}
use backend_challenge.Adapters.Machine.{Machine}
use backend_challenge.Books.Balance.{IsBalanced}
use backend_challenge.Books.Logic.{books}
use backend_challenge.Api.Routes.{serve-Keeps}
use backend_challenge.Books.Opening.{open_wallet-IsBalanced}
use backend_challenge.Books.Execute.{execute-IsBalanced}

-- A request of any route keeps the books balanced, whoever sends it, whatever its headers and
-- document are and whichever calls of the database fail: after `Handler` every wallet's balance is
-- the sum of the entries of its ledger, if that held before.
pub serve-IsBalanced :
    (services : Services) (request : Request) (m : Machine)
    → IsBalanced (books m.world.db)
    → IsBalanced (books (serve services request m).1.world.db)
unfolding wager_input
serve-IsBalanced services request m h =
    serve-Keeps (λ db. IsBalanced (books db)) services request
      (λ now identity input is_open found range w.
        open_wallet-IsBalanced services.runtime input w range)
      (λ correlation now identity wager key money is_wager found read range w.
        execute-IsBalanced services.runtime identity.provider_id
          (wager_input wager key money correlation) w range)
      m h
