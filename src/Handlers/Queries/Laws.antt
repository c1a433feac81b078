-- ===== src/Handlers/Queries/Laws.antt =====
-- What a search returns.
use ticket_genius.Prelude.{◌≡◌, List, [], arith}
use ticket_genius.Python.{Result, ok}
use ticket_genius.Python.Json.{Json}
use ticket_genius.UnitOfWork.{Session, UnitOfWork}
use ticket_genius.MessageBus.{SearchPlansQuery, PlanSearchResult}
use ticket_genius.Handlers.Queries.{handle_search_plans}

module _ (S : Session) where
  -- A search returns only where the provider lists no event, and then it returns no plan.
  pub search_finds_nothing :
      (search : SearchPlansQuery → Result (List Json)) (query : SearchPlansQuery) (u : UnitOfWork S)
      (found : PlanSearchResult)
      → (handle_search_plans S search query u).0 ≡ ok found
      → (search query ≡ ok []) × (found.plans ≡ [])
  unfolding handle_search_plans
  search_finds_nothing search query u found h = ground arith
