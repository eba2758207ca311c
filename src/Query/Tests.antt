-- ===== src/Query/Tests.antt =====
-- Questions to the sample organization, over a cache that is a list, and the theorems at them.
use doc_query.Base.{
  subst, ap, length, ◌<◌, List, ℕ, ◌≡◌, refl, ◌==◌, arith, true, false, none, some, [], ◌∷◌, All,
  if◌then◌else◌,
}
use doc_query.Base.Attempt.{Attempt, and_then, got, threw, Results}
use doc_query.Roles.{member, viewer}
use doc_query.Text.{codes, text_eq, is_space}
use doc_query.Access.{get_accessible_document_ids, accessible}
use doc_query.Access.Rows.{Grant}
use doc_query.Access.Rows as AccessRows
use doc_query.Context.{select_context, select_loop, consider, verdict, gives_way, count_of}
use doc_query.Redis.{redis_get}
use doc_query.Redis.Sample.{function_client, scanner, nothing_stored}
use doc_query.Search.{vector_search, check_document, find_similar_chunks}
use doc_query.Search.Sample.{engine, docs, two_documents, two_chunks}
use doc_query.Query.Sample.{Store, client, services, settings, access_docs, grants}
use doc_query.Query.{
  query, cached_answer, answer_fresh, answered, effective_query, retrieve, allowed_documents,
  conclude, respond, bounded, map_citations, validate_citations,
}
use doc_query.Query.Rows.{Args, strict, Answer, State}
use doc_query.Query.Prompts.{normalize_query, collapse}
use doc_query.Query.Cache.{is_empty, cache_get, invalidate_tenant}
use doc_query.Query.Shared.{query-shares_answers}
use doc_query.Query.Scoped.{Cites}
use doc_query.Query.Rerankers.{Reranking, cohere_provider, with_reranker}
use doc_query.Query.Readable.{may_read, query-may_read}
use doc_query.Query.Invalidated.{cache_get-invalidate_tenant}
use doc_query.Query.Tenants.{UuidTexts}
use doc_query.Query.History.{CitesTenant, Clean, ask_all, ask_all-CitesTenant}

-- A member asks in the whole organization; document 2 can be read by a user of their own only.
abbrev question : Args
question = record {
  organization_id = 7;
  query = codes "a ";
  top_k = none;
  document_id = none;
  threshold = none;
  history = [];
  retrieval_query = [];
  user_id = some 3;
  user_role = some member;
  allowed = none;
  answer_mode = strict;
  enable_hybrid = false;
  enable_reranking = true;
}

abbrev private_grant : Grant
private_grant = record {
  id = 1;
  document_id = 2;
  grantee_type = AccessRows.user;
  grantee_id = some 4;
  grantee_role = none;
  permission = AccessRows.read;
}

abbrev start : State Store
start = record {
  documents = two_documents;
  grants = private_grant ∷ [];
  chunks = two_chunks;
  cache = [];
}

unit_differs : (n m : ℕ) → (n == m) ≡ false → text_eq (n ∷ []) (m ∷ []) ≡ false
unfolding text_eq
unit_differs n m h = ground (arith, h)

asks_something : is_empty (normalize_query question.query) ≡ false
unfolding normalize_query collapse is_space
asks_something = refl

missed :
    cached_answer client docs access_docs grants engine services settings question
      (normalize_query question.query)
      start
    ≡ none
unfolding cached_answer cache_get redis_get normalize_query collapse is_space
missed = refl

-- The reranker of Cohere, for which the first text is the best.
abbrev best_first : List (List ℕ) → List (ℕ × ℕ)
best_first [] = []
best_first (t ∷ ts) = (0, 5) ∷ []

abbrev results_of : Attempt (List (ℕ × ℕ)) → List (ℕ × ℕ)
results_of (got rs) = rs
results_of (threw x) = []

best_first-in_range :
    (texts : List (List ℕ)) → All (λ (r : ℕ × ℕ). r.0 < length texts) (best_first texts)
best_first-in_range [] = tt
best_first-in_range (t ∷ ts) = (omega arith, tt)

abbrev reranking : Reranking
reranking = record {
  provider = cohere_provider true;
  combined = λ query i c. i;
  fixed = λ n. n;
  ask_service = λ query texts n. got (best_first texts);
  ask_service_lem = λ query texts n results e.
      subst (All (λ (r : ℕ × ℕ). r.0 < length texts)) (ap results_of e) (best_first-in_range texts);
}

missed_reranked :
    cached_answer client docs access_docs grants engine
      (with_reranker reranking services)
      settings
      question
      (normalize_query question.query)
      start
    ≡ none
unfolding cached_answer cache_get redis_get normalize_query collapse is_space
missed_reranked = refl

query-may_read_example :
    Results
      (λ (x : Answer).
        Cites (λ d. may_read access_docs grants question 3 member start d ≡ true) x.citations)
      (query client docs access_docs grants engine
        (with_reranker reranking services)
        settings
        question
        start).0
query-may_read_example =
    query-may_read client docs access_docs grants engine services settings reranking question 3
      member start refl refl refl refl refl (refl, (refl, tt)) missed_reranked

abbrev expected : Answer
expected = record {
  answer = codes "yes";
  citations =
      record {
        document_id = some 1;
        chunk_id = some 11;
        document_name = none;
        page_number = none;
        content = codes "text";
        quote = codes "text";
        score = 11;
      }
      ∷ [];
  retrieved_chunks = 1;
  document_ids = some 1 ∷ [];
  cache_hit = false;
}

answered_fresh :
    answer_fresh client docs access_docs grants engine services settings question
      (normalize_query question.query)
      start
    ≡ got (answered expected)
unfolding answer_fresh effective_query retrieve allowed_documents conclude respond bounded
    map_citations validate_citations normalize_query collapse is_space and_then vector_search
    check_document find_similar_chunks get_accessible_document_ids accessible select_context
    select_loop consider verdict gives_way count_of
answered_fresh = refl

-- A viewer of the organization gets what the member was answered.
query-shares_answers_example :
    (query client docs access_docs grants engine services settings
      (record question { user_id = some 9; user_role = some viewer; allowed = some (some []) })
      (query client docs access_docs grants engine services settings question start).1).0
    ≡ got (record expected { cache_hit = true })
query-shares_answers_example =
    query-shares_answers client docs access_docs grants engine services settings question start
      expected (some 9) (some viewer) (some (some [])) refl asks_something refl missed
      answered_fresh

abbrev texts : UuidTexts services
texts = record { same_length = λ n m. refl; distinct = unit_differs }

nothing_cached : Clean client (with_reranker reranking services) settings start
unfolding cache_get redis_get
nothing_cached b q r h = absurd (ground (arith, h))

ask_all-CitesTenant_example :
    All
      (λ (x : Args × Attempt Answer). Results (CitesTenant start.documents x.0.organization_id) x.1)
      (ask_all client docs access_docs grants engine
        (with_reranker reranking services)
        settings
        (question ∷ record question { organization_id = 8 } ∷ question ∷ [])
        start)
ask_all-CitesTenant_example =
    ask_all-CitesTenant client docs access_docs grants engine services settings reranking
      (question ∷ record question { organization_id = 8 } ∷ question ∷ []) start texts
      nothing_cached

cache_get-invalidate_tenant_example :
    cache_get function_client services settings question question.query
      (invalidate_tenant scanner services 7 nothing_stored)
    ≡ (if 7 == question.organization_id
        then none
        else cache_get function_client services settings question question.query nothing_stored)
cache_get-invalidate_tenant_example =
    cache_get-invalidate_tenant scanner services settings 7 question question.query nothing_stored
      texts refl
