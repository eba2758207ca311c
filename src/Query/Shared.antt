-- ===== src/Query/Shared.antt =====
-- Answers that one user's question leaves for another (modules/query/query.service.js and
-- services/rag-cache.service.js).
use doc_query.Base.{ℕ, ◌≡◌, ◌∙◌, ap, arith, true, false, Option, none, some, List, [], ◌∷◌}
use doc_query.Base.Table.{Table}
use doc_query.Base.Attempt.{got}
use doc_query.Roles.{Role}
use doc_query.Access.Rows.{Grant}
use doc_query.Access.Rows as AccessRows
use doc_query.Documents.Rows.{Document}
use doc_query.Search.{Allowed}
use doc_query.Search.Rows.{Engine}
use doc_query.Redis.{Client, redis_get, redis_set}
use doc_query.Context.{first_set}
use doc_query.Query.{answered, answer_fresh, finish, cached_answer, query}
use doc_query.Query.Rows.{Args, Answer, Settings, Services, State}
use doc_query.Query.Prompts.{normalize_query}
use doc_query.Query.Cache.{is_empty, key_of, cache_get, cache_set}

module _ {C : Type 0} (client : Client C Answer) (sv : Services) (st : Settings) where
  -- With the cache ready, a stored answer is found again under its question, unless that is empty.
  pub cache_set-get :
      (a : Args) (text : List ℕ) (r : Answer) (c : C)
      → is_empty text ≡ false
      → client.ready c ≡ true
      → cache_get client sv st a text (cache_set client sv st a text r c).1 ≡ some r
  unfolding cache_get cache_set redis_get redis_set
  cache_set-get a text r c full up = ground (
    arith,
    full,
    up,
    client.ready-set (key_of sv st a text) r (first_set (st.cache_ttl ∷ []) 3600) c,
    client.get-set (key_of sv st a text) r (first_set (st.cache_ttl ∷ []) 3600) c,
  )

module _ {C : Type 0} (client : Client C Answer) (docs : Table Document)
    (access_docs : Table AccessRows.Document) (grants : Table Grant) (e : Engine) (sv : Services)
    (st : Settings) where
  -- A cached answer is given back.
  query-hit :
      (a : Args) (s : State C) (r : Answer)
      → cached_answer client docs access_docs grants e sv st a (normalize_query a.query) s ≡ some r
      → (query client docs access_docs grants e sv st a s).0 ≡ got (record r { cache_hit = true })
  unfolding query
  query-hit a s r hit = ground (arith, hit)

  -- A fresh one to a question that stands alone is stored.
  query-stores :
      (a : Args) (s : State C) (r : Answer)
      → a.history ≡ []
      → cached_answer client docs access_docs grants e sv st a (normalize_query a.query) s ≡ none
      → answer_fresh client docs access_docs grants e sv st a (normalize_query a.query) s
        ≡ got (answered r)
      → (query client docs access_docs grants e sv st a s).1
        ≡ record s { cache = (cache_set client sv st a (normalize_query a.query) r s.cache).1 }
  unfolding query finish
  query-stores a s r alone miss fresh = ground (arith, alone, miss, fresh)

  -- The cache is ready and a question that stands alone gets a fresh answer. Then anyone who asks the
  -- same in the same organization, whichever user, role and list of allowed documents is passed for
  -- them, gets that answer with its citations from the cache: no permission is checked.
  pub query-shares_answers :
      (a : Args) (s : State C) (r : Answer) (user : Option ℕ) (role : Option Role)
      (allowed : Option Allowed)
      → a.history ≡ []
      → is_empty (normalize_query a.query) ≡ false
      → client.ready s.cache ≡ true
      → cached_answer client docs access_docs grants e sv st a (normalize_query a.query) s ≡ none
      → answer_fresh client docs access_docs grants e sv st a (normalize_query a.query) s
        ≡ got (answered r)
      → (query client docs access_docs grants e sv st
          (record a { user_id = user; user_role = role; allowed = allowed })
          (query client docs access_docs grants e sv st a s).1).0
        ≡ got (record r { cache_hit = true })
  unfolding cached_answer cache_get
  query-shares_answers a s r user role allowed alone full up miss fresh =
      let asked : Args = record a { user_id = user; user_role = role; allowed = allowed } in
      let text = normalize_query a.query in
      let after = (query client docs access_docs grants e sv st a s).1 in
      let stored = ap (λ (x : State C). x.cache) (query-stores a s r alone miss fresh) in
      let found : cache_get client sv st asked text after.cache ≡ some r =
        ap (cache_get client sv st asked text) stored
        ∙ cache_set-get client sv st a text r s.cache full up in
      query-hit asked after r (ground (arith, alone, found))
