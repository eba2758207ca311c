-- ===== src/Query/Sample.antt =====
-- Collaborators of the query service for the tests: a cache that is a list, and a language model that
-- always says yes.
use doc_query.Base.{
  ℕ, ◌≡◌, refl, arith, true, false, Option, none, some, List, [], ◌∷◌, if◌then◌else◌,
}
use doc_query.Base.Table.{Table, in_memory}
use doc_query.Base.Attempt.{got}
use doc_query.Text.{codes, text_eq, text_eq_iff}
use doc_query.Access.Rows.{Grant}
use doc_query.Access.Rows as AccessRows
use doc_query.Redis.{Client}
use doc_query.Query.Rows.{Answer, Settings, Services}

abbrev pub Store : Type 0
Store = List (List ℕ × Answer)

abbrev look_up : List ℕ → Store → Option Answer
look_up k [] = none
look_up k ((j, r) ∷ c) = let later = look_up k c in if text_eq j k then some r else later

abbrev put : List ℕ → Answer → ℕ → Store → Store
put k r ttl c = (k, r) ∷ c

pub look_up-put :
    (k : List ℕ) (r : Answer) (ttl : ℕ) (c : Store) → look_up k (put k r ttl c) ≡ some r
look_up-put k r ttl c = ground (arith, (text_eq_iff k k).1 refl)

pub look_up-put_other :
    (k j : List ℕ) (r : Answer) (ttl : ℕ) (c : Store)
    → text_eq k j ≡ false
    → look_up j (put k r ttl c) ≡ look_up j c
look_up-put_other k j r ttl c h = ground (arith, h)

abbrev pub client : Client Store Answer
client = record {
  ready = λ c. true;
  get = look_up;
  set = put;
  ready-set = λ k v ttl c. refl;
  get-set = look_up-put;
  get-set_other = look_up-put_other;
}

abbrev pub services : Services
services = record {
  rewrite = λ query turns. got query;
  rerank = λ query chunks k. got chunks;
  generate = λ system user. got (codes "yes");
  to_lower = λ s. s;
  sha256 = λ s. s;
  uuid_text = λ n. n ∷ [];
  decimal = λ n. n ∷ [];
  number_text = λ n. n ∷ [];
  document_name = λ n. none;
}

abbrev pub settings : Settings
settings = record {
  fused_top_k = 10;
  vector_top_k = 20;
  rerank_top_k = 6;
  max_chunks = [];
  max_tokens = [];
  default_top_k = 5;
  default_threshold = 0;
  cache_ttl = 0;
}

abbrev pub access_docs : Table AccessRows.Document
access_docs = in_memory

abbrev pub grants : Table Grant
grants = in_memory
