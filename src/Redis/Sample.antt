-- ===== src/Redis/Sample.antt =====
-- A client that is a function from keys to values, always ready.
use doc_query.Base.{ℕ, refl, true, Option, none, some, List, if◌then◌else◌}
use doc_query.Redis.{Client, Scanner}
use doc_query.Text.{text_eq, text_eq_iff, starts_with}

abbrev pub Store : Type 0 → Type 0
Store V = List ℕ → Option V

abbrev pub function_client : {V : Type 0} → Client (Store V) V
function_client = record {
  ready = λ c. true;
  get = λ k c. c k;
  set = λ k v ttl c j. if text_eq k j then some v else c j;
  ready-set = λ k v ttl c. refl;
  get-set = λ k v ttl c. rw ((text_eq_iff k k).1 refl) refl;
  get-set_other = λ k j v ttl c h. rw h refl;
}

abbrev pub scanner : {V : Type 0} → Scanner (Store V) V
scanner = record {
  client = function_client;
  delete_matching = λ p c k. if starts_with p k then none else c k;
  get-delete = λ p k c h. rw h refl;
  get-delete_other = λ p k c h. rw h refl;
  ready-delete = λ p c. refl;
}

abbrev pub nothing_stored : {V : Type 0} → Store V
nothing_stored k = none
