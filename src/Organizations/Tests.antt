-- ===== src/Organizations/Tests.antt =====
-- Requests over a cache that is a function, with identifiers of 36 units.
use doc_query.Base.{
  ℕ, suc, ◌≡◌, ◌≤◌, ◌==◌, ◌+◌, refl, ap, none, some, List, [], ◌∷◌, count, length, arith,
}
use doc_query.Base.Table.{in_memory}
use doc_query.Members.Rows.{Membership}
use doc_query.Organizations.{Packages, Tables, Ids, create, get_by_id}
use doc_query.Organizations.Transparent.{
  Call, Answer, creates, gets, created, answered, answers, plain_answers, answers-plain,
}
use doc_query.Pagination.{num}
use doc_query.Redis.{redis_get, redis_set, del_pattern}
use doc_query.Redis.Sample.{scanner, nothing_stored}
use doc_query.Text.{codes, text_eq, starts_with}

abbrev total : List Membership → ℕ
total [] = 0
total (m ∷ ms) = m.organization_id + total ms

total_fresh :
    (n : ℕ) (ms : List Membership) → suc (total ms) ≤ n → count (λ m. m.organization_id == n) ms ≡ 0
total_fresh n [] h = refl
total_fresh n (m ∷ ms) h = ground (arith, h, total_fresh n ms)

abbrev blanks : List ℕ
blanks = codes "-1111-1111-1111-1111-11111111111111"

abbrev ids : Ids
ids = record {
  uuid_text = λ n. n ∷ blanks;
  new_organization = λ ms. suc (total ms);
  new_member = λ ms. suc (length ms);
  length-uuid_text = λ n. refl;
  uuid_text_inj = λ n m e. ap (λ s. elim s [ [] ↦ 0 | c ∷ r ↦ c ]) e;
  new_organization-fresh = λ ms. total_fresh (suc (total ms)) ms (omega arith);
}

abbrev packages : Packages
packages = record {
  organizations = in_memory;
  members = in_memory;
  ids = ids;
  oldest_first = λ ms. ms;
  count-oldest_first = λ q ms. refl;
  parse_int = λ s. num 1;
}

abbrev nobody : Tables
nobody = record { organizations = []; members = [] }

abbrev requests : List Call
requests = gets 1 5 ∷ creates (codes "ACME") 5 100 ∷ gets 1 5 ∷ gets 1 5 ∷ gets 1 6 ∷ []

abbrev found_by : Answer → ℕ
found_by (created o) = 1
found_by (answered none) = 0
found_by (answered (some v)) = 2

abbrev kinds : List Answer → List ℕ
kinds [] = []
kinds (a ∷ rest) = found_by a ∷ kinds rest

owner_sees_it :
    kinds (answers packages scanner requests nobody nothing_stored) ≡ 0 ∷ 1 ∷ 2 ∷ 2 ∷ 0 ∷ []
unfolding create get_by_id del_pattern redis_get redis_set text_eq starts_with
owner_sees_it = refl

answers-plain_example :
    answers packages scanner requests nobody nothing_stored
    ≡ plain_answers packages scanner requests nobody
answers-plain_example =
    answers-plain packages scanner requests nobody nothing_stored
      (refl, (λ u org v h. absurd (ground (arith, h))), (λ u v h. absurd (ground (arith, h))))
