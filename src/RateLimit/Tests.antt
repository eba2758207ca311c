-- ===== src/RateLimit/Tests.antt =====
-- A store with one counter, and a limit of two requests.
use doc_query.Base.{ℕ, suc, ◌≡◌, ◌-◌, min, refl, true, false, none, [], ◌∷◌, count, map}
use doc_query.Text.{codes}
use doc_query.RateLimit.{
  Counters, Options, Client, ip, limit_max, limit_window_sec, key_of, rate_limit, increment,
}
use doc_query.RateLimit.Window.{lets_through, requests, requests_bounded}

abbrev one_counter : Counters ℕ
one_counter = record {
  ready = λ c. true;
  value = λ k c. c;
  incr = λ k c. (suc c, suc c);
  ttl = λ k c. none;
  expire = λ k n c. c;
  incr-value = λ k c. refl;
  value-incr = λ k c. refl;
  ready-incr = λ k c. refl;
  value-expire = λ k n c. refl;
  ready-expire = λ k n c. refl;
}

abbrev options : Options
options = record {
  max = 0;
  max_requests = 2;
  window_sec = 0;
  window_ms = 1500;
  prefix = codes "global";
}

abbrev who : Client
who = ip (codes "1.2.3.4")

window :
    (limit_window_sec options ≡ 2)
    × (map lets_through (requests one_counter options who 3 0) ≡ true ∷ true ∷ false ∷ [])
unfolding rate_limit increment
window = (refl, refl)

requests_bounded_example :
    count lets_through (requests one_counter options who 5 1)
    ≡ min 5 (limit_max options - one_counter.value (key_of one_counter options who) 1)
requests_bounded_example = requests_bounded one_counter options who 5 1 refl
