-- ===== src/HttpClient/Tests.antt =====
-- A service that is overloaded twice and then answers, and one that is gone.
use doc_query.Base.{ℕ, suc, zero, ◌≡◌, ◌<◌, refl, arith, true, none, some, [], ◌∷◌, length}
use doc_query.Text.{codes}
use doc_query.HttpClient.{
  Reply, response, failed, connection_refused, other_error, fetch_error, returned, thrown,
  resilient_fetch, attempts, round, on_error,
}
use doc_query.HttpClient.Delivery.{Short, is_transient, resilient_fetch_delivers}

abbrev overloaded : ℕ → Reply
overloaded zero = response 503 none
overloaded (suc zero) = failed connection_refused
overloaded (suc (suc n)) = response 200 (some (codes "ok"))

both_transient : (i : ℕ) → i < 2 → is_transient (overloaded i) ≡ true
both_transient zero h = refl
both_transient (suc zero) h = refl
both_transient (suc (suc n)) h = absurd (omega (arith, h))

resilient_fetch_delivers_example :
    ((resilient_fetch overloaded 3 500 (λ a. 7) none).0 ≡ returned (codes "ok"))
    × (length (resilient_fetch overloaded 3 500 (λ a. 7) none).1 ≡ 2)
    × Short (resilient_fetch overloaded 3 500 (λ a. 7) none).1
resilient_fetch_delivers_example =
    resilient_fetch_delivers overloaded 3 500 (λ a. 7) 2 200 (codes "ok") none both_transient refl
      refl (omega arith)

-- A permanent error is not tried again, and the fallback is not used; at the last attempt it is.
gone :
    (resilient_fetch (λ i. failed other_error) 3 500 (λ a. 0) (some [])
      ≡ (thrown (fetch_error other_error), []))
    × (resilient_fetch (λ i. failed other_error) 0 500 (λ a. 0) (some []) ≡ (returned [], []))
    × (resilient_fetch (λ i. response 503 none) 2 500 (λ a. 0) (some [])
        ≡ (returned [], 500 ∷ 1000 ∷ []))
unfolding resilient_fetch attempts round on_error
gone = (refl, refl, refl)
