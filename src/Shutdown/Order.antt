-- ===== src/Shutdown/Order.antt =====
-- What a shutdown closes (utils/shutdown.js).
use doc_query.Base.{
  ℕ, zero, suc, ◌≡◌, refl, ap, ◌∙◌, sym, true, false, Option, none, some, List, [], ◌∷◌, ◌++◌, not,
  present, if◌then◌else◌,
}
use doc_query.Shutdown.{
  Step, Closing, Resources, Outcome, http_server_closed, absent, closes, fails, close_all, in_order,
  execute_shutdown, signals,
}
use mathlib.Core.List.{append_assoc, append-nil}

-- The steps of the resources that are given, up to the first that fails; and whether one fails.
abbrev pub given : List (Closing × Step) → List Step
given [] = []
given ((absent, step) ∷ rest) = given rest
given ((closes, step) ∷ rest) = step ∷ given rest
given ((fails m, step) ∷ rest) = []

abbrev pub first_failure : List (Closing × Step) → Option (List ℕ)
first_failure [] = none
first_failure ((absent, step) ∷ rest) = first_failure rest
first_failure ((closes, step) ∷ rest) = first_failure rest
first_failure ((fails m, step) ∷ rest) = some m

-- What the rest of the shutdown adds to the steps that are done.
close_all-steps :
    (todo : List (Closing × Step)) (done : List Step)
    → ((close_all todo done).steps ≡ done ++ given todo)
      × ((close_all todo done).error ≡ first_failure todo)
      × ((close_all todo done).success ≡ not (present (first_failure todo)))
close_all-steps [] done = (sym (append-nil done), refl, refl)
close_all-steps ((absent, step) ∷ rest) done = close_all-steps rest done
close_all-steps ((closes, step) ∷ rest) done =
    let (steps, error, success) = close_all-steps rest (done ++ step ∷ []) in
    (steps ∙ append_assoc done (step ∷ []) (given rest), error, success)
close_all-steps ((fails m, step) ∷ rest) done = (sym (append-nil done), refl, refl)

-- A shutdown closes the server, if there is one, and then the workers, the queues, Redis and the
-- database, those that are given, in this order and up to the first that fails; it succeeds exactly
-- where none of them fails, and otherwise gives the error of the first that does.
pub execute_shutdown-steps :
    (r : Resources)
    → ((execute_shutdown r).steps
        ≡ (if r.server then http_server_closed ∷ [] else []) ++ given (in_order r))
      × ((execute_shutdown r).error ≡ first_failure (in_order r))
      × ((execute_shutdown r).success ≡ not (present (first_failure (in_order r))))
unfolding execute_shutdown
execute_shutdown-steps r =
    close_all-steps (in_order r) (if r.server then http_server_closed ∷ [] else [])

signals-started :
    (r : Resources) (n : ℕ) (started : List Outcome) → signals r n (true, started) ≡ (true, started)
signals-started r zero started = refl
signals-started r (suc n) started = signals-started r n started

-- However many signals come, one shutdown is started.
pub signals_once :
    (r : Resources) (n : ℕ) → (signals r (suc n) (false, [])).1 ≡ execute_shutdown r ∷ []
signals_once r n = ap (λ s. s.1) (signals-started r n (execute_shutdown r ∷ []))
