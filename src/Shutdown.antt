-- ===== src/Shutdown.antt =====
-- utils/shutdown.js: what is closed when the process is told to stop, in which order, and that this
-- happens once. The exit of the process and the timeout are left out; a server that never closes is
-- not modelled.
pub mod Order
mod Tests
use doc_query.Base.{
  ℕ, zero, suc, Bool, true, false, Option, none, some, List, [], ◌∷◌, ◌++◌, if◌then◌else◌,
}

pub data Step : Type 0 where
  http_server_closed workers_closed queues_closed redis_closed database_closed : Step

-- A resource that may be given: how its closing ends, with the message of an error if it fails.
pub data Closing : Type 0 where
  absent closes : Closing
  fails : List ℕ → Closing

-- A server calls back, and cannot fail.
pub record Resources : Type 0 where
  pub server : Bool
  pub workers : Closing
  pub queues : Closing
  pub redis : Closing
  pub database : Closing

pub record Outcome : Type 0 where
  pub success : Bool
  pub error : Option (List ℕ)
  pub steps : List Step

-- The body of the `try`, over what it still has to close.
abbrev pub close_all : List (Closing × Step) → List Step → Outcome
close_all [] done = record { success = true; error = none; steps = done }
close_all ((absent, step) ∷ rest) done = close_all rest done
close_all ((closes, step) ∷ rest) done = close_all rest (done ++ step ∷ [])
close_all ((fails message, step) ∷ rest) done = record {
  success = false;
  error = some message;
  steps = done;
}

abbrev pub in_order : Resources → List (Closing × Step)
in_order r =
    (r.workers, workers_closed)
    ∷ (r.queues, queues_closed)
    ∷ (r.redis, redis_closed)
    ∷ (r.database, database_closed)
    ∷ []

-- `executeShutdown`
pub execute_shutdown : Resources → Outcome
execute_shutdown r = close_all (in_order r) (if r.server then http_server_closed ∷ [] else [])

-- `handleSignal`, with `isShuttingDown` and the shutdowns that were started so far.
abbrev pub handle_signal : Resources → Bool × List Outcome → Bool × List Outcome
handle_signal r (true, started) = (true, started)
handle_signal r (false, started) = (true, started ++ execute_shutdown r ∷ [])

abbrev pub signals : Resources → ℕ → Bool × List Outcome → Bool × List Outcome
signals r zero s = s
signals r (suc n) s = signals r n (handle_signal r s)
