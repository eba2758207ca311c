-- ===== src/Shutdown/Tests.antt =====
-- A shutdown in which Redis fails.
use doc_query.Base.{◌≡◌, refl, true, [], ◌∷◌}
use doc_query.Text.{codes}
use doc_query.Shutdown.{
  Resources, closes, fails, http_server_closed, workers_closed, queues_closed, execute_shutdown,
}

abbrev resources : Resources
resources = record {
  server = true;
  workers = closes;
  queues = closes;
  redis = fails (codes "lost");
  database = closes;
}

redis_fails :
    (execute_shutdown resources).steps ≡ http_server_closed ∷ workers_closed ∷ queues_closed ∷ []
unfolding execute_shutdown
redis_fails = refl
