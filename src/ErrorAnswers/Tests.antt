-- ===== src/ErrorAnswers/Tests.antt =====
-- Answers to some errors.
use doc_query.Base.{List, ℕ, ◌≡◌, refl, []}
use doc_query.Base.Errors.{forbidden, org_access_denied}
use doc_query.Text.{codes, text_eq}
use doc_query.ErrorAnswers.{Class, Thrown, application, known_request, other, error_handler}
use doc_query.ErrorAnswers.Hidden.{with_message, error_handler-with_message}

abbrev thrown : Class → List ℕ → List ℕ → Thrown
thrown c name message = record { class = c; name = name; message = message; details = [] }

-- A quota that is used up is no error of the application: it is answered as an unexpected one.
abbrev quota_exceeded : Thrown
quota_exceeded = thrown other (codes "QuotaExceededError") (codes "Monthly query limit reached")

statuses :
    ((error_handler (thrown (application (forbidden org_access_denied)) [] [])).0.status ≡ 403)
    × ((error_handler (thrown (known_request (codes "P2002")) [] [])).0.status ≡ 409)
    × ((error_handler (thrown other (codes "TokenExpiredError") [])).0.status ≡ 401)
    × ((error_handler quota_exceeded).0.status ≡ 500)
unfolding error_handler text_eq
statuses = (refl, refl, refl, refl)

error_handler-with_message_example :
    (error_handler (with_message (codes "secret") (codes "stack") quota_exceeded)).0
    ≡ (error_handler quota_exceeded).0
error_handler-with_message_example =
    error_handler-with_message quota_exceeded (codes "secret") (codes "stack") refl
