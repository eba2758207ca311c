-- ===== src/ErrorAnswers.antt =====
-- middleware/error.middleware.js: what a request is answered when a handler threw, and what goes to
-- the tracker of errors (services/error-tracker.service.js), whose call is only recorded here.
pub mod Hidden
mod Tests
use doc_query.Base.{ℕ, Bool, true, false, Option, none, some, List, if◌then◌else◌}
use doc_query.Base.Errors.{
  Code, AppError, bad_request, unauthorized, forbidden, not_found, conflict, validation,
  auth_invalid_token, auth_token_expired,
}
use doc_query.Text.{codes, text_eq}

-- Which class an error is of, as the handler tells classes apart: the application's own, the known
-- request errors of the database's client with their code, a syntax error that has a body or not, and
-- the rest.
pub data Class : Type 0 where
  application : AppError → Class
  known_request : List ℕ → Class
  syntax : Bool → Class
  other : Class

pub record Thrown : Type 0 where
  pub class : Class
  pub name : List ℕ
  pub message : List ℕ
  pub details : List ℕ

-- The codes that an answer carries: an error's own, or one of the handler.
pub data AnswerCode : Type 0 where
  own : Code → AnswerCode
  record_conflict record_not_found invalid_json internal_error : AnswerCode

pub record Answer : Type 0 where
  pub status : ℕ
  pub code : AnswerCode
  pub message : List ℕ
  pub details : Option (List ℕ)

abbrev answer : ℕ → AnswerCode → List ℕ → Answer
answer status code message = record {
  status = status;
  code = code;
  message = message;
  details = none;
}

-- The `statusCode` of each class of utils/errors.js.
abbrev pub status_of : AppError → ℕ
status_of (bad_request c) = 400
status_of (unauthorized c) = 401
status_of (forbidden c) = 403
status_of (not_found c) = 404
status_of (conflict c) = 409
status_of (validation c) = 422

abbrev pub code_of : AppError → Code
code_of (bad_request c) = c
code_of (unauthorized c) = c
code_of (forbidden c) = c
code_of (not_found c) = c
code_of (conflict c) = c
code_of (validation c) = c

abbrev application_answer : AppError → Thrown → Answer
application_answer (validation c) e = record {
  status = 422;
  code = own c;
  message = e.message;
  details = some e.details;
}
application_answer a e = answer (status_of a) (own (code_of a)) e.message

-- The answer to an error that no rule knows.
abbrev pub unexpected : Answer
unexpected = answer 500 internal_error (codes "An unexpected error occurred")

-- The rules by the name of the error, and the one for a malformed body.
abbrev pub by_name : Thrown → Option Answer
by_name e =
    if text_eq e.name (codes "JsonWebTokenError")
    then some (answer 401 (own auth_invalid_token) (codes "Invalid token"))
    else if text_eq e.name (codes "TokenExpiredError")
    then some (answer 401 (own auth_token_expired) (codes "Token has expired"))
    else none

abbrev pub by_class : Class → Option Answer
by_class (syntax true) = some (answer 400 invalid_json (codes "Invalid JSON in request body"))
by_class _ = none

abbrev pub by_code : Class → Option Answer
by_code (known_request c) =
    if text_eq c (codes "P2002")
    then some (answer 409 record_conflict (codes "A record with this value already exists"))
    else if text_eq c (codes "P2025")
    then some (answer 404 record_not_found (codes "Record not found"))
    else none
by_code _ = none

abbrev pub or_next : Option Answer → Option Answer → Option Answer
or_next (some a) rest = some a
or_next none rest = rest

-- The rules, in order.
abbrev pub known_answer : Class → Thrown → Option Answer
known_answer (application a) e = some (application_answer a e)
known_answer c e = or_next (by_code c) (or_next (by_name e) (by_class c))

abbrev pub or_unexpected : Option Answer → Thrown → Answer × Option Thrown
or_unexpected (some a) e = (a, none)
or_unexpected none e = (unexpected, some e)

-- `errorHandler`: the answer, and the error that is given to the tracker, if it is.
pub error_handler : Thrown → Answer × Option Thrown
error_handler e = or_unexpected (known_answer e.class e) e
