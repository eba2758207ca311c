-- ===== src/ErrorAnswers/Hidden.antt =====
-- What an answer tells of an error (middleware/error.middleware.js).
use doc_query.Base.{
  ℕ, ◌≡◌, ◌≤◌, ◌<◌, ◌↔◌, refl, ap, ◌∙◌, Bool-cases, inl, inr, Bool, true, false, Option, none, some,
  List, arith, present,
}
use doc_query.Base.Errors.{
  AppError, bad_request, unauthorized, forbidden, not_found, conflict, validation,
}
use doc_query.Text.{text_eq, codes}
use doc_query.ErrorAnswers.{
  Class, Thrown, Answer, application, known_request, syntax, other, error_handler, known_answer,
  or_unexpected, or_next, by_code, by_name, by_class,
}

abbrev pub is_application : Class → Bool
is_application (application a) = true
is_application _ = false

-- The same error with another message and other details.
abbrev pub with_message : List ℕ → List ℕ → Thrown → Thrown
with_message m d e = record e { message = m; details = d }

known_answer-with_message :
    (c : Class) (e : Thrown) (m d : List ℕ)
    → is_application c ≡ false
    → known_answer c (with_message m d e) ≡ known_answer c e
known_answer-with_message (application a) e m d h = ground arith
known_answer-with_message (known_request p) e m d h = refl
known_answer-with_message (syntax b) e m d h = refl
known_answer-with_message other e m d h = refl

or_unexpected-answer :
    (o : Option Answer) (e e' : Thrown) → (or_unexpected o e).0 ≡ (or_unexpected o e').0
or_unexpected-answer none e e' = refl
or_unexpected-answer (some a) e e' = refl

-- The answer to an error that is not one of the application's does not depend on the message or the
-- details of the error.
pub error_handler-with_message :
    (e : Thrown) (m d : List ℕ)
    → is_application e.class ≡ false
    → (error_handler (with_message m d e)).0 ≡ (error_handler e).0
unfolding error_handler
error_handler-with_message e m d h =
    ap (λ o. (or_unexpected o (with_message m d e)).0) (known_answer-with_message e.class e m d h)
    ∙ or_unexpected-answer (known_answer e.class e) (with_message m d e) e

-- A known error is answered with a status of the request's fault.
abbrev ClientFault : Option Answer → Type 0
ClientFault none = Unit
ClientFault (some a) = (400 ≤ a.status) × (a.status < 500)

application-ClientFault : (a : AppError) (e : Thrown) → ClientFault (known_answer (application a) e)
application-ClientFault (bad_request c) e = (omega arith, omega arith)
application-ClientFault (unauthorized c) e = (omega arith, omega arith)
application-ClientFault (forbidden c) e = (omega arith, omega arith)
application-ClientFault (not_found c) e = (omega arith, omega arith)
application-ClientFault (conflict c) e = (omega arith, omega arith)
application-ClientFault (validation c) e = (omega arith, omega arith)

or_next-ClientFault :
    (o o' : Option Answer) → ClientFault o → ClientFault o' → ClientFault (or_next o o')
or_next-ClientFault none o' h h' = h'
or_next-ClientFault (some a) o' h h' = h

by_code-ClientFault : (c : Class) → ClientFault (by_code c)
by_code-ClientFault (application a) = tt
by_code-ClientFault (known_request p) = elim (Bool-cases (text_eq p (codes "P2002"))) [
  | inl taken ↦ rw taken (omega arith, omega arith)
  | inr free ↦ elim (Bool-cases (text_eq p (codes "P2025"))) [
    | inl missing ↦ rw (free, missing) (omega arith, omega arith)
    | inr unknown ↦ rw (free, unknown) tt
  ]
]
by_code-ClientFault (syntax b) = tt
by_code-ClientFault other = tt

by_name-ClientFault : (e : Thrown) → ClientFault (by_name e)
by_name-ClientFault e = elim (Bool-cases (text_eq e.name (codes "JsonWebTokenError"))) [
  | inl invalid ↦ rw invalid (omega arith, omega arith)
  | inr valid ↦ elim (Bool-cases (text_eq e.name (codes "TokenExpiredError"))) [
    | inl late ↦ rw (valid, late) (omega arith, omega arith)
    | inr unknown ↦ rw (valid, unknown) tt
  ]
]

by_class-ClientFault : (c : Class) → ClientFault (by_class c)
by_class-ClientFault (application a) = tt
by_class-ClientFault (known_request p) = tt
by_class-ClientFault (syntax true) = (omega arith, omega arith)
by_class-ClientFault (syntax false) = tt
by_class-ClientFault other = tt

rules-ClientFault :
    (c : Class) (e : Thrown) → ClientFault (or_next (by_code c) (or_next (by_name e) (by_class c)))
rules-ClientFault c e =
    or_next-ClientFault (by_code c) (or_next (by_name e) (by_class c)) (by_code-ClientFault c) (
      or_next-ClientFault (by_name e) (by_class c) (by_name-ClientFault e) (by_class-ClientFault c))

known_answer-ClientFault : (c : Class) (e : Thrown) → ClientFault (known_answer c e)
known_answer-ClientFault (application a) e = application-ClientFault a e
known_answer-ClientFault (known_request p) e = rules-ClientFault (known_request p) e
known_answer-ClientFault (syntax b) e = rules-ClientFault (syntax b) e
known_answer-ClientFault other e = rules-ClientFault other e

or_unexpected-status :
    (o : Option Answer) (e : Thrown)
    → ClientFault o
    → (400 ≤ (or_unexpected o e).0.status)
      × ((or_unexpected o e).0.status ≤ 500)
      × (((or_unexpected o e).0.status ≡ 500) ↔ (present (or_unexpected o e).1 ≡ true))
or_unexpected-status none e h = (omega arith, omega arith, ((λ h. refl), (λ h. refl)))
or_unexpected-status (some a) e h =
    (h.0, ground (arith, h), ((λ same. ground (arith, h)), (λ sent. ground arith)))

-- Every answer has a status from 400 to 500, and it is 500 exactly where the error goes to the
-- tracker.
pub error_handler-status :
    (e : Thrown)
    → (400 ≤ (error_handler e).0.status)
      × ((error_handler e).0.status ≤ 500)
      × (((error_handler e).0.status ≡ 500) ↔ (present (error_handler e).1 ≡ true))
unfolding error_handler
error_handler-status e =
    or_unexpected-status (known_answer e.class e) e (known_answer-ClientFault e.class e)
