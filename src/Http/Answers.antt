-- ===== src/Http/Answers.antt =====
-- `respondError`: which status each error has, and what the client learns of it.
use testovoe_bazis.Common.{
  ◌≡◌, ◌↔◌, ◌⊎◌, true, false, arith, Error, Message, sentinel, not_found, forbidden, unauthorized,
  validation, conflict, no_rows, mysql, foreign, wrap, error_is,
}
use testovoe_bazis.Http.{tells, respond_error}

wrapped_status :
    (A : Type 0) (m : Message) (e : Error)
    → (respond_error {A = A} (wrap m e)).status ≡ (respond_error {A = A} e).status
unfolding respond_error
wrapped_status A m e = ground arith

-- An error has one cause, so the order of the cases does not matter: 404, 403, 401, 400 and 409
-- stand for the five sentinels, and 500 for an error without any of them.
pub respond_error-status_iff :
    (A : Type 0) (e : Error)
    → (((respond_error {A = A} e).status ≡ 404) ↔ (error_is e not_found ≡ true))
      × (((respond_error {A = A} e).status ≡ 403) ↔ (error_is e forbidden ≡ true))
      × (((respond_error {A = A} e).status ≡ 401) ↔ (error_is e unauthorized ≡ true))
      × (((respond_error {A = A} e).status ≡ 400) ↔ (error_is e validation ≡ true))
      × (((respond_error {A = A} e).status ≡ 409) ↔ (error_is e conflict ≡ true))
      × (((respond_error {A = A} e).status ≡ 500) ↔ (
          (error_is e not_found ≡ false)
          × (error_is e forbidden ≡ false)
          × (error_is e unauthorized ≡ false)
          × (error_is e validation ≡ false)
          × (error_is e conflict ≡ false)))
unfolding respond_error
respond_error-status_iff A (sentinel not_found) = ground arith
respond_error-status_iff A (sentinel forbidden) = ground arith
respond_error-status_iff A (sentinel unauthorized) = ground arith
respond_error-status_iff A (sentinel validation) = ground arith
respond_error-status_iff A (sentinel conflict) = ground arith
respond_error-status_iff A (sentinel no_rows) = ground arith
respond_error-status_iff A (mysql n) = ground arith
respond_error-status_iff A (foreign n) = ground arith
respond_error-status_iff A (wrap m e) = rw (wrapped_status A m e) (respond_error-status_iff A e)

-- The text of an error reaches the client only if the error is a validation or a conflict.
pub respond_error-tells :
    (A : Type 0) (e f : Error)
    → (respond_error {A = A} e).payload ≡ tells f
    → (e ≡ f) × ((error_is e validation ≡ true) ⊎ (error_is e conflict ≡ true))
unfolding respond_error
respond_error-tells A e f h = ground arith
