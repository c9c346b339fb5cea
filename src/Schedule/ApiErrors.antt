-- ===== src/Schedule/ApiErrors.antt =====
-- The error answers of api/utils.go, a second family beside that of pkg/kapis/utils.go; logging is left
-- out.
use kubesphere_schedule.Schedule.Cluster.{ApiError}
use kubesphere_schedule.Base.{◌≡◌, ◌↔◌, ℕ, true, inr, inl, arith, Bool-cases}
use kubesphere_schedule.Schedule.Response.{
  code_of_error, handle, Response, text, sanitize, handle_error, handle_error_api,
}

module _ {A : Type 0} where
  -- `http.Error` with the sanitized text.
  unfoldable pub answer_error : ℕ → ApiError → Response A
  answer_error status_code err = record {
    status_code = status_code;
    body = text (sanitize err.message);
  }

  unfoldable pub answer_internal_error : ApiError → Response A
  answer_internal_error err = answer_error 500 err

  unfoldable pub answer_bad_request : ApiError → Response A
  answer_bad_request err = answer_error 400 err

  unfoldable pub answer_not_found : ApiError → Response A
  answer_not_found err = answer_error 404 err

  unfoldable pub answer_forbidden : ApiError → Response A
  answer_forbidden err = answer_error 403 err

  unfoldable pub answer_unauthorized : ApiError → Response A
  answer_unauthorized err = answer_error 401 err

  unfoldable pub answer_too_many_requests : ApiError → Response A
  answer_too_many_requests err = answer_error 429 err

  unfoldable pub answer_conflict : ApiError → Response A
  answer_conflict err = answer_error 409 err

-- The two `HandleError` answer alike exactly where an error that is a missing object carries the
-- code 404: otherwise that of api/utils.go answers with another code.
pub handle_error-eq_iff :
    (A : Type 0) (err : ApiError)
    → ((handle_error {A = A} err).status_code ≡ (handle_error_api {A = A} err).status_code)
      ↔ (err.not_found ≡ true → code_of_error err.status ≡ 404)
unfolding handle_error handle_error_api handle
handle_error-eq_iff A err = (
  λ h m. ground arith,
  λ h. elim (Bool-cases err.not_found) [
    | inl missing ↦ ground (arith, h missing)
    | inr other ↦ ground arith
  ],
)
