-- ===== src/Schedule/Response.antt =====
-- What the handlers answer with: pkg/kapis/schedule/v1alpha1/utils.go, pkg/kapis/utils.go,
-- api/utils.go and pkg/server/errors/errors.go. An answer is a status and a body; logging is left out.
use kubesphere_schedule.Schedule.Cluster.{
  no_status, api_status, service_error, ErrorStatus, ApiError,
}
use kubesphere_schedule.Base.{
  Bool, join, ◌||◌, ℕ, some, none, is_char, if◌then◌else◌, eqb, String, Option, List,
}
use Prim.Native.String.{[], ◌∷◌}

-- What is written as JSON: `errors.None`, or an object of a handler.
pub data Entity (A : Type 0) : Type 0 where
  success : Entity A
  value : A → Entity A

pub data Body (A : Type 0) : Type 0 where
  empty : Body A
  entity : Entity A → Body A
  text : String → Body A

pub record Response (A : Type 0) : Type 0 where
  pub status_code : ℕ
  pub body : Body A

-- `sanitizer.Replace`.
unfoldable pub sanitize : String → String
sanitize [] = ""
sanitize (c ∷ s) =
    let rest = sanitize s in
    if is_char b'&' c
    then join "&amp;" rest
    else if is_char b'<' c
    then join "&lt;" rest
    else if is_char b'>' c
    then join "&gt;" rest
    else c ∷ rest

unfoldable pub handle : {A : Type 0} → ℕ → ApiError → Response A
handle status_code err = record { status_code = status_code; body = text (sanitize err.message) }

unfoldable pub handle_bad_request : {A : Type 0} → ApiError → Response A
handle_bad_request err = handle 400 err

unfoldable pub handle_not_found : {A : Type 0} → ApiError → Response A
handle_not_found err = handle 404 err

unfoldable pub handle_internal_error : {A : Type 0} → ApiError → Response A
handle_internal_error err = handle 500 err

unfoldable pub handle_forbidden : {A : Type 0} → ApiError → Response A
handle_forbidden err = handle 403 err

unfoldable pub handle_unauthorized : {A : Type 0} → ApiError → Response A
handle_unauthorized err = handle 401 err

unfoldable pub handle_too_many_requests : {A : Type 0} → ApiError → Response A
handle_too_many_requests err = handle 429 err

unfoldable pub handle_conflict : {A : Type 0} → ApiError → Response A
handle_conflict err = handle 409 err

-- The code that the error's type carries.
unfoldable pub code_of_error : ErrorStatus → ℕ
code_of_error (api_status n) = n
code_of_error (service_error n) = n
code_of_error no_status = 500

-- `HandleError` of api/utils.go.
unfoldable pub handle_error_api : {A : Type 0} → ApiError → Response A
unfolding code_of_error
handle_error_api err = handle (code_of_error err.status) err

-- `HandleError` of pkg/kapis/utils.go, which looks at `IsNotFound` too.
unfoldable pub handle_error : {A : Type 0} → ApiError → Response A
unfolding code_of_error
handle_error err = handle (if err.not_found then 404 else code_of_error err.status) err

unfoldable pub write_entity : {A : Type 0} → Entity A → Response A
write_entity e = record { status_code = 200; body = entity e }

-- `ErrorHandle`, where a nil object is written as `errors.None`.
unfoldable pub error_handle : {A : Type 0} → Option A → Option ApiError → Response A
error_handle obj (some err) = if err.not_found then handle_not_found err else handle_bad_request err
error_handle (some obj) none = write_entity (value obj)
error_handle none none = write_entity success

-- `WriteEntityOrError`, and `IgnoreEOF`, where `is_eof` says that an error is `io.EOF`.
unfoldable pub write_entity_or_error : {A : Type 0} → A → Option ApiError → Response A
unfolding handle_error write_entity
write_entity_or_error obj (some err) = handle_error err
write_entity_or_error obj none = write_entity (value obj)

unfoldable pub ignore_eof : (ApiError → Bool) → Option ApiError → Option ApiError
ignore_eof is_eof none = none
ignore_eof is_eof (some err) = if is_eof err then none else some err

-- `GetServiceErrorCode`.
unfoldable pub get_service_error_code : ErrorStatus → ℕ
get_service_error_code (service_error n) = n
get_service_error_code (api_status n) = 500
get_service_error_code no_status = 500

-- A value of type `interface{}`, as the type switches of `Result` see it.
pub data Arg (A : Type 0) : Type 0 where
  nil_arg : Arg A
  error_arg : ApiError → Arg A
  value_arg : A → Arg A

pub record Object (A : Type 0) : Type 0 where
  pub type : ℕ
  pub object : Arg A
  pub err : Option ApiError

abbrev pub empty_object : {A : Type 0} → Object A
empty_object = record { type = 0; object = nil_arg; err = none }

-- The second argument of `Result`, behind a first one that is no error.
abbrev pub result_with : {A : Type 0} → Arg A → Arg A → Object A
result_with e1 nil_arg = empty_object
result_with e1 (error_arg e2) = record { type = 2; object = e1; err = some e2 }
result_with e1 (value_arg v) = empty_object

unfoldable pub result : {A : Type 0} → List (Arg A) → Object A
result List.[] = empty_object
result (List.◌∷◌ (error_arg e1) args) = record { type = 1; object = nil_arg; err = some e1 }
result (List.◌∷◌ nil_arg List.[]) = empty_object
result (List.◌∷◌ (value_arg v) List.[]) = empty_object
result (List.◌∷◌ nil_arg (List.◌∷◌ e2 args)) = result_with nil_arg e2
result (List.◌∷◌ (value_arg v) (List.◌∷◌ e2 args)) = result_with (value_arg v) e2

-- `WriteEntity` of what stands in an object; of nil it writes the status alone.
abbrev pub write_object : {A : Type 0} → Arg A → Response A
write_object nil_arg = record { status_code = 200; body = empty }
write_object (error_arg e) = record { status_code = 200; body = empty }
write_object (value_arg v) = write_entity (value v)

abbrev pub write_typed : {A : Type 0} → ℕ → Arg A → Response A
write_typed type object =
    if eqb type 0 || eqb type 1
    then write_entity success
    else if eqb type 2
    then write_object object
    else record { status_code = 200; body = empty }

unfoldable pub output : {A : Type 0} → Object A → Response A
output o = elim o.err [
  | some err ↦ if err.not_found then handle_not_found err else handle_bad_request err
  | none ↦ write_typed o.type o.object
]
