-- ===== src/Common/Errors/Codes.antt =====
-- What a client sees of an exception.
-- the codes by exception
use django_boilderplate.Common.Values.{get_field}
use django_boilderplate.Common.Logging.{end, dict, Fields, text, Value}
use django_boilderplate.Common.Errors.{
  django_denied, http_404, other_rest, throttled, missing, denied, id_value, unauthenticated,
  not_authenticated, error_body, invalid, render, unhandled, api_exception_handler, is_instance,
  api_exception, RestResponse, mapped_code, error_code, Exception,
}
use django_boilderplate.Prelude.{◌≡◌, ℕ, some, refl, none, leb, if◌then◌else◌, String, Option}

abbrev code_of : Exception → (status : ℕ) → String
code_of (api_exception detail api_code s fields) status = api_code
code_of invalid status = "VALIDATION_ERROR"
code_of not_authenticated status = "AUTHENTICATION_REQUIRED"
code_of unauthenticated status = "AUTHENTICATION_FAILED"
code_of denied status = "PERMISSION_DENIED"
code_of missing status = "RESOURCE_NOT_FOUND"
code_of throttled status = "RATE_LIMITED"
code_of other_rest status = if leb 500 status then "INTERNAL_ERROR" else "BAD_REQUEST"
code_of http_404 status = "RESOURCE_NOT_FOUND"
code_of django_denied status = "PERMISSION_DENIED"
code_of (unhandled t) status = if leb 500 status then "INTERNAL_ERROR" else "BAD_REQUEST"

error_code-eq :
    (exc : Exception) (response : RestResponse)
    → error_code exc response ≡ code_of exc response.status
unfolding error_code mapped_code is_instance
error_code-eq (api_exception detail api_code s fields) response = refl
error_code-eq exc response = refl

abbrev pub fields_in : Option Value → Fields
fields_in (some (dict fields)) = fields
fields_in _ = end

-- `response.data["error"][name]`
unfoldable pub error_field : String → Value → Option Value
error_field name body = get_field name (fields_in (get_field "error" (fields_in (some body))))

module _ (str_of : Value → String) (exception_handler : Exception → Option RestResponse)
    (id : Option String) where
  abbrev answer : Exception → RestResponse
  answer = api_exception_handler str_of exception_handler id

  -- Where the framework answers to an exception, the response has the status of that answer, the code
  -- of the exception's class and the identifier of the request.
  pub answer_framework :
      (exc : Exception) (r : RestResponse)
      → exception_handler exc ≡ some r
      → ((answer exc).status ≡ r.status)
        × (error_field "code" (answer exc).body ≡ some (text (code_of exc r.status)))
        × (error_field "request_id" (answer exc).body ≡ some (id_value id))
  unfolding api_exception_handler render error_body error_field
  answer_framework exc r e = simp (e, error_code-eq exc r) (refl, refl, refl)

  -- Two exceptions to which the framework does not answer have the same response, of status 500.
  pub answer_hidden :
      (exc exc' : Exception)
      → exception_handler exc ≡ none
      → exception_handler exc' ≡ none
      → ((answer exc).status ≡ 500) × (answer exc ≡ answer exc')
  unfolding api_exception_handler render
  answer_hidden exc exc' e e' = simp (e, e') (refl, refl)
