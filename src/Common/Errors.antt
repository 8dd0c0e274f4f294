-- ===== src/Common/Errors.antt =====
-- common/exceptions/handler.py: the response to a request whose view has raised. What the framework
-- answers to its own exceptions, and `str` of a value, are parameters.
use django_boilderplate.Common.Values.{get_field, is_true}
use django_boilderplate.Common.Logging.{
  boolean as boolean_value, list, end, field, text, dict, null, Value,
}
use django_boilderplate.Prelude.{
  ◌∷◌, ℕ, true, some, none, leb, if◌then◌else◌, false, [], String, Option, List, Bool,
}
pub mod Codes

-- The exceptions as the handler tells them apart: the project's own, with its detail, its code, its
-- status and its fields; those of the framework; two of Django; any other, with its text.
pub data Exception : Type 0 where
  api_exception : (detail api_code : String) → (status : ℕ) → (fields : Option Value) → Exception
  invalid not_authenticated unauthenticated denied missing throttled other_rest : Exception
  http_404 django_denied : Exception
  unhandled : String → Exception

-- The classes of the mapping, by the names of the exceptions that they hold.
pub data Class : Type 0 where
  validation_class not_authenticated_class failed_class denied_class : Class
  not_found_class throttled_class http_404_class django_denied_class : Class

pub record RestResponse : Type 0 where
  pub status : ℕ
  pub body : Value

unfoldable pub is_instance : Exception → Class → Bool
is_instance invalid validation_class = true
is_instance not_authenticated not_authenticated_class = true
is_instance unauthenticated failed_class = true
is_instance denied denied_class = true
is_instance missing not_found_class = true
is_instance throttled throttled_class = true
is_instance http_404 http_404_class = true
is_instance django_denied django_denied_class = true
is_instance _ _ = false

-- `mapping`
abbrev code_mapping : List (Class × String)
code_mapping =
    (validation_class, "VALIDATION_ERROR")
    ∷ (not_authenticated_class, "AUTHENTICATION_REQUIRED")
    ∷ (failed_class, "AUTHENTICATION_FAILED")
    ∷ (denied_class, "PERMISSION_DENIED")
    ∷ (not_found_class, "RESOURCE_NOT_FOUND")
    ∷ (throttled_class, "RATE_LIMITED")
    ∷ (http_404_class, "RESOURCE_NOT_FOUND")
    ∷ (django_denied_class, "PERMISSION_DENIED")
    ∷ []

-- the loop over `mapping.items()`
unfoldable pub mapped_code : Exception → List (Class × String) → Option String
mapped_code exc [] = none
mapped_code exc ((klass, code) ∷ rest) =
    if is_instance exc klass then some code else mapped_code exc rest

-- `_error_code`
unfoldable pub error_code : Exception → RestResponse → String
unfolding mapped_code is_instance
error_code (api_exception detail api_code status fields) response = api_code
error_code exc response = elim (mapped_code exc code_mapping) [
  | some code ↦ code
  | none ↦ if leb 500 response.status then "INTERNAL_ERROR" else "BAD_REQUEST"
]

abbrev default_message : String
default_message = "The request could not be processed."

-- `exc.fields or fields`
unfoldable fields_or : Option Value → Value → Value
unfolding is_true
fields_or none fields = fields
fields_or (some v) fields = if is_true v then v else fields

abbrev pub id_value : Option String → Value
id_value none = null
id_value (some id) = text id

-- the body of every error
unfoldable pub error_body : (code message : String) → (fields : Value) → Option String → Value
error_body code message fields request_id = dict (
    field "success" (boolean_value false) (
      field "data" null (
        field "error"
          (dict (
            field "code" (text code) (
              field "message" (text message)
                (field "fields" fields (field "request_id" (id_value request_id) end)))))
          end)))

module _ (str_of : Value → String) where
  -- the message and the fields by the data that the framework gives
  unfoldable describe_data : Value → String × Value
  describe_data (dict fields) = elim (get_field "detail" fields) [
    | some detail ↦ (str_of detail, dict end)
    | none ↦ (default_message, dict fields)
  ]
  describe_data (list items) = (default_message, dict (field "non_field_errors" (list items) end))
  describe_data _ = (default_message, dict end)

  unfoldable describe : Exception → Value → String × Value
  unfolding describe_data fields_or
  describe invalid body = ("Validation failed.", body)
  describe (api_exception detail api_code status fields) body =
      (detail, fields_or fields (describe_data body).1)
  describe _ body = describe_data body

  module _ (exception_handler : Exception → Option RestResponse) where
    -- the two halves of `api_exception_handler`, by what the framework answers
    unfoldable pub render : Option String → Exception → Option RestResponse → RestResponse
    unfolding error_body error_code describe
    render request_id exc none = record {
      status = 500;
      body = error_body "INTERNAL_ERROR" "An unexpected error occurred." (dict end) request_id;
    }
    render request_id exc (some response) = record response {
      body =
          error_body (error_code exc response) (describe exc response.body).0
            (describe exc response.body).1 request_id;
    }

    -- `api_exception_handler`
    unfoldable pub api_exception_handler : Option String → Exception → RestResponse
    unfolding render
    api_exception_handler request_id exc = render request_id exc (exception_handler exc)
