-- ===== src/Api/Failures.antt =====
-- The views with the handler of common/exceptions/handler.py: which response a raised exception ends
-- in. The text of an exception, which the model does not keep, is a parameter.
use django_boilderplate.World.{
  permission_denied, method_not_allowed, registration_disabled, feature_disabled, invalid_request,
  authentication_required, resource_not_found, two_factor_required, serializer_error,
  account_banned, account_locked, err, ok, conflict, Result, authentication_failed, api,
  invalid_token, Error, Code,
}
use django_boilderplate.Common.Logging.{Value}
use django_boilderplate.Common.Errors.{
  api_exception_handler, unhandled, invalid, api_exception, RestResponse, Exception,
}
use django_boilderplate.Prelude.{none, String, Option}
pub mod WeakPassword

-- the `code` of an `APIException`
abbrev code_text : Code → String
code_text invalid_token = "INVALID_TOKEN"
code_text authentication_failed = "AUTHENTICATION_FAILED"
code_text conflict = "CONFLICT"
code_text account_locked = "ACCOUNT_LOCKED"
code_text account_banned = "ACCOUNT_BANNED"
code_text two_factor_required = "TWO_FACTOR_REQUIRED"
code_text resource_not_found = "RESOURCE_NOT_FOUND"
code_text authentication_required = "AUTHENTICATION_REQUIRED"
code_text invalid_request = "VALIDATION_ERROR"
code_text feature_disabled = "FEATURE_DISABLED"
code_text registration_disabled = "REGISTRATION_DISABLED"
code_text method_not_allowed = "METHOD_NOT_ALLOWED"
code_text permission_denied = "PERMISSION_DENIED"

-- The exception as the handler sees it: the framework knows its own and Django's `Http404` and
-- `PermissionDenied`, not the `ValidationError` of Django or an exception of Python.
unfoldable pub exception_of : (Error → String) → Error → Exception
exception_of text_of (api c status retry_after) =
    api_exception (text_of (api c status retry_after)) (code_text c) status none
exception_of text_of serializer_error = invalid
exception_of text_of e = unhandled (text_of e)

module _ (text_of : Error → String) (str_of : Value → String)
    (exception_handler : Exception → Option RestResponse) (id : Option String) where
  unfoldable pub respond : Result RestResponse → RestResponse
  unfolding exception_of
  respond (ok r) = r
  respond (err e) = api_exception_handler str_of exception_handler id (exception_of text_of e)
