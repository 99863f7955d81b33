-- ===== src/Http/Errors.antt =====
-- The status codes of the error classes (src/utils/errors.js) and the error handler
-- (src/middleware/errorHandler.js). The details of a validation error, which Joi writes, are left
-- out.
use smartmeet_backend.Prelude.{ℕ, String, Bool, not, Option, none, some, ◌==◌, ltb, if◌then◌else◌}
use smartmeet_backend.Errors.{
  Failure, validation_error, auth_error, forbidden_error, not_found_error, conflict_error,
  too_many_requests_error, plain_error, library_error, unique_constraint_error, illegal_arguments,
}

-- `statusCode`, where a class sets it
unfoldable pub app_status : Failure → Option ℕ
app_status (validation_error _) = some 400
app_status (auth_error _) = some 401
app_status (forbidden_error _) = some 403
app_status (not_found_error _) = some 404
app_status (conflict_error _) = some 409
app_status (too_many_requests_error _) = some 429
app_status (plain_error _) = none
app_status (library_error _ _) = none
app_status unique_constraint_error = none
app_status illegal_arguments = none

-- `err.message`
unfoldable pub message_of : Failure → String
message_of (validation_error m) = m
message_of (auth_error m) = m
message_of (forbidden_error m) = m
message_of (not_found_error m) = m
message_of (conflict_error m) = m
message_of (too_many_requests_error m) = m
message_of (plain_error m) = m
message_of (library_error _ m) = m
message_of unique_constraint_error = "Validation error"
message_of illegal_arguments = "Illegal arguments"

pub record ErrorAnswer : Type 0 where
  pub status_code : ℕ
  pub message : String
  -- whether the body has the stack
  pub has_stack : Bool

-- `err.statusCode || 500`, where the error is no AppError
unfoldable pub own_status : Failure → ℕ
own_status (library_error code _) = if code == 0 then 500 else code
own_status _ = 500

-- the answer, where the error is or is not an AppError
abbrev pub error_answer : Bool → Option ℕ → ℕ → String → ErrorAnswer
error_answer production (some code) own message = record {
  status_code = code;
  message = message;
  has_stack = not production;
}
error_answer production none own message = record {
  status_code = own;
  message = if ltb own 500 then message else "Internal server error";
  has_stack = not production;
}

unfoldable pub error_handler : Bool → Failure → ErrorAnswer
unfolding app_status own_status message_of
error_handler production e = error_answer production (app_status e) (own_status e) (message_of e)
