-- ===== src/Errors.antt =====
-- The error classes (src/utils/errors.js). A failure is an instance of one of the classes, with the
-- message that the code throws, or an error of another origin.
use Prim.Native.String.{String}
use Prim.Native.Nat.{ℕ}

pub data Failure : Type 0 where
  validation_error : String → Failure
  auth_error : String → Failure
  forbidden_error : String → Failure
  not_found_error : String → Failure
  conflict_error : String → Failure
  too_many_requests_error : String → Failure
  -- `throw new Error(message)`
  plain_error : String → Failure
  -- an error of a library that has a `statusCode`, such as one of aws-sdk or of the body parser
  library_error : (status_code : ℕ) → String → Failure
  -- what Sequelize throws when an insert breaks a unique index: that on active participations, or
  -- one of those on the emails and usernames of accounts
  unique_constraint_error : Failure
  -- bcryptjs called with a password or a hash that is no string
  illegal_arguments : Failure
