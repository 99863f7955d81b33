-- ===== src/Authentication.antt =====
-- Who sends a request: the Bearer token of an HTTP request (src/middleware/auth.js) and the token
-- of a connecting socket (src/sockets/index.js). No route uses `optionalAuthenticate`.
pub mod Tokens
use smartmeet_backend.Prelude.{
  ℕ, String, Bool, true, false, ◌&&◌, Option, none, some, List, [], ◌∷◌, ◌==◌, if◌then◌else◌,
  Result, ok, err, or_else,
}
use smartmeet_backend.Prelude.Text.{same_text}
use smartmeet_backend.Errors.{Failure, auth_error, plain_error}
use smartmeet_backend.UserService.{Jwt, JwtConfig, Payload, Verified, verified, expired, invalid}

-- `req.user` and `socket.user`
pub record AuthUser : Type 0 where
  pub id : ℕ
  pub email : Option String
  pub username : Option String

abbrev pub user_of_payload : Payload → AuthUser
user_of_payload p = record { id = p.sub; email = p.email; username = p.username }

-- one more character of the first piece
abbrev pub cons_first : ℕ → List (List ℕ) → List (List ℕ)
cons_first c [] = (c ∷ []) ∷ []
cons_first c (piece ∷ pieces) = (c ∷ piece) ∷ pieces

-- `split(' ')`
unfoldable pub split_space : List ℕ → List (List ℕ)
split_space [] = [] ∷ []
split_space (c ∷ cs) =
    let rest = split_space cs in if c == b' ' then [] ∷ rest else cons_first c rest

-- "Bearer"
abbrev pub bearer : List ℕ
bearer = b'B' ∷ b'e' ∷ b'a' ∷ b'r' ∷ b'e' ∷ b'r' ∷ []

-- the token, where the scheme is right and the token is not empty
abbrev pub bearer_token : List (List ℕ) → Option (List ℕ)
bearer_token (scheme ∷ (c ∷ cs) ∷ _) = if same_text scheme bearer then some (c ∷ cs) else none
bearer_token _ = none

abbrev pub access_of : Verified → Result AuthUser
access_of (verified p) = ok (user_of_payload p)
access_of expired = err (auth_error "Access token expired")
access_of invalid = err (auth_error "Invalid access token")

-- `req.user` after `optionalAuthenticate`
abbrev optional_of : Verified → Option AuthUser
optional_of (verified p) = some (user_of_payload p)
optional_of _ = none

module _ (jwt : Jwt) (config : JwtConfig) where
  abbrev pub access_of_token : ℕ → Option (List ℕ) → Result AuthUser
  access_of_token now none = err (auth_error "Missing or malformed Authorization header")
  access_of_token now (some token) = access_of (jwt.verify now token config.secret)

  -- A header that is missing is the empty text.
  unfoldable pub authenticate : ℕ → List ℕ → Result AuthUser
  unfolding split_space
  authenticate now header = access_of_token now (bearer_token (split_space header))

  abbrev optional_of_token : ℕ → Option (List ℕ) → Option AuthUser
  optional_of_token now none = none
  optional_of_token now (some token) = optional_of (jwt.verify now token config.secret)

  unfoldable pub optional_authenticate : ℕ → List ℕ → Option AuthUser
  unfolding split_space
  optional_authenticate now header = optional_of_token now (bearer_token (split_space header))

  abbrev handshake_of : Verified → Result AuthUser
  handshake_of (verified p) = ok (user_of_payload p)
  handshake_of _ = err (plain_error "Invalid or expired authentication token")

  abbrev handshake_of_token : ℕ → Option (List ℕ) → Result AuthUser
  handshake_of_token now none = err (plain_error "Authentication token missing")
  handshake_of_token now (some token) = handshake_of (jwt.verify now token config.secret)

  -- `auth.token`, or else the query's `token`; one that is missing or empty is `none`
  unfoldable pub authenticate_socket : ℕ → (auth query : Option (List ℕ)) → Result AuthUser
  authenticate_socket now auth query = handshake_of_token now (or_else auth query)
