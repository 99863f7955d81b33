-- ===== src/Authentication/Tokens.antt =====
-- What the tokens that the program signs are good for. What the theorems need of jsonwebtoken is a
-- hypothesis at the token in question: that it verifies with its secret while it lasts, or that
-- what it verifies to is what was signed.
use smartmeet_backend.Prelude.{
  ◌↔◌, Option, ℕ, ◌≡◌, ◌≢◌, refl, ap, ◌∙◌, Bool, false, none, some, List, [], ◌∷◌, ◌++◌, arith, any,
  ok, err, ◌==◌, inl, inr, ◌⊎◌,
}
use smartmeet_backend.Errors.{Failure, auth_error}
use smartmeet_backend.Models.{Database, User}
use smartmeet_backend.UserService.{
  Jwt, JwtConfig, TokenPair, Payload, Verified, verified, expired, invalid, access_payload,
  refresh_payload, sign_access_token, issue_token_pair, refresh_tokens, find_user, read_payload,
}
use smartmeet_backend.UserService.Accounts.{issue_token_pair-signed}
use smartmeet_backend.Authentication.{
  optional_authenticate, optional_of, optional_of_token, access_of, access_of_token, AuthUser,
  split_space, bearer, bearer_token, authenticate,
}

-- The text has no space.
abbrev pub has_space : List ℕ → Bool
has_space t = any (λ c. c == b' ') t

split_space-one : (t : List ℕ) → has_space t ≡ false → split_space t ≡ t ∷ []
unfolding split_space
split_space-one [] h = refl
split_space-one (c ∷ t) h = ground (arith, split_space-one t)

-- "Bearer ", and a token
abbrev pub bearer_header : List ℕ → List ℕ
bearer_header token = bearer ++ (b' ' ∷ token)

split_space-header : (t : List ℕ) → split_space (bearer_header t) ≡ bearer ∷ split_space t
unfolding split_space
split_space-header t = refl

bearer_token-full : (t : List ℕ) → t ≢ [] → bearer_token (bearer ∷ t ∷ []) ≡ some t
bearer_token-full [] full = absurd (full refl)
bearer_token-full (c ∷ t) full = refl

Verified-cases : (v : Verified) → ((p : Payload) × (v ≡ verified p)) ⊎ (read_payload v ≡ none)
Verified-cases (verified p) = inl (p, refl)
Verified-cases expired = inr refl
Verified-cases invalid = inr refl

module _ (jwt : Jwt) (config : JwtConfig) where
  -- A request that carries an access token in its Authorization header is its user's: if what
  -- jsonwebtoken signs has no space, is not empty, and verifies to what was signed, then the
  -- middleware lets the request through with the user's id, email and username.
  pub authenticate-issued :
      (now later : ℕ) (u : User) (db : Database) (pair : TokenPair)
      → ((token : List ℕ)
          → sign_access_token jwt config now u ≡ ok token
          → (has_space token ≡ false)
            × (token ≢ [])
            × (jwt.verify later token config.secret ≡ verified (access_payload u)))
      → (issue_token_pair jwt config now u db).0 ≡ ok pair
      → authenticate jwt config later (bearer_header pair.access_token)
        ≡ ok (record { id = u.id; email = some u.email; username = some u.username })
  unfolding authenticate
  authenticate-issued now later u db pair law issued =
      let (signed, again) = issue_token_pair-signed jwt config now u db pair issued in
      let (plain, full, good) = law pair.access_token signed in
      ap (λ pieces. access_of_token jwt config later (bearer_token pieces))
        (split_space-header pair.access_token
          ∙ ap (λ rest. bearer ∷ rest) (split_space-one pair.access_token plain))
      ∙ rw (bearer_token-full pair.access_token full, good) refl

  -- An access token is refused as a refresh token, also where the two secrets are the same, if
  -- what a signed token verifies to, should it verify, is what was signed.
  pub refresh_tokens-access :
      (now later : ℕ) (u : User) (db : Database) (pair : TokenPair)
      → ((token : List ℕ) (p : Payload)
          → sign_access_token jwt config now u ≡ ok token
          → jwt.verify later token config.refresh_secret ≡ verified p
          → p ≡ access_payload u)
      → (issue_token_pair jwt config now u db).0 ≡ ok pair
      → (e : Failure) × (refresh_tokens jwt config later pair.access_token db ≡ (err e, db))
  unfolding refresh_tokens
  refresh_tokens-access now later u db pair honest issued =
      let (signed, again) = issue_token_pair-signed jwt config now u db pair issued in
      elim (Verified-cases (jwt.verify later pair.access_token config.refresh_secret)) [
        | inl (p, seen) ↦ (
          auth_error "Invalid refresh token",
          rw (seen, ap (λ (q : Payload). q.is_refresh) (honest pair.access_token p signed seen))
              refl,
        )
        | inr unread ↦ (auth_error "Invalid or expired refresh token", rw unread refl)
      ]

  -- A refresh token that verifies to what was signed gives a new pair of tokens, for the user as
  -- the table has it by then.
  pub refresh_tokens-issued :
      (now later : ℕ) (u v : User) (db : Database) (pair : TokenPair)
      → jwt.verify later pair.refresh_token config.refresh_secret ≡ verified (refresh_payload u)
      → find_user u.id db ≡ some v
      → refresh_tokens jwt config later pair.refresh_token db
        ≡ issue_token_pair jwt config later v db
  unfolding refresh_tokens
  refresh_tokens-issued now later u v db pair good there = rw (good, there) refl

  -- Where a token is optional, a request has a user exactly where it would pass with one that is
  -- required.
  optional_authenticate_iff :
      (now : ℕ) (header : List ℕ) (u : AuthUser)
      → (optional_authenticate jwt config now header ≡ some u)
        ↔ (authenticate jwt config now header ≡ ok u)
  unfolding optional_authenticate authenticate
  optional_authenticate_iff now header u = token_iff now u (bearer_token (split_space header))
    where
      verified_iff : (u : AuthUser) (v : Verified) → (optional_of v ≡ some u) ↔ (access_of v ≡ ok u)
      verified_iff u (verified p) = ((λ e. ground arith), (λ e. ground arith))
      verified_iff u expired = ((λ e. absurd (cc e)), (λ e. absurd (cc e)))
      verified_iff u invalid = ((λ e. absurd (cc e)), (λ e. absurd (cc e)))

      token_iff :
          (now : ℕ) (u : AuthUser) (t : Option (List ℕ))
          → (optional_of_token jwt config now t ≡ some u)
            ↔ (access_of_token jwt config now t ≡ ok u)
      token_iff now u none = ((λ e. absurd (cc e)), (λ e. absurd (cc e)))
      token_iff now u (some token) = verified_iff u (jwt.verify now token config.secret)
