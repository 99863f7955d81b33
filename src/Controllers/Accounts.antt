-- ===== src/Controllers/Accounts.antt =====
-- The requests about accounts (src/controllers/authController.js).
use smartmeet_backend.Prelude.{ℕ, String, List, Action}
use smartmeet_backend.RoomService.{Bcrypt}
use smartmeet_backend.UserService.{
  Jwt, JwtConfig, NewAccount, RegisterInput, TokenPair, register_user, login_user, refresh_tokens,
}
use smartmeet_backend.Controllers.{App, on_database}

module _ (jwt : Jwt) (config : JwtConfig) where
  unfoldable pub register : Bcrypt → ℕ → NewAccount → RegisterInput → Action App TokenPair
  unfolding on_database
  register bcrypt now a body = on_database (register_user jwt config bcrypt now a body)

  unfoldable pub login : Bcrypt → ℕ → (email password : String) → Action App TokenPair
  unfolding on_database
  login bcrypt now email password = on_database (login_user jwt config bcrypt now email password)

  unfoldable pub refresh : ℕ → List ℕ → Action App TokenPair
  unfolding on_database
  refresh now token = on_database (refresh_tokens jwt config now token)
