-- ===== src/Config/Start.antt =====
-- With which secrets a production server starts.
use smartmeet_backend.Prelude.{ℕ, ◌≡◌, refl, sym, true, false, Option, none, some, [], ◌∷◌, arith}
use smartmeet_backend.Prelude.Text.{same_text}
use smartmeet_backend.Config.{
  Text, codes, ProcessEnv, jwt_secret, jwt_refresh_secret, or_default, is_missing, load_env,
  missing_variables,
}

or_default-given :
    (given : Option Text) (fallback : Text)
    → is_missing given ≡ false
    → some (or_default given fallback) ≡ given
unfolding or_default
or_default-given none fallback h = cc
or_default-given (some []) fallback h = cc
or_default-given (some (c ∷ cs)) fallback h = refl

module _ (cpus : ℕ) (env : ProcessEnv) where
  required_present :
      same_text (load_env cpus env).node_env (codes "production") ≡ true
      → missing_variables cpus env ≡ []
      → (is_missing (env jwt_secret) ≡ false) × (is_missing (env jwt_refresh_secret) ≡ false)
  unfolding missing_variables
  required_present production complete = ground arith

  -- A production server whose start does not name a missing variable signs and verifies with the
  -- two secrets of its environment, never with the defaults of the development.
  pub production_secrets :
      same_text (load_env cpus env).node_env (codes "production") ≡ true
      → missing_variables cpus env ≡ []
      → (env jwt_secret ≡ some (load_env cpus env).jwt.secret)
        × (env jwt_refresh_secret ≡ some (load_env cpus env).jwt.refresh_secret)
  unfolding load_env
  production_secrets production complete =
      let (access, refresh) = required_present production complete in
      (
        sym (or_default-given (env jwt_secret) (codes "dev-access-secret") access),
        sym (or_default-given (env jwt_refresh_secret) (codes "dev-refresh-secret") refresh),
      )
