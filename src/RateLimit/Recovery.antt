-- ===== src/RateLimit/Recovery.antt =====
-- The limiter lets a silenced client through again.
use smartmeet_backend.Prelude.{
  ℕ, ◌+◌, ◌≤◌, ◌≡◌, refl, true, false, Option, none, some, List, [], ◌∷◌, All, arith, Bool-cases,
  inl, inr,
}
use smartmeet_backend.Prelude.Map.{get}
use smartmeet_backend.RateLimit.{
  RateKey, rate_key, same_rate_key, same_rate_key_iff, Window, RateLimitState, next_window,
  opens_window, rate_limit_window_ms,
}
use smartmeet_backend.RateLimit.Windows.{Call, admit, admit-get}

-- The state that any calls lead to.
pub states_after : List Call → RateLimitState → RateLimitState
states_after [] states = states
states_after (c ∷ cs) states = states_after cs (admit c states).1

-- The window of the key, if there is one, began no later than `latest`.
abbrev pub BeganBy : ℕ → Option Window → Type 0
BeganBy latest none = Unit
BeganBy latest (some w) = w.window_start ≤ latest

next_window-BeganBy :
    (latest now : ℕ) (found : Option Window)
    → now ≤ latest
    → BeganBy latest found
    → BeganBy latest (some (next_window now rate_limit_window_ms found))
next_window-BeganBy latest now none h b = h
next_window-BeganBy latest now (some w) h b = ground arith

admit-BeganBy :
    (k : RateKey) (latest : ℕ) (c : Call) (states : RateLimitState)
    → c.now ≤ latest
    → BeganBy latest (get states k)
    → BeganBy latest (get (admit c states).1 k)
admit-BeganBy k latest c states h b = elim (Bool-cases (same_rate_key c.key k)) [
  | inr other ↦ rw (admit-get c states k, other) b
  | inl same ↦
      let e : c.key ≡ k = (same_rate_key_iff c.key k).0 same in
      rw (admit-get c states k, same)
        (next_window-BeganBy latest c.now (get states c.key) h (rw e b))
]

states_after-BeganBy :
    (k : RateKey) (latest : ℕ) (cs : List Call) (states : RateLimitState)
    → All (λ (c : Call). c.now ≤ latest) cs
    → BeganBy latest (get states k)
    → BeganBy latest (get (states_after cs states) k)
unfolding states_after
states_after-BeganBy k latest [] states h b = b
states_after-BeganBy k latest (c ∷ cs) states h b =
    states_after-BeganBy k latest cs (admit c states).1 h.1 (admit-BeganBy k latest c states h.0 b)

opens_later :
    (latest now : ℕ) (found : Option Window)
    → BeganBy latest found
    → latest + rate_limit_window_ms ≤ now
    → opens_window now rate_limit_window_ms found ≡ true
opens_later latest now none b h = refl
opens_later latest now (some w) b h = ground arith

-- However many calls a key has made, in whatever order, and whatever the other keys did: its first
-- call that is a window's length after all of them is let through.
pub admit_again :
    (k : RateKey) (now latest : ℕ) (cs : List Call) (states : RateLimitState)
    → get states k ≡ none
    → All (λ (c : Call). c.now ≤ latest) cs
    → latest + rate_limit_window_ms ≤ now
    → (admit (record { key = k; now = now }) (states_after cs states)).0 ≡ false
unfolding admit
admit_again k now latest cs states new past later =
    let b = states_after-BeganBy k latest cs states past (rw new tt) in
    rw (opens_later latest now (get (states_after cs states) k) b later) refl
