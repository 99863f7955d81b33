-- ===== src/RateLimit.antt =====
-- The rate limiter of the socket events (src/sockets/roomEvents.js): one fixed window for each
-- socket and kind of event. The key `${socket.id}:chat` is the pair of the socket and the kind.
pub mod Windows
pub mod Recovery
use smartmeet_backend.Prelude.{
  ℕ, ◌+◌, ◌-◌, Bool, true, false, ◌&&◌, Option, none, some, ◌==◌, leb, ltb, ◌↔◌, ◌≡◌, arith,
  if◌then◌else◌,
}
use smartmeet_backend.Prelude.Map.{Map, Key, get, set, delete}

pub data Kind : Type 0 where
  chat reaction : Kind

pub record RateKey : Type 0 where
  pub socket_id : ℕ
  pub kind : Kind

abbrev pub same_kind : Kind → Kind → Bool
same_kind chat chat = true
same_kind reaction reaction = true
same_kind _ _ = false

abbrev pub same_rate_key : RateKey → RateKey → Bool
same_rate_key a b = a.socket_id == b.socket_id && same_kind a.kind b.kind

same_kind_iff : (a b : Kind) → (same_kind a b ≡ true) ↔ (a ≡ b)
same_kind_iff chat chat = ground arith
same_kind_iff chat reaction = ground arith
same_kind_iff reaction chat = ground arith
same_kind_iff reaction reaction = ground arith

pub same_rate_key_iff : (a b : RateKey) → (same_rate_key a b ≡ true) ↔ (a ≡ b)
same_rate_key_iff a b = ground (arith, same_kind_iff a.kind b.kind)

instance abbrev pub rate_key : Key RateKey
rate_key = record { same = same_rate_key; same_iff = same_rate_key_iff }

pub record Window : Type 0 where
  pub count : ℕ
  pub window_start : ℕ

abbrev pub RateLimitState : Type 0
RateLimitState = Map RateKey Window

abbrev pub chat_rate_limit_max : ℕ
chat_rate_limit_max = 8

abbrev pub reaction_rate_limit_max : ℕ
reaction_rate_limit_max = 15

-- CHAT_RATE_LIMIT_WINDOW_MS and REACTION_RATE_LIMIT_WINDOW_MS
abbrev pub rate_limit_window_ms : ℕ
rate_limit_window_ms = 5000

-- the window that a call at `now` counts in, with the call counted
abbrev pub next_window : ℕ → ℕ → Option Window → Window
next_window now window_ms none = record { count = 1; window_start = now }
next_window now window_ms (some w) =
    if leb window_ms (now - w.window_start)
    then record { count = 1; window_start = now }
    else record w { count = w.count + 1 }

-- `!state || now - state.windowStart >= windowMs`
abbrev pub opens_window : ℕ → ℕ → Option Window → Bool
opens_window now window_ms none = true
opens_window now window_ms (some w) = leb window_ms (now - w.window_start)

-- The clock may go back: then the difference is negative, or here 0, and less than the window.
unfoldable pub is_rate_limited : ℕ → RateKey → ℕ → ℕ → RateLimitState → Bool × RateLimitState
is_rate_limited now key max window_ms states =
    let w = next_window now window_ms (get states key) in
    (
      if opens_window now window_ms (get states key) then false else ltb max w.count,
      set states key w,
    )

unfoldable pub clear_rate_limit_state : ℕ → RateLimitState → RateLimitState
clear_rate_limit_state socket_id states =
    delete (delete states (record { socket_id = socket_id; kind = chat }))
      (record { socket_id = socket_id; kind = reaction })
