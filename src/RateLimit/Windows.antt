-- ===== src/RateLimit/Windows.antt =====
-- How many calls the limiter lets through, for any traffic of all the sockets.
use smartmeet_backend.Prelude.{
  ℕ, ◌+◌, ◌-◌, ◌≤◌, ◌≡◌, refl, sym, ap, ◌∙◌, inl, inr, Bool, false, not, ◌&&◌, Option, none, some,
  List, [], ◌∷◌, arith, leb, ltb, count, select, if◌then◌else◌, Bool-cases,
}
use smartmeet_backend.Prelude.Map.{get, get-set, get-set_self}
use smartmeet_backend.RateLimit.{
  Kind, chat, reaction, RateKey, rate_key, same_rate_key, same_rate_key_iff, Window, RateLimitState,
  next_window, opens_window, is_rate_limited, chat_rate_limit_max, reaction_rate_limit_max,
  rate_limit_window_ms,
}

-- One call of the limiter, by an event of a socket.
pub record Call : Type 0 where
  pub key : RateKey
  pub now : ℕ

abbrev pub max_of : Kind → ℕ
max_of chat = chat_rate_limit_max
max_of reaction = reaction_rate_limit_max

max_of_pos : (kind : Kind) → 1 ≤ max_of kind
max_of_pos chat = omega arith
max_of_pos reaction = omega arith

unfoldable pub admit : Call → RateLimitState → Bool × RateLimitState
unfolding is_rate_limited
admit c states = is_rate_limited c.now c.key (max_of c.key.kind) rate_limit_window_ms states

-- The times of the calls with a key that the limiter lets through.
pub granted : RateKey → List Call → RateLimitState → List ℕ
granted k [] states = []
granted k (c ∷ cs) states =
    let (limited, states') = admit c states in
    let rest = granted k cs states' in
    if same_rate_key c.key k && not limited then c.now ∷ rest else rest

-- The clock does not go back.
abbrev pub NotBefore : ℕ → List Call → Type 0
NotBefore t [] = Unit
NotBefore t (c ∷ cs) = (t ≤ c.now) × NotBefore c.now cs

-- the half-open interval of one window's length from `a`
abbrev pub within : ℕ → ℕ → Bool
within a t = leb a t && ltb t (a + rate_limit_window_ms)

-- How many calls in the interval from `a` can still go through, with the window `w` at time `now`.
budget : ℕ → ℕ → Window → ℕ → ℕ
budget max a w now =
    if leb (a + rate_limit_window_ms) w.window_start
    then 0
    else if leb a w.window_start
    then max - w.count
    else if leb a now
    then max - w.count + max
    else max + max

pub admit-get :
    (c : Call) (states : RateLimitState) (k : RateKey)
    → get (admit c states).1 k ≡ (
        if same_rate_key c.key k
        then some (next_window c.now rate_limit_window_ms (get states c.key))
        else get states k)
unfolding admit
admit-get c states k = get-set states c.key k _

budget_later :
    (max a : ℕ) (w : Window) (now later : ℕ)
    → now ≤ later
    → budget max a w later ≤ budget max a w now
unfolding budget
budget_later max a w now later h = ground arith

-- One call, let through or not, with its own window.
budget_step :
    (max a now t : ℕ) (w : Window)
    → 1 ≤ max
    → w.window_start ≤ now
    → now ≤ t
    → let next = next_window t rate_limit_window_ms (some w) in
      let limited =
        if opens_window t rate_limit_window_ms (some w) then false else ltb max next.count in
      (if not limited && within a t then 1 else 0) + budget max a next t ≤ budget max a w now
unfolding budget
budget_step max a now t w m started h = ground arith

-- whether a call that counts in a window is refused
abbrev refused : ℕ → ℕ → Option Window → Bool
refused max t w =
    if opens_window t rate_limit_window_ms w
    then false
    else ltb max (next_window t rate_limit_window_ms w).count

admit-refused :
    (c : Call) (states : RateLimitState) (k : RateKey)
    → c.key ≡ k
    → (admit c states).0 ≡ refused (max_of k.kind) c.now (get states k)
unfolding admit
admit-refused c states k e = rw (← e) refl

admit-get_self :
    (c : Call) (states : RateLimitState) (k : RateKey)
    → c.key ≡ k
    → get (admit c states).1 k ≡ some (next_window c.now rate_limit_window_ms (get states k))
unfolding admit
admit-get_self c states k e = rw (← e) (get-set_self states c.key _)

granted_mine :
    (k : RateKey) (c : Call) (cs : List Call) (states : RateLimitState)
    → c.key ≡ k
    → granted k (c ∷ cs) states ≡ (
        if not (refused (max_of k.kind) c.now (get states k))
        then c.now ∷ granted k cs (admit c states).1
        else granted k cs (admit c states).1)
unfolding granted
granted_mine k c cs states e =
    ground (arith, (same_rate_key_iff c.key k).1 e, admit-refused c states k e)

granted_other :
    (k : RateKey) (c : Call) (cs : List Call) (states : RateLimitState)
    → same_rate_key c.key k ≡ false
    → granted k (c ∷ cs) states ≡ granted k cs (admit c states).1
unfolding granted
granted_other k c cs states other = ground arith

-- A call with another key leaves the key's window; a call with the key makes the next one.
granted-within :
    (k : RateKey) (a now : ℕ) (cs : List Call) (states : RateLimitState) (w : Window)
    → get states k ≡ some w
    → w.window_start ≤ now
    → NotBefore now cs
    → count (within a) (granted k cs states) ≤ budget (max_of k.kind) a w now
unfolding granted
granted-within k a now [] states w there started ordered = omega arith
granted-within k a now (c ∷ cs) states w there started (h, ordered) =
    elim (Bool-cases (same_rate_key c.key k)) [
      | inr other ↦
          let kept : get (admit c states).1 k ≡ some w = ground (arith, admit-get c states k) in
          rw (granted_other k c cs states other) (
            omega (
              arith,
              granted-within k a c.now cs (admit c states).1 w kept (omega arith) ordered,
              budget_later (max_of k.kind) a w now c.now h,
            ))
      | inl mine ↦
          let e : c.key ≡ k = (same_rate_key_iff c.key k).0 mine in
          let next = next_window c.now rate_limit_window_ms (some w) in
          let moved : get (admit c states).1 k ≡ some next =
            admit-get_self c states k e
            ∙ ap (λ o. some (next_window c.now rate_limit_window_ms o)) there in
          rw (granted_mine k c cs states e, there)
            (ground (
              arith,
              granted-within k a c.now cs (admit c states).1 next moved,
              budget_step (max_of k.kind) a now c.now w (max_of_pos k.kind) started h,
            ))
    ]

-- The first call with a key opens its window and goes through.
granted_first :
    (k : RateKey) (a : ℕ) (c : Call) (cs : List Call) (states : RateLimitState)
    → get states k ≡ none
    → c.key ≡ k
    → NotBefore c.now cs
    → count (within a) (granted k (c ∷ cs) states) ≤ max_of k.kind + max_of k.kind
granted_first k a c cs states fresh e ordered =
    let opened : Window = record { count = 1; window_start = c.now } in
    let there : get (admit c states).1 k ≡ some opened =
      admit-get_self c states k e
      ∙ ap (λ o. some (next_window c.now rate_limit_window_ms o)) fresh in
    rw (granted_mine k c cs states e, fresh)
      (unfold budget in
        ground (
          arith,
          max_of_pos k.kind,
          granted-within k a c.now cs (admit c states).1 opened there (omega arith) ordered,
        ))

-- For any traffic on a clock that does not go back, from a state that knows nothing of the key:
-- within any 5 seconds at most 16 chat messages, or 30 reactions, of one socket go through, which
-- is twice the maximum of one window.
pub granted_bound :
    (k : RateKey) (a t : ℕ) (cs : List Call) (states : RateLimitState)
    → get states k ≡ none
    → NotBefore t cs
    → count (within a) (granted k cs states) ≤ max_of k.kind + max_of k.kind
unfolding granted
granted_bound k a t [] states fresh ordered = omega arith
granted_bound k a t (c ∷ cs) states fresh (h, ordered) = elim (Bool-cases (same_rate_key c.key k)) [
  | inl mine ↦ granted_first k a c cs states fresh ((same_rate_key_iff c.key k).0 mine) ordered
  | inr other ↦
      let kept : get (admit c states).1 k ≡ none = ground (arith, admit-get c states k) in
      rw (granted_other k c cs states other)
        (granted_bound k a c.now cs (admit c states).1 kept ordered)
]

abbrev pub is_call_of : RateKey → Call → Bool
is_call_of k c = same_rate_key c.key k

-- The limiter treats a key as if the calls with other keys had not been made: the traffic of the
-- other sockets, and the socket's events of the other kind, cost it nothing.
pub granted_own :
    (k : RateKey) (cs : List Call) (states states' : RateLimitState)
    → get states k ≡ get states' k
    → granted k cs states ≡ granted k (select (is_call_of k) cs) states'
granted_own k [] states states' same = unfold granted in refl
granted_own k (c ∷ cs) states states' same = elim (Bool-cases (same_rate_key c.key k)) [
  | inr other ↦
      rw (other, granted_other k c cs states other)
        (granted_own k cs (admit c states).1 states' (ground (arith, admit-get c states k)))
  | inl mine ↦
      let e : c.key ≡ k = (same_rate_key_iff c.key k).0 mine in
      let next_same =
        admit-get_self c states k e
        ∙ ap (λ o. some (next_window c.now rate_limit_window_ms o)) same
        ∙ sym (admit-get_self c states' k e) in
      rw (mine, granted_mine k c cs states e)
        (rw (granted_mine k c (select (is_call_of k) cs) states' e)
          (rw (same, granted_own k cs (admit c states).1 (admit c states').1 next_same) refl))
]
