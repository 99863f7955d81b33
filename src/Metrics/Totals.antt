-- ===== src/Metrics/Totals.antt =====
-- What the numbers of a snapshot say of the requests that were recorded.
use smartmeet_backend.Prelude.{
  ℕ, ◌+◌, ◌*◌, ◌≤◌, ◌≡◌, refl, ap, subst, ◌∙◌, min, max, true, false, inl, inr, Option, none, some,
  List, [], ◌∷◌, arith, ◌==◌, leb, if◌then◌else◌, Bool-cases,
}
use smartmeet_backend.Prelude.Map.{nat_key, get, get-set}
use smartmeet_backend.Metrics.{
  Metrics, RouteStats, no_requests, or_no_requests, lower, count_request, record_request,
}

pub record Request : Type 0 where
  pub route_key : ℕ
  pub duration : ℕ
  pub status_code : ℕ

-- The requests are listed with the latest first.
pub record_all : List Request → Metrics → Metrics
record_all [] m = m
record_all (r ∷ rs) m = record_request r.route_key r.duration r.status_code (record_all rs m)

-- How often a route was asked for, and what it took, read off the requests.
abbrev pub requests_of : ℕ → List Request → ℕ
requests_of k [] = 0
requests_of k (r ∷ rs) = let n = requests_of k rs in if r.route_key == k then n + 1 else n

abbrev pub failures_of : ℕ → List Request → ℕ
failures_of k [] = 0
failures_of k (r ∷ rs) =
    let n = failures_of k rs in
    if r.route_key == k then (if leb 500 r.status_code then n + 1 else n) else n

abbrev pub time_of : ℕ → List Request → ℕ
time_of k [] = 0
time_of k (r ∷ rs) = let n = time_of k rs in if r.route_key == k then n + r.duration else n

-- The statistics of a route that was asked for. The mean lies between the two extremes.
pub record Sums (k : ℕ) (rs : List Request) (s : RouteStats) : Type 0 where
  pub count : s.count ≡ requests_of k rs
  pub errors : s.error_count ≡ failures_of k rs
  pub time : s.total_duration ≡ time_of k rs
  pub lowest : (m : ℕ) × (s.min_duration ≡ some m) × (m * s.count ≤ s.total_duration)
  pub highest : s.total_duration ≤ s.max_duration * s.count

abbrev pub Tells : ℕ → List Request → Option RouteStats → Type 0
Tells k rs none = (requests_of k rs ≡ 0) × (failures_of k rs ≡ 0) × (time_of k rs ≡ 0)
Tells k rs (some s) = Sums k rs s

mul_mono_left : (a b n : ℕ) → a ≤ b → a * n ≤ b * n
mul_mono_left a b n h = grind arith

lower_bound : (m d n t : ℕ) → m * n ≤ t → min m d * (n + 1) ≤ t + d
lower_bound m d n t h = grind (arith, mul_mono_left (min m d) m n)

upper_bound : (x d n t : ℕ) → t ≤ x * n → t + d ≤ max x d * (n + 1)
upper_bound x d n t h = grind (arith, mul_mono_left x (max x d) n)

-- One request more.
module _ (k duration status_code : ℕ) (rs : List Request) where
  abbrev longer : List Request
  longer = record { route_key = k; duration = duration; status_code = status_code } ∷ rs

  Sums-count_request :
      (s : RouteStats) → Sums k rs s → Sums k longer (count_request duration status_code s)
  Sums-count_request s t =
      let (m, e, low) = t.lowest in
      record {
        count = ground (arith, t.count);
        errors = ground (arith, t.errors);
        time = ground (arith, t.time);
        lowest = (
          min m duration,
          ap (λ o. some (lower o duration)) e,
          lower_bound m duration s.count s.total_duration low,
        );
        highest = upper_bound s.max_duration duration s.count s.total_duration t.highest;
      }

  Sums-first : Tells k rs none → Sums k longer (count_request duration status_code no_requests)
  Sums-first (n, f, d) = record {
    count = ground arith;
    errors = ground arith;
    time = ground arith;
    lowest = (duration, refl, omega arith);
    highest = omega arith;
  }

Tells-other :
    (k : ℕ) (r : Request) (rs : List Request) (found : Option RouteStats)
    → (r.route_key == k) ≡ false
    → Tells k rs found
    → Tells k (r ∷ rs) found
Tells-other k r rs none other t = ground arith
Tells-other k r rs (some s) other t = record {
  count = ground (arith, t.count);
  errors = ground (arith, t.errors);
  time = ground (arith, t.time);
  lowest = t.lowest;
  highest = t.highest;
}

Tells-same :
    (k duration status_code : ℕ) (rs : List Request) (found : Option RouteStats)
    → Tells k rs found
    → Tells k
        (record { route_key = k; duration = duration; status_code = status_code } ∷ rs)
        (some (count_request duration status_code (or_no_requests found)))
Tells-same k duration status_code rs none t = Sums-first k duration status_code rs t
Tells-same k duration status_code rs (some s) t = Sums-count_request k duration status_code rs s t

record_request-get :
    (key duration status_code k : ℕ) (m : Metrics)
    → m.is_enabled ≡ true
    → get (record_request key duration status_code m).routes k ≡ (
        if key == k
        then some (count_request duration status_code (or_no_requests (get m.routes key)))
        else get m.routes k)
unfolding record_request
record_request-get key duration status_code k m on = rw on (
    get-set m.routes key k (count_request duration status_code (or_no_requests (get m.routes key))))

record_request_enabled :
    (key duration status_code : ℕ) (m : Metrics)
    → (record_request key duration status_code m).is_enabled ≡ m.is_enabled
unfolding record_request
record_request_enabled key duration status_code m = ground arith

record_all_enabled : (rs : List Request) (m : Metrics) → (record_all rs m).is_enabled ≡ m.is_enabled
unfolding record_all
record_all_enabled [] m = refl
record_all_enabled (r ∷ rs) m =
    record_request_enabled r.route_key r.duration r.status_code (record_all rs m)
    ∙ record_all_enabled rs m

-- With metrics enabled and nothing recorded before, the statistics of a route are those of the
-- requests to it: how many they were, how many of them were answered with 500 or more, and the
-- time that they took, with the mean between the recorded minimum and maximum; a route without
-- statistics was not asked for.
pub record_all-Tells :
    (rs : List Request) (m : Metrics) (k : ℕ)
    → m.is_enabled ≡ true
    → m.routes ≡ []
    → Tells k rs (get (record_all rs m).routes k)
unfolding record_all
record_all-Tells [] m k on empty = rw empty (unfold get in (refl, refl, refl))
record_all-Tells (r ∷ rs) m k on empty =
    let before = record_all-Tells rs m k on empty in
    rw
      (record_request-get r.route_key r.duration r.status_code k (record_all rs m)
        (record_all_enabled rs m ∙ on))
      (elim (Bool-cases (r.route_key == k)) [
        | inr other ↦ rw other (Tells-other k r rs (get (record_all rs m).routes k) other before)
        | inl mine ↦
            let e : r.route_key ≡ k = ground arith in
            let kept = get (record_all rs m).routes r.route_key in
            rw mine (
              subst
                (λ j.
                  Sums j (r ∷ rs) (count_request r.duration r.status_code (or_no_requests kept)))
                e
                (Tells-same r.route_key r.duration r.status_code rs kept
                  (record_all-Tells rs m r.route_key on empty)))
      ])
