-- ===== src/SfuService/Startup.antt =====
-- The start of the mediasoup workers (`init` of src/services/sfuService.js). The answers of
-- `createWorker` are an argument: that of the call with index `i`. A worker that dies ends the
-- process, and is left out.
use smartmeet_backend.Prelude.{
  ℕ, zero, suc, ◌+◌, ◌≤◌, ◌<◌, max, ◌≡◌, refl, ap, ◌∙◌, true, [], ◌∷◌, ◌++◌, arith, length,
  length-append, Result, ok, err, Action, if◌then◌else◌, proceed,
}
use smartmeet_backend.Errors.{Failure}
use smartmeet_backend.Config.{ℤ, pos, negsuc}
use smartmeet_backend.SfuService.{Sfu, is_available}

-- `Math.max(1, env.mediasoup.numWorkers)`
abbrev pub worker_count : ℤ → ℕ
worker_count (pos n) = max 1 n
worker_count (negsuc n) = 1

abbrev pub push_worker : Result ℕ → Action Sfu (Unit {0})
push_worker (err e) s = (err e, s)
push_worker (ok worker) s = (ok tt, record s { workers = s.workers ++ worker ∷ [] })

-- the loop, with `n` rounds left
unfoldable pub start_workers : (ℕ → Result ℕ) → (i n : ℕ) → Action Sfu (Unit {0})
start_workers answers i zero s = (ok tt, s)
start_workers answers i (suc n) s =
    proceed (push_worker (answers i) s) (λ _. start_workers answers (suc i) n)

unfoldable pub init : (num_workers : ℤ) → (ℕ → Result ℕ) → Action Sfu (Unit {0})
unfolding start_workers
init num_workers answers s =
    if s.is_installed then start_workers answers 0 (worker_count num_workers) s else (ok tt, s)

module _ (answers : ℕ → Result ℕ) where
  -- Every round up to the first that fails has started a worker, and that one ends the loop.
  start_workers_stops :
      (i k n : ℕ) (e : Failure) (s : Sfu)
      → k < n
      → ((j : ℕ) → i ≤ j → j < i + k → (w : ℕ) × (answers j ≡ ok w))
      → ((j : ℕ) → j ≡ i + k → answers j ≡ err e)
      → (t : Sfu) × (start_workers answers i n s ≡ (err e, t))
        × (length t.workers ≡ length s.workers + k)
        × (t.is_installed ≡ s.is_installed)
  unfolding start_workers
  start_workers_stops i k zero e s h good bad = absurd (omega arith)
  start_workers_stops i zero (suc n) e s h good bad =
      (s, rw (bad i (omega arith)) refl, omega arith, refl)
  start_workers_stops i (suc k) (suc n) e s h good bad =
      let (w, started) = good i (omega arith) (omega arith) in
      let (t, run, size, installed) =
        start_workers_stops (suc i) k n e (record s { workers = s.workers ++ w ∷ [] }) (omega arith)
          (λ j low high. good j (omega arith) (omega arith)) (λ j at. bad j (omega arith)) in
      let one = length-append s.workers (w ∷ []) in (t, rw started run, omega arith, installed)

  start_workers_ends :
      (i n : ℕ) (s : Sfu)
      → ((j : ℕ) → i ≤ j → j < i + n → (w : ℕ) × (answers j ≡ ok w))
      → (t : Sfu) × (start_workers answers i n s ≡ (ok tt, t))
        × (length t.workers ≡ length s.workers + n)
        × (t.is_installed ≡ s.is_installed)
  unfolding start_workers
  start_workers_ends i zero s good = (s, refl, omega arith, refl)
  start_workers_ends i (suc n) s good =
      let (w, started) = good i (omega arith) (omega arith) in
      let (t, run, size, installed) =
        start_workers_ends (suc i) n (record s { workers = s.workers ++ w ∷ [] })
          (λ j low high. good j (omega arith) (omega arith)) in
      let one = length-append s.workers (w ∷ []) in (t, rw started run, omega arith, installed)

  worker_count_pos : (num_workers : ℤ) → 1 ≤ worker_count num_workers
  worker_count_pos (pos n) = omega arith
  worker_count_pos (negsuc n) = omega arith

  init_run :
      (num_workers : ℤ) (s : Sfu)
      → s.is_installed ≡ true
      → init num_workers answers s ≡ start_workers answers 0 (worker_count num_workers) s
  unfolding init
  init_run num_workers s installed =
      ap (λ b. if b then start_workers answers 0 (worker_count num_workers) s else (ok tt, s))
        installed

  -- With mediasoup installed and every worker started, as many workers run as are configured, and
  -- at least one: the SFU is available.
  pub init_starts :
      (num_workers : ℤ) (s : Sfu)
      → s.is_installed ≡ true
      → s.workers ≡ []
      → ((j : ℕ) → j < worker_count num_workers → (w : ℕ) × (answers j ≡ ok w))
      → (length (init num_workers answers s).1.workers ≡ worker_count num_workers)
        × (is_available (init num_workers answers s).1 ≡ true)
  init_starts num_workers s installed fresh good =
      let (t, run, size, same) =
        start_workers_ends 0 (worker_count num_workers) s (λ j low high. good j (omega arith)) in
      let none_yet : length s.workers ≡ 0 = ap length fresh in
      let count : length t.workers ≡ worker_count num_workers = omega arith in
      let some_worker = worker_count_pos num_workers in
      rw (init_run num_workers s installed ∙ run)
        (count, ground (arith, same, installed, count, some_worker))

  -- With mediasoup installed and no worker yet, a start that fails after its first worker is an
  -- error, and the SFU is available all the same, with the workers that had started.
  pub init_fails_available :
      (num_workers : ℤ) (k : ℕ) (e : Failure) (s : Sfu)
      → s.is_installed ≡ true
      → s.workers ≡ []
      → 1 ≤ k
      → k < worker_count num_workers
      → ((j : ℕ) → j < k → (w : ℕ) × (answers j ≡ ok w))
      → answers k ≡ err e
      → ((init num_workers answers s).0 ≡ err e)
        × (length (init num_workers answers s).1.workers ≡ k)
        × (is_available (init num_workers answers s).1 ≡ true)
  init_fails_available num_workers k e s installed fresh first more good bad =
      let (t, run, size, same) =
        start_workers_stops 0 k (worker_count num_workers) e s more
          (λ j low high. good j (omega arith))
          (λ j at. let here : j ≡ k = omega arith in rw here bad) in
      let none_yet : length s.workers ≡ 0 = ap length fresh in
      let count : length t.workers ≡ k = omega arith in
      rw (init_run num_workers s installed ∙ run)
        (refl, count, ground (arith, same, installed, count))
