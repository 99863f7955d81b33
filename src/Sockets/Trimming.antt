-- ===== src/Sockets/Trimming.antt =====
-- The body that a chat message is reduced to (the handler of chat:message in
-- src/sockets/roomEvents.js).
use smartmeet_backend.Prelude.{
  ℕ, ◌≤◌, ◌≡◌, refl, ap, Bool, true, false, not, ◌&&◌, List, [], ◌∷◌, ◌++◌, arith, length, take,
  length-take, length-append, Bool-cases, inl, inr, if◌then◌else◌,
}
use smartmeet_backend.Sockets.RoomEvents.{
  is_space, is_empty_body, trim_start, trim_end, body_of, body_limit,
}

abbrev pub all_space : List ℕ → Bool
all_space [] = true
all_space (c ∷ cs) = is_space c && all_space cs

abbrev pub starts_clean : List ℕ → Bool
starts_clean [] = true
starts_clean (c ∷ cs) = not (is_space c)

abbrev pub ends_clean : List ℕ → Bool
ends_clean [] = true
ends_clean (c ∷ cs) = if is_empty_body cs then not (is_space c) else ends_clean cs

-- `body` is `text` without the white space around it.
pub record IsTrimOf (text body : List ℕ) : Type 0 where
  pub before : List ℕ
  pub after : List ℕ
  pub around : before ++ (body ++ after) ≡ text
  pub before_space : all_space before ≡ true
  pub after_space : all_space after ≡ true
  pub start : starts_clean body ≡ true
  pub end : ends_clean body ≡ true

trim_start-split :
    (cs : List ℕ)
    → (a : List ℕ) × (a ++ trim_start cs ≡ cs)
      × (all_space a ≡ true)
      × (starts_clean (trim_start cs) ≡ true)
unfolding trim_start
trim_start-split [] = ([], refl, refl, refl)
trim_start-split (c ∷ cs) = elim (Bool-cases (is_space c)) [
  | inl space ↦
      let (a, whole, spaces, clean) = trim_start-split cs in
      (
        c ∷ a,
        ground (arith, space, whole),
        ground (arith, space, spaces),
        ground (arith, space, clean),
      )
  | inr other ↦ ([], ground (arith, other), refl, ground (arith, other))
]

-- A character that `trim_end` removes stands before nothing, and so does the rest after it.
gone_lem :
    (c : ℕ) (r b cs : List ℕ)
    → r ++ b ≡ cs
    → all_space b ≡ true
    → (is_space c && is_empty_body r) ≡ true
    → (c ∷ b ≡ c ∷ cs) × (all_space (c ∷ b) ≡ true)
gone_lem c [] b cs whole spaces gone = (ap (λ t. c ∷ t) whole, ground (arith, gone, spaces))
gone_lem c (d ∷ r) b cs whole spaces gone = ground (arith, gone)

kept_lem :
    (c : ℕ) (r : List ℕ)
    → ends_clean r ≡ true
    → (is_space c && is_empty_body r) ≡ false
    → ends_clean (c ∷ r) ≡ true
kept_lem c [] clean kept = ground (arith, kept)
kept_lem c (d ∷ r) clean kept = clean

trim_end-split :
    (cs : List ℕ)
    → (b : List ℕ) × (trim_end cs ++ b ≡ cs)
      × (all_space b ≡ true)
      × (ends_clean (trim_end cs) ≡ true)
unfolding trim_end
trim_end-split [] = ([], refl, refl, refl)
trim_end-split (c ∷ cs) =
    let (b, whole, spaces, clean) = trim_end-split cs in
    elim (Bool-cases (is_space c && is_empty_body (trim_end cs))) [
      | inl gone ↦
          let (same, more) = gone_lem c (trim_end cs) b cs whole spaces gone in
          (c ∷ b, rw gone same, more, rw gone refl)
      | inr kept ↦ (
        b,
        rw kept (ap (λ t. c ∷ t) whole),
        spaces,
        rw kept (kept_lem c (trim_end cs) clean kept),
      )
    ]

trim_end-starts_clean : (cs : List ℕ) → starts_clean cs ≡ true → starts_clean (trim_end cs) ≡ true
unfolding trim_end
trim_end-starts_clean [] h = refl
trim_end-starts_clean (c ∷ cs) h = ground (arith, h)

-- The body of a chat message is the first 2000 code units of the text, less the white space at
-- either end of them, and no more.
pub body_of-IsTrimOf : (message : List ℕ) → IsTrimOf (take body_limit message) (body_of message)
unfolding body_of
body_of-IsTrimOf message =
    let (a, whole, spaces, clean) = trim_start-split (take body_limit message) in
    let (b, whole_end, spaces_end, clean_end) =
      trim_end-split (trim_start (take body_limit message)) in
    record {
      before = a;
      after = b;
      around = rw whole_end whole;
      before_space = spaces;
      after_space = spaces_end;
      start = trim_end-starts_clean (trim_start (take body_limit message)) clean;
      end = clean_end;
    }

-- A body that is what is left of the first 2000 code units has no more than these.
pub body_of-length : (message : List ℕ) → length (body_of message) ≤ body_limit
body_of-length message =
    let t = body_of-IsTrimOf message in
    omega (
      arith,
      ap length t.around,
      length-append t.before (body_of message ++ t.after),
      length-append (body_of message) t.after,
      length-take body_limit message,
    )
