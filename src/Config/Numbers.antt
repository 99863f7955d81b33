-- ===== src/Config/Numbers.antt =====
-- The numbers that `toInt` reads.
use Prim.Native.Nat.{◌^◌}
use Prim.Native.Nat.pow
use smartmeet_backend.Prelude.{
  ℕ, ◌+◌, ◌-◌, ◌*◌, ◌≤◌, ◌≡◌, ap, ◌∙◌, true, false, some, List, [], ◌∷◌, ◌++◌, map, All, length,
  arith, ◌==◌,
}
use smartmeet_backend.Sockets.RoomEvents.{is_space, trim_start}
use smartmeet_backend.Config.{
  Text, ℤ, pos, is_digit, scan, starts_with_digit, parse_unsigned, parse_int, to_int,
}

-- a digit's code unit
abbrev pub digit : ℕ → ℕ
digit d = b'0' + d

-- what a numeral stands for
abbrev pub value : List ℕ → ℕ
value [] = 0
value (d ∷ ds) = d * 10 ^ length ds + value ds

abbrev IsDigitValue : ℕ → Type 0
IsDigitValue d = d ≤ 9

shift : (n d w v : ℕ) → (n * 10 + d) * w + v ≡ n * (w * 10) + (d * w + v)
shift n d w v = grind arith

digit-is_space : (d : ℕ) → d ≤ 9 → is_space (digit d) ≡ false
unfolding is_space
digit-is_space d h = ground arith

digit-is_digit : (d : ℕ) → d ≤ 9 → is_digit (digit d) ≡ true
digit-is_digit d h = ground arith

digit_no_sign : (d : ℕ) → d ≤ 9 → ((digit d == b'-') ≡ false) × ((digit d == b'+') ≡ false)
digit_no_sign d h = ground arith

scan-numeral :
    (ds : List ℕ) (rest : Text) (n : ℕ)
    → All IsDigitValue ds
    → starts_with_digit rest ≡ false
    → scan (map digit ds ++ rest) n ≡ n * 10 ^ length ds + value ds
unfolding scan
scan-numeral [] [] n h end = ground arith
scan-numeral [] (c ∷ rest) n h end = ground arith
scan-numeral (d ∷ ds) rest n h end =
    let ih = scan-numeral ds rest (n * 10 + (digit d - b'0')) h.1 end in
    let step : n * 10 + (digit d - b'0') ≡ n * 10 + d = omega arith in
    rw (digit-is_digit d h.0, ih, step, pow.suc 10 (length ds))
      (shift n d (10 ^ length ds) (value ds))

-- A numeral is read as what it stands for, whatever follows it, if that starts with no digit.
pub to_int-numeral :
    (d : ℕ) (ds : List ℕ) (rest : Text) (fallback : ℤ)
    → All IsDigitValue (d ∷ ds)
    → starts_with_digit rest ≡ false
    → to_int (some (map digit (d ∷ ds) ++ rest)) fallback ≡ pos (value (d ∷ ds))
unfolding to_int parse_int parse_unsigned trim_start
to_int-numeral d ds rest fallback h end =
    let (no_minus, no_plus) = digit_no_sign d h.0 in
    let first : 0 + (digit d - b'0') ≡ d = omega arith in
    rw (digit-is_space d h.0, no_minus, no_plus, digit-is_digit d h.0)
      (ap (λ n. pos n)
        (scan-numeral ds rest (0 + (digit d - b'0')) h.1 end
          ∙ ap (λ n. n * 10 ^ length ds + value ds) first))
