-- ===== src/Config/Error/Decimal.antt =====
-- The line numbers of a report: `to_string`, read back by `u32::from_str`.
use native.Mathlib.Nat.{pow-succ'}
use panopti_dns.Prelude.{
  ℕ, zero, suc, ◌+◌, ◌-◌, ◌*◌, ◌/◌, ◌%◌, ◌^◌, ◌<◌, ◌≡◌, refl, ap, ◌∙◌, true, false, some, [], ◌∷◌,
  ◌++◌, arith, ltb, ◌==◌, ◌>>=◌, inl, inr, Bool-cases,
}
use panopti_dns.Bytes.{Bytes}
use panopti_dns.Config.Text.{decimal_loop, unsigned_digits, u32_from_str}
use panopti_dns.Config.Error.Message.{decimal_digits, to_string}

decimal_loop-append :
    (acc : ℕ) (xs ys : Bytes)
    → decimal_loop acc (xs ++ ys) ≡ (decimal_loop acc xs >>= λ a. decimal_loop a ys)
unfolding decimal_loop
decimal_loop-append acc [] ys = refl
decimal_loop-append acc (c ∷ cs) ys =
    ground (arith, decimal_loop-append (acc * 10 + (c - b'0')) cs ys)

decimal_loop-digit :
    (acc d : ℕ)
    → d < 10
    → acc * 10 + d < 2 ^ 32
    → decimal_loop acc ((b'0' + d) ∷ []) ≡ some (acc * 10 + d)
unfolding decimal_loop
decimal_loop-digit acc d small fits = ground arith

-- One digit after the digits of the tenth.
last_digit :
    (n : ℕ) (more : Bytes)
    → n < 2 ^ 32
    → decimal_loop 0 more ≡ some (n / 10)
    → decimal_loop 0 (more ++ (b'0' + n % 10) ∷ []) ≡ some n
last_digit n more fits read =
    decimal_loop-append 0 more ((b'0' + n % 10) ∷ [])
    ∙ ap (λ o. o >>= λ a. decimal_loop a ((b'0' + n % 10) ∷ [])) read
    ∙ decimal_loop-digit (n / 10) (n % 10) (omega arith) (omega arith)
    ∙ ap some (omega arith)

one_digit : (n : ℕ) → n < 10 → n < 2 ^ 32 → decimal_loop 0 ((b'0' + n) ∷ []) ≡ some n
one_digit n small fits = decimal_loop-digit 0 n small (omega arith) ∙ ap some (omega arith)

decimal_loop-decimal_digits :
    (fuel n : ℕ)
    → n < 10 ^ suc fuel
    → n < 2 ^ 32
    → decimal_loop 0 (decimal_digits (suc fuel) n) ≡ some n
unfolding decimal_digits
decimal_loop-decimal_digits zero n below fits =
    let short : ltb n 10 ≡ true = ground arith in rw short (one_digit n (omega arith) fits)
decimal_loop-decimal_digits (suc fuel) n below fits = elim (Bool-cases (ltb n 10)) [
  | inl short ↦ rw short (one_digit n (ground arith) fits)
  | inr long ↦ rw long (
      last_digit n (decimal_digits (suc fuel) (n / 10)) fits (
        decimal_loop-decimal_digits fuel (n / 10) (omega (arith, pow-succ' (suc fuel) 10))
          (omega arith)))
]

decimal_digits-first :
    (fuel n : ℕ)
    → (d : ℕ) × (rest : Bytes) × (decimal_digits (suc fuel) n ≡ d ∷ rest) × (d == b'+' ≡ false)
unfolding decimal_digits
decimal_digits-first zero n = elim (Bool-cases (ltb n 10)) [
  | inl short ↦ rw short (b'0' + n, [], refl, ground arith)
  | inr long ↦ rw long (b'0' + n % 10, [], refl, ground arith)
]
decimal_digits-first (suc fuel) n = elim (Bool-cases (ltb n 10)) [
  | inl short ↦ rw short (b'0' + n, [], refl, ground arith)
  | inr long ↦
      (let (d, rest, e, digit) = decimal_digits-first fuel (n / 10) in
        rw long
          (d, rest ++ (b'0' + n % 10) ∷ [], ap (λ (t : Bytes). t ++ (b'0' + n % 10) ∷ []) e, digit))
]

-- A number of 32 bits is read back from its decimal text.
u32_from_str-to_string : (n : ℕ) → n < 2 ^ 32 → u32_from_str (to_string n) ≡ some n
unfolding u32_from_str unsigned_digits to_string
u32_from_str-to_string n fits =
    let (d, rest, e, digit) = decimal_digits-first 19 n in
    let read = decimal_loop-decimal_digits 19 n (omega arith) fits in rw (e, digit) (rw e at read)
