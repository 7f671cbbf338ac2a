-- ===== src/Prelude/Decimal/RoundTrip.antt =====
-- A number that is printed in decimal digits is read back.
use filewall.Prelude.Data.{Text}
use filewall.Prelude.Decimal.{decimal, digits_onto, digits}
use filewall.Prelude.Lists.{All, is_nil}
use filewall.Prelude.Tests.{leb, ◌==◌, Bool-cases}
use mathlib.Core.Bool.{true, false}
use mathlib.Core.List.{[], ◌∷◌}
use mathlib.Core.Logic.{inl, inr}
use mathlib.Core.Option.{some}
use mathlib.Core.Path.{◌≡◌, refl, ap, ◌∙◌}
use native.Mathlib.Omega.{arith}
use Prim.Native.Nat.{ℕ, zero, suc, ◌+◌, ◌-◌, ◌*◌, ◌/◌, ◌%◌, ◌≤◌, ◌<◌}

-- A decimal digit.
abbrev pub IsDigit : ℕ → Type 0
IsDigit c = (48 ≤ c) × (c ≤ 57)

digits_onto-IsDigit :
    (fuel n : ℕ) (rest : Text) → All IsDigit rest → All IsDigit (digits_onto fuel n rest)
unfolding digits_onto
digits_onto-IsDigit zero n rest h = h
digits_onto-IsDigit (suc fuel) n rest h =
    let d : IsDigit (48 + n % 10) = (omega arith, omega arith) in
    elim (Bool-cases (n / 10 == 0)) [
      | inl e ↦ rw e (d, h)
      | inr e ↦ rw e (digits_onto-IsDigit fuel (n / 10) ((48 + n % 10) ∷ rest) (d, h))
    ]

digits-cons :
    (acc d : ℕ) (rest : Text) → d < 10 → digits acc ((48 + d) ∷ rest) ≡ digits (acc * 10 + d) rest
unfolding digits
digits-cons acc d rest h =
    let e : 48 + d - 48 ≡ d = omega arith in
    let lo : leb 48 (48 + d) ≡ true = ground arith in
    let hi : leb (48 + d) 57 ≡ true = ground arith in rw (lo, hi, e) refl

-- What is printed is read back, and what stands behind it is read on.
digits-digits_onto :
    (fuel n : ℕ) (rest : Text) → n < fuel → digits 0 (digits_onto fuel n rest) ≡ digits n rest
unfolding digits_onto
digits-digits_onto zero n rest h = absurd (omega arith)
digits-digits_onto (suc fuel) n rest h = elim (Bool-cases (n / 10 == 0)) [
  | inl e ↦
      let one : 0 * 10 + n % 10 ≡ n = ground arith in
      rw e (digits-cons 0 (n % 10) rest (omega arith) ∙ ap (λ k. digits k rest) one)
  | inr e ↦
      let whole : n / 10 * 10 + n % 10 ≡ n = omega arith in
      rw e (
        digits-digits_onto fuel (n / 10) ((48 + n % 10) ∷ rest) (ground arith)
        ∙ digits-cons (n / 10) (n % 10) rest (omega arith)
        ∙ ap (λ k. digits k rest) whole)
]

pub decimal-IsDigit_all : (n : ℕ) → All IsDigit (decimal n)
unfolding decimal
decimal-IsDigit_all n = digits_onto-IsDigit (suc n) n [] tt

-- At least one digit is printed.
digits_onto_some : (fuel n d : ℕ) (rest : Text) → is_nil (digits_onto fuel n (d ∷ rest)) ≡ false
unfolding digits_onto
digits_onto_some zero n d rest = refl
digits_onto_some (suc fuel) n d rest = elim (Bool-cases (n / 10 == 0)) [
  | inl e ↦ rw e refl
  | inr e ↦ rw e (digits_onto_some fuel (n / 10) (48 + n % 10) (d ∷ rest))
]

pub decimal_some : (n : ℕ) → is_nil (decimal n) ≡ false
unfolding decimal digits_onto
decimal_some n = elim (Bool-cases (n / 10 == 0)) [
  | inl e ↦ rw e refl
  | inr e ↦ rw e (digits_onto_some n (n / 10) (48 + n % 10) [])
]

pub digits-decimal : (n : ℕ) → digits 0 (decimal n) ≡ some n
unfolding decimal digits
digits-decimal n = digits-digits_onto (suc n) n [] (omega arith)
