-- ===== src/Base/Decimal.antt =====
-- `str(n)` and `f"{n:04d}"` for a natural number, as the code points of its decimal digits.
use Prim.Native.Nat.{ℕ, zero, suc, ◌+◌, ◌-◌, ◌*◌, ◌/◌, ◌%◌, ◌<◌}
use mathlib.Core.Path.{◌≡◌, refl, ap, sym, ◌∙◌}
use mathlib.Core.Logic.{inl, inr}
use mathlib.Core.List.{[], ◌∷◌}
use native.Mathlib.Omega.{arith}
use group_assessment_agent.Base.Tests.{ltb, Bool-cases, if◌then◌else◌}
use group_assessment_agent.Base.Lists.{length}
use group_assessment_agent.Base.Strings.{Text}

-- The digits of `n` in front of `tail`. The fuel is more than the number of digits when it is
-- more than `n`.
digits_onto : ℕ → ℕ → Text → Text
digits_onto zero n tail = tail
digits_onto (suc fuel) n tail =
    let more = digits_onto fuel (n / 10) ((48 + n % 10) ∷ tail) in
    if ltb n 10 then (48 + n % 10) ∷ tail else more

unfoldable pub digits : ℕ → Text
unfolding digits_onto
digits n = digits_onto (suc n) n []

zeros : ℕ → Text → Text
zeros zero s = s
zeros (suc k) s = 48 ∷ zeros k s

unfoldable pub pad4 : ℕ → Text
unfolding digits zeros
pad4 n = zeros (4 - length (digits n)) (digits n)

-- The number that a text of digits denotes, read on from `acc`.
value_from : ℕ → Text → ℕ
value_from acc [] = acc
value_from acc (c ∷ s) = value_from (acc * 10 + (c - 48)) s

value_from-digits_onto :
    (fuel n : ℕ) (tail : Text)
    → n < fuel
    → value_from 0 (digits_onto fuel n tail) ≡ value_from n tail
unfolding digits_onto value_from
value_from-digits_onto zero n tail h = absurd (omega arith)
value_from-digits_onto (suc fuel) n tail h = elim (Bool-cases (ltb n 10)) [
  | inl small ↦ rw small (ap (λ a. value_from a tail) (ground arith))
  | inr large ↦ rw large (
      value_from-digits_onto fuel (n / 10) ((48 + n % 10) ∷ tail) (ground arith)
      ∙ ap (λ a. value_from a tail) (omega arith))
]

value_from-zeros : (k : ℕ) (s : Text) → value_from 0 (zeros k s) ≡ value_from 0 s
unfolding zeros value_from
value_from-zeros zero s = refl
value_from-zeros (suc k) s = value_from-zeros k s

-- The padded number denotes the number again.
value-pad4 : (n : ℕ) → value_from 0 (pad4 n) ≡ n
unfolding pad4 digits value_from
value-pad4 n =
    value_from-zeros (4 - length (digits n)) (digits n)
    ∙ value_from-digits_onto (suc n) n [] (omega arith)

pub pad4_injective : (m n : ℕ) → pad4 m ≡ pad4 n → m ≡ n
pad4_injective m n e = sym (value-pad4 m) ∙ ap (value_from 0) e ∙ value-pad4 n
