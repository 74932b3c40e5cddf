-- ===== src/Prelude/Floats.antt =====
-- Go's `float64`, as the type and the operations that the program uses. The theorems hold for every
-- type with these operations and laws. The laws are those of the IEEE comparisons on values that
-- are not NaN; of the arithmetic nothing is assumed. `of_nat n` is the constant n of the program,
-- and `parse` is strconv.ParseFloat, with `none` for its error.
use Prim.Native.Nat.{ℕ, zero, suc, ◌+◌, ◌-◌, ◌*◌, ◌/◌, ◌<◌, ◌≤◌}
use mathlib.Core.Path.{◌≡◌}
use mathlib.Core.Bool.{Bool, true, false, not, ◌&&◌}
use native.Mathlib.Omega.{arith}
use mathlib.Core.Option.{Option, none, some}
use mathlib.Core.List.{[], ◌∷◌}
use octopusgarden.Prelude.Tests.{if◌then◌else◌, leb, ltb}
use octopusgarden.Prelude.Strings.{Text}

pub record Float (R : Type 0) : Type 0 where
  pub lt : R → R → Bool
  pub add : R → R → R
  pub mul : R → R → R
  pub div : R → R → R
  pub of_nat : ℕ → R
  pub parse : Text → Option R
  pub lt_irrefl : (a : R) → lt a a ≡ false
  pub lt_trans : (a b c : R) → lt a b ≡ true → lt b c ≡ true → lt a c ≡ true
  -- Two values neither of which is below the other stand alike to every third.
  pub lt_cotrans : (a b c : R) → lt a c ≡ true → lt a b ≡ false → lt b c ≡ true
  pub of_nat_lt : (a b : ℕ) → a < b → b ≤ 100 → lt (of_nat a) (of_nat b) ≡ true

module _ {R : Type 0} ⦃F : Float R⦄ where
  -- `a < b`, `a >= b` and `a == b`.
  abbrev pub flt : R → R → Bool
  flt = F.lt

  abbrev pub fge : R → R → Bool
  fge a b = not (F.lt a b)

  abbrev pub feq : R → R → Bool
  feq a b = not (F.lt a b) && not (F.lt b a)

  abbrev pub of_nat : ℕ → R
  of_nat = F.of_nat

  infixl 65 ◌+ᶠ◌
  abbrev pub ◌+ᶠ◌ : R → R → R
  a +ᶠ b = F.add a b

  infixl 70 ◌*ᶠ◌ ◌/ᶠ◌
  abbrev pub ◌*ᶠ◌ : R → R → R
  a *ᶠ b = F.mul a b

  abbrev pub ◌/ᶠ◌ : R → R → R
  a /ᶠ b = F.div a b

  pub flt_asymm : (a b : R) → flt a b ≡ true → flt b a ≡ false
  flt_asymm a b h = ground (arith, F.lt_trans a b a, F.lt_irrefl a)

-- The natural numbers as such a type, for tests: scores and costs that are whole numbers.
pub ltb_irrefl : (a : ℕ) → ltb a a ≡ false
ltb_irrefl a = ground arith

pub ltb_trans : (a b c : ℕ) → ltb a b ≡ true → ltb b c ≡ true → ltb a c ≡ true
ltb_trans a b c h k = ground arith

pub ltb_cotrans : (a b c : ℕ) → ltb a c ≡ true → ltb a b ≡ false → ltb b c ≡ true
ltb_cotrans a b c h k = ground arith

pub of_nat_ltb : (a b : ℕ) → a < b → b ≤ 100 → ltb a b ≡ true
of_nat_ltb a b h k = ground arith

-- Decimal digits.
abbrev pub parse_digits : ℕ → Text → Option ℕ
parse_digits n [] = some n
parse_digits n (c ∷ s) = if leb 48 c && leb c 57 then parse_digits (10 * n + (c - 48)) s else none

abbrev quotient : ℕ → ℕ → ℕ
quotient a zero = 0
quotient a (suc b) = a / suc b

instance abbrev pub whole : Float ℕ
whole = record {
  lt = ltb;
  add = λ a b. a + b;
  mul = λ a b. a * b;
  div = quotient;
  of_nat = λ n. n;
  parse = parse_digits 0;
  lt_irrefl = ltb_irrefl;
  lt_trans = ltb_trans;
  lt_cotrans = ltb_cotrans;
  of_nat_lt = of_nat_ltb;
}
