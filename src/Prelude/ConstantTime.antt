-- ===== src/Prelude/ConstantTime.antt =====
-- `constant_time_eq` of src/machines/token.rs and the loop of `hashes_equal` of src/audit/hash.rs:
-- equality of byte strings by or-ing together the exclusive ors of their bytes.
use Prim.Native.Nat.{
  ℕ, zero, suc, ◌/◌, ◌%◌, ◌≤◌, max, bit_or, bit_xor, digits, differ, bit_or-bitwise,
  bit_xor-bitwise,
}
use mathlib.Core.Path.{◌≡◌, refl, sym, ◌∙◌}
use mathlib.Core.Logic.{◌↔◌}
use mathlib.Core.Bool.{Bool, true, false}
use mathlib.Core.List.{List, [], ◌∷◌}
use native.Mathlib.Omega.{arith}
use mayfly_server.Prelude.Tests.{◌==◌, if◌then◌else◌, not}
use mayfly_server.Prelude.Lists.{length}

or_digits-eq-zero : (n a b : ℕ) → a ≤ n → digits (λ b. b) max n a b ≡ 0 → (a ≡ 0) × (b ≡ 0)
or_digits-eq-zero zero zero b h e = (refl, e)
or_digits-eq-zero zero (suc a) b h e = absurd (omega arith)
or_digits-eq-zero (suc n) zero b h e = (refl, e)
or_digits-eq-zero (suc n) (suc a) b h e =
    let ih = or_digits-eq-zero n (suc a / 2) (b / 2) (omega arith) (omega arith) in
    absurd (omega arith)

differ-eq-zero : (x y : ℕ) → differ x y ≡ 0 → x ≡ y
differ-eq-zero zero y e = sym e
differ-eq-zero (suc x) zero e = e
differ-eq-zero (suc x) (suc y) e = omega (arith, differ-eq-zero x y e)

differ_self : (x : ℕ) → differ x x ≡ 0
differ_self zero = refl
differ_self (suc x) = differ_self x

xor_digits-eq-zero : (n a b : ℕ) → a ≤ n → digits (λ b. b) differ n a b ≡ 0 → a ≡ b
xor_digits-eq-zero zero zero b h e = sym e
xor_digits-eq-zero zero (suc a) b h e = absurd (omega arith)
xor_digits-eq-zero (suc n) zero b h e = sym e
xor_digits-eq-zero (suc n) (suc a) b h e =
    let halves : suc a / 2 ≡ b / 2 =
      xor_digits-eq-zero n (suc a / 2) (b / 2) (omega arith) (omega arith) in
    let low : suc a % 2 ≡ b % 2 = differ-eq-zero (suc a % 2) (b % 2) (omega arith) in omega arith

xor_digits_self : (n a : ℕ) → a ≤ n → digits (λ b. b) differ n a a ≡ 0
xor_digits_self zero zero h = refl
xor_digits_self zero (suc a) h = absurd (omega arith)
xor_digits_self (suc n) zero h = refl
xor_digits_self (suc n) (suc a) h =
    omega (arith, xor_digits_self n (suc a / 2) (omega arith), differ_self (suc a % 2))

xor_self : (a : ℕ) → bit_xor a a ≡ 0
xor_self a = bit_xor-bitwise a a ∙ xor_digits_self a a (omega arith)

pub bit_xor-eq-zero_iff : (a b : ℕ) → (bit_xor a b ≡ 0) ↔ (a ≡ b)
bit_xor-eq-zero_iff a b = (
  λ e. xor_digits-eq-zero a a b (omega arith) (sym (bit_xor-bitwise a b) ∙ e),
  λ e. rw e (xor_self b),
)

pub bit_or-eq-zero : (a b : ℕ) → bit_or a b ≡ 0 → (a ≡ 0) × (b ≡ 0)
bit_or-eq-zero a b e = or_digits-eq-zero a a b (omega arith) (sym (bit_or-bitwise a b) ∙ e)

bit_or-zero : bit_or 0 0 ≡ 0
bit_or-zero = refl

-- `for (x, y) in a.iter().zip(b.iter()) { diff |= x ^ y; }`
unfoldable pub accumulate : ℕ → List ℕ → List ℕ → ℕ
accumulate diff (x ∷ a) (y ∷ b) = accumulate (bit_or diff (bit_xor x y)) a b
accumulate diff [] b = diff
accumulate diff (x ∷ a) [] = diff

unfoldable pub constant_time_eq : List ℕ → List ℕ → Bool
unfolding accumulate
constant_time_eq a b = if not (length a == length b) then false else accumulate 0 a b == 0

accumulate-eq-zero :
    (d : ℕ) (a b : List ℕ) → length a ≡ length b → accumulate d a b ≡ 0 → (d ≡ 0) × (a ≡ b)
unfolding accumulate
accumulate-eq-zero d [] [] n e = (e, refl)
accumulate-eq-zero d [] (y ∷ b) n e = absurd (omega arith)
accumulate-eq-zero d (x ∷ a) [] n e = absurd (omega arith)
accumulate-eq-zero d (x ∷ a) (y ∷ b) n e =
    let rest = accumulate-eq-zero (bit_or d (bit_xor x y)) a b (omega arith) e in
    let parts = bit_or-eq-zero d (bit_xor x y) rest.0 in
    (parts.0, cc ((bit_xor-eq-zero_iff x y).0 parts.1, rest.1))

accumulate_self : (a : List ℕ) → accumulate 0 a a ≡ 0
unfolding accumulate
accumulate_self [] = refl
accumulate_self (x ∷ a) = rw ((bit_xor-eq-zero_iff x x).1 refl, bit_or-zero) (accumulate_self a)

-- The constant-time comparison of two byte strings is true exactly when they are equal.
pub constant_time_eq_iff : (a b : List ℕ) → (constant_time_eq a b ≡ true) ↔ (a ≡ b)
unfolding constant_time_eq
constant_time_eq_iff a b = (
  λ h. (accumulate-eq-zero 0 a b (ground arith) (ground arith)).1,
  λ e. rw e (ground (arith, accumulate_self b)),
)
