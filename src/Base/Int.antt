-- ===== src/Base/Int.antt =====
-- Integers: `negsuc n` is -(n + 1). Votes have integer values, and a topic's display_order is one
-- while the topics of a team are renumbered.
use Prim.Native.Nat.{ℕ, zero, suc}
use mathlib.Core.Path.{◌≡◌, refl}
use mathlib.Core.Bool.{Bool, true, false}
use native.Mathlib.Omega.{arith}
use project_dipstick.Base.Tests.{ltb, ◌==◌, if◌then◌else◌}

pub data ℤ : Type 0 where
  pos : ℕ → ℤ
  negsuc : ℕ → ℤ

unfoldable pub lt_int : ℤ → ℤ → Bool
lt_int (pos a) (pos b) = ltb a b
lt_int (pos a) (negsuc b) = false
lt_int (negsuc a) (pos b) = true
lt_int (negsuc a) (negsuc b) = ltb b a

unfoldable pub eq_int : ℤ → ℤ → Bool
eq_int (pos a) (pos b) = a == b
eq_int (pos a) (negsuc b) = false
eq_int (negsuc a) (pos b) = false
eq_int (negsuc a) (negsuc b) = a == b

unfoldable pub is_negative : ℤ → Bool
is_negative (pos a) = false
is_negative (negsuc a) = true

unfoldable pub negate : ℤ → ℤ
negate (pos zero) = pos 0
negate (pos (suc a)) = negsuc a
negate (negsuc a) = pos (suc a)

unfoldable pub add_one : ℤ → ℤ
add_one (pos a) = pos (suc a)
add_one (negsuc zero) = pos 0
add_one (negsuc (suc a)) = negsuc a

unfoldable pub max_int : ℤ → ℤ → ℤ
unfolding lt_int
max_int a b = if lt_int a b then b else a

pub eq_int_refl : (a : ℤ) → eq_int a a ≡ true
unfolding eq_int
eq_int_refl (pos a) = ground arith
eq_int_refl (negsuc a) = ground arith

pub eq_int_sym : (a b : ℤ) → eq_int a b ≡ eq_int b a
unfolding eq_int
eq_int_sym (pos a) (pos b) = ground arith
eq_int_sym (pos a) (negsuc b) = refl
eq_int_sym (negsuc a) (pos b) = refl
eq_int_sym (negsuc a) (negsuc b) = ground arith

pub eq_int_sound : (a b : ℤ) → eq_int a b ≡ true → a ≡ b
unfolding eq_int
eq_int_sound (pos a) (pos b) e = ground arith
eq_int_sound (pos a) (negsuc b) e = ground arith
eq_int_sound (negsuc a) (pos b) e = ground arith
eq_int_sound (negsuc a) (negsuc b) e = ground arith

-- Numbers apart by order are not equal.
pub eq_int-lt_int : (a b : ℤ) → lt_int a b ≡ true → eq_int b a ≡ false
unfolding eq_int lt_int
eq_int-lt_int (pos a) (pos b) e = ground arith
eq_int-lt_int (pos a) (negsuc b) e = ground arith
eq_int-lt_int (negsuc a) (pos b) e = refl
eq_int-lt_int (negsuc a) (negsuc b) e = ground arith

pub lt_int-add_one : (a b : ℤ) → lt_int b a ≡ false → lt_int a (add_one b) ≡ true
unfolding lt_int add_one
lt_int-add_one (pos a) (pos b) e = ground arith
lt_int-add_one (pos a) (negsuc zero) e = ground arith
lt_int-add_one (pos a) (negsuc (suc b)) e = ground arith
lt_int-add_one (negsuc a) (pos b) e = refl
lt_int-add_one (negsuc a) (negsuc zero) e = ground arith
lt_int-add_one (negsuc a) (negsuc (suc b)) e = ground arith

pub lt_int_trans : (a b c : ℤ) → lt_int b a ≡ false → lt_int c b ≡ false → lt_int c a ≡ false
unfolding lt_int
lt_int_trans (pos a) (pos b) (pos c) h k = ground arith
lt_int_trans (pos a) (pos b) (negsuc c) h k = ground arith
lt_int_trans (pos a) (negsuc b) (pos c) h k = ground arith
lt_int_trans (pos a) (negsuc b) (negsuc c) h k = ground arith
lt_int_trans (negsuc a) (pos b) (pos c) h k = refl
lt_int_trans (negsuc a) (pos b) (negsuc c) h k = ground arith
lt_int_trans (negsuc a) (negsuc b) (pos c) h k = refl
lt_int_trans (negsuc a) (negsuc b) (negsuc c) h k = ground arith

pub lt_int_irrefl : (a : ℤ) → lt_int a a ≡ false
unfolding lt_int
lt_int_irrefl (pos a) = ground arith
lt_int_irrefl (negsuc a) = ground arith

pub lt_int_asym : (a b : ℤ) → lt_int a b ≡ true → lt_int b a ≡ false
unfolding lt_int
lt_int_asym (pos a) (pos b) h = ground arith
lt_int_asym (pos a) (negsuc b) h = ground arith
lt_int_asym (negsuc a) (pos b) h = refl
lt_int_asym (negsuc a) (negsuc b) h = ground arith

pub negate-negate : (a : ℤ) → negate (negate a) ≡ a
unfolding negate
negate-negate (pos zero) = refl
negate-negate (pos (suc a)) = refl
negate-negate (negsuc a) = refl

pub lt_int_total : (a b : ℤ) → lt_int b a ≡ false → eq_int a b ≡ false → lt_int a b ≡ true
unfolding lt_int eq_int
lt_int_total (pos a) (pos b) h e = ground arith
lt_int_total (pos a) (negsuc b) h e = ground arith
lt_int_total (negsuc a) (pos b) h e = refl
lt_int_total (negsuc a) (negsuc b) h e = ground arith

pub lt_int_chain : (a b c : ℤ) → lt_int a b ≡ true → lt_int b c ≡ true → lt_int a c ≡ true
unfolding lt_int
lt_int_chain (pos a) (pos b) (pos c) h k = ground arith
lt_int_chain (pos a) (pos b) (negsuc c) h k = ground arith
lt_int_chain (pos a) (negsuc b) (pos c) h k = ground arith
lt_int_chain (pos a) (negsuc b) (negsuc c) h k = ground arith
lt_int_chain (negsuc a) (pos b) (pos c) h k = refl
lt_int_chain (negsuc a) (pos b) (negsuc c) h k = ground arith
lt_int_chain (negsuc a) (negsuc b) (pos c) h k = refl
lt_int_chain (negsuc a) (negsuc b) (negsuc c) h k = ground arith

-- A negative number equals none that is not.
pub eq_int-is_negative :
    (a b : ℤ) → is_negative a ≡ true → is_negative b ≡ false → eq_int a b ≡ false
unfolding is_negative eq_int
eq_int-is_negative (pos a) b h k = absurd (ground arith)
eq_int-is_negative (negsuc a) (pos b) h k = refl
eq_int-is_negative (negsuc a) (negsuc b) h k = absurd (ground arith)
