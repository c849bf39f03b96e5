-- ===== src/Prelude/Int.antt =====
-- Signed whole numbers over the native numbers. A number is read as its upper part less its lower
-- part, which `omega` can compare.
use Prim.Native.Nat.{ℕ, suc, ◌+◌, ◌-◌, ◌≤◌}
use mathlib.Core.Path.{◌≡◌}
use mathlib.Core.Bool.{Bool}
use native.Mathlib.Omega.{arith}
use quinn_ai.Prelude.Tests.{ltb, leb, if◌then◌else◌}

-- `negsuc n` is below zero by n + 1.
pub data ℤ : Type 0 where
  pos negsuc : ℕ → ℤ

abbrev pub upper : ℤ → ℕ
upper (pos n) = n
upper (negsuc _) = 0

abbrev pub lower : ℤ → ℕ
lower (pos _) = 0
lower (negsuc n) = suc n

-- the number whose parts differ as these two do
unfoldable pub of_parts : ℕ → ℕ → ℤ
of_parts up low = if ltb up low then negsuc (low - up - 1) else pos (up - low)

infixl 65 ◌+ℤ◌ ◌-ℤ◌
infix 50 ◌≤ℤ◌
unfoldable pub ◌+ℤ◌ : ℤ → ℤ → ℤ
unfolding of_parts
x +ℤ y = of_parts (upper x + upper y) (lower x + lower y)

unfoldable pub ◌-ℤ◌ : ℤ → ℤ → ℤ
unfolding of_parts
x -ℤ y = of_parts (upper x + lower y) (lower x + upper y)

-- `-x` and `abs(x)`
abbrev pub negate : ℤ → ℤ
negate x = pos 0 -ℤ x

abbrev pub abs : ℤ → ℤ
abs x = pos (upper x + lower x)

abbrev pub ◌≤ℤ◌ : ℤ → ℤ → Type 0
x ≤ℤ y = upper x + lower y ≤ upper y + lower x

abbrev pub leb_ℤ : ℤ → ℤ → Bool
leb_ℤ x y = leb (upper x + lower y) (upper y + lower x)

abbrev pub ltb_ℤ : ℤ → ℤ → Bool
ltb_ℤ x y = ltb (upper x + lower y) (upper y + lower x)

pub +ℤ_parts :
    (x y : ℤ) → upper (x +ℤ y) + (lower x + lower y) ≡ lower (x +ℤ y) + (upper x + upper y)
unfolding ◌+ℤ◌ of_parts
+ℤ_parts x y = ground arith

pub -ℤ_parts :
    (x y : ℤ) → upper (x -ℤ y) + (lower x + upper y) ≡ lower (x -ℤ y) + (upper x + lower y)
unfolding ◌-ℤ◌ of_parts
-ℤ_parts x y = ground arith

pub ℤ_ext : (x y : ℤ) → upper x + lower y ≡ upper y + lower x → x ≡ y
ℤ_ext x y h = ground arith

pub ruleset int_laws = (arith, +ℤ_parts, -ℤ_parts, ℤ_ext)

pub +ℤ_swap : (x y z : ℤ) → x +ℤ y +ℤ z ≡ x +ℤ z +ℤ y
+ℤ_swap x y z = omega int_laws

pub +ℤ_shift : (x y z : ℤ) → x +ℤ (y +ℤ z) ≡ x +ℤ y +ℤ z
+ℤ_shift x y z = omega int_laws

-- Four columns that change one by one change what they leave.
pub ℤ_columns :
    (a s r d v a' s' r' d' : ℤ)
    → v ≡ a -ℤ s -ℤ r -ℤ d
    → a +ℤ a' -ℤ (s +ℤ s') -ℤ (r +ℤ r') -ℤ (d +ℤ d') ≡ v +ℤ (a' -ℤ s' -ℤ r' -ℤ d')
ℤ_columns a s r d v a' s' r' d' h = rw h (omega int_laws)
