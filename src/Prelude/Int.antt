-- ===== src/Prelude/Int.antt =====
-- JavaScript BigInt: signed integers of any size. Each operation is by clauses on the signs, so that
-- it computes on `pos`; `quot` and `rem` truncate toward zero as `/` and `%` do.
use Prim.Native.Nat.{ℕ, zero, suc, ◌+◌, ◌-◌, ◌*◌, ◌/◌, ◌%◌, ◌≤◌, ◌<◌}
use mathlib.Core.Path.{◌≡◌, refl}
use mathlib.Core.Bool.{Bool, true, false}
use native.Mathlib.Omega.{arith}
use ts_hsync_arb.Prelude.Tests.{ltb, leb, ◌==◌, if◌then◌else◌}

-- `negsuc n` is -(n + 1).
pub data ℤ : Type 0 where
  pos : ℕ → ℤ
  negsuc : ℕ → ℤ

-- -n
abbrev pub neg_of : ℕ → ℤ
neg_of zero = pos 0
neg_of (suc n) = negsuc n

-- a - b
abbrev pub sub_ℕ : ℕ → ℕ → ℤ
sub_ℕ a b = if leb b a then pos (a - b) else negsuc (b - a - 1)

abbrev pub neg_ℤ : ℤ → ℤ
neg_ℤ (pos n) = neg_of n
neg_ℤ (negsuc n) = pos (suc n)

abbrev pub abs_ℤ : ℤ → ℕ
abs_ℤ (pos n) = n
abs_ℤ (negsuc n) = suc n

infixl 65 ◌+ℤ◌ ◌-ℤ◌
infixl 70 ◌*ℤ◌
abbrev pub ◌+ℤ◌ : ℤ → ℤ → ℤ
pos a +ℤ pos b = pos (a + b)
pos a +ℤ negsuc b = sub_ℕ a (suc b)
negsuc a +ℤ pos b = sub_ℕ b (suc a)
negsuc a +ℤ negsuc b = negsuc (a + b + 1)

abbrev pub ◌-ℤ◌ : ℤ → ℤ → ℤ
pos a -ℤ pos b = sub_ℕ a b
pos a -ℤ negsuc b = pos (a + suc b)
negsuc a -ℤ pos b = negsuc (a + b)
negsuc a -ℤ negsuc b = sub_ℕ (suc b) (suc a)

abbrev pub ◌*ℤ◌ : ℤ → ℤ → ℤ
pos a *ℤ pos b = pos (a * b)
pos a *ℤ negsuc b = neg_of (a * suc b)
negsuc a *ℤ pos b = neg_of (suc a * b)
negsuc a *ℤ negsuc b = pos (suc a * suc b)

-- `a / b` for a divisor that is not zero.
abbrev pub quot : ℤ → ℤ → ℤ
quot (pos a) (pos b) = pos (a / b)
quot (pos a) (negsuc b) = neg_of (a / suc b)
quot (negsuc a) (pos b) = neg_of (suc a / b)
quot (negsuc a) (negsuc b) = pos (suc a / suc b)

-- `a % b` for a divisor that is not zero: the sign is that of `a`.
abbrev pub rem : ℤ → ℤ → ℤ
rem (pos a) b = pos (a % abs_ℤ b)
rem (negsuc a) b = neg_of (suc a % abs_ℤ b)

abbrev pub ltb_ℤ : ℤ → ℤ → Bool
ltb_ℤ (pos a) (pos b) = ltb a b
ltb_ℤ (pos a) (negsuc b) = false
ltb_ℤ (negsuc a) (pos b) = true
ltb_ℤ (negsuc a) (negsuc b) = ltb b a

abbrev pub leb_ℤ : ℤ → ℤ → Bool
leb_ℤ (pos a) (pos b) = leb a b
leb_ℤ (pos a) (negsuc b) = false
leb_ℤ (negsuc a) (pos b) = true
leb_ℤ (negsuc a) (negsuc b) = leb b a

abbrev pub eqb_ℤ : ℤ → ℤ → Bool
eqb_ℤ (pos a) (pos b) = a == b
eqb_ℤ (pos a) (negsuc b) = false
eqb_ℤ (negsuc a) (pos b) = false
eqb_ℤ (negsuc a) (negsuc b) = a == b

-- Orders go through the two parts of an integer, which are numbers that `omega` reads.
abbrev pub pos_part : ℤ → ℕ
pos_part (pos n) = n
pos_part (negsuc n) = 0

abbrev pub neg_part : ℤ → ℕ
neg_part (pos n) = 0
neg_part (negsuc n) = suc n

infix 50 ◌≤ℤ◌ ◌<ℤ◌
abbrev pub ◌≤ℤ◌ : ℤ → ℤ → Type 0
a ≤ℤ b = pos_part a + neg_part b ≤ pos_part b + neg_part a

abbrev pub ◌<ℤ◌ : ℤ → ℤ → Type 0
a <ℤ b = pos_part a + neg_part b < pos_part b + neg_part a

pub +ℤ_parts :
    (a b : ℤ)
    → pos_part (a +ℤ b) + neg_part a + neg_part b ≡ neg_part (a +ℤ b) + pos_part a + pos_part b
+ℤ_parts a b = ground arith

pub -ℤ_parts :
    (a b : ℤ)
    → pos_part (a -ℤ b) + neg_part a + pos_part b ≡ neg_part (a -ℤ b) + pos_part a + neg_part b
-ℤ_parts a b = ground arith

pub eq_of_parts : (a b : ℤ) → pos_part a + neg_part b ≡ pos_part b + neg_part a → a ≡ b
eq_of_parts a b h = ground arith

pub ruleset int_laws = (arith, +ℤ_parts, -ℤ_parts, eq_of_parts)

pub +ℤ_cancel : (a b : ℤ) → a +ℤ b -ℤ b ≡ a
+ℤ_cancel a b = omega int_laws

pub -ℤ_cancel : (a b : ℤ) → a -ℤ b +ℤ b ≡ a
-ℤ_cancel a b = omega int_laws

pub le_of_leb : (a b : ℤ) → leb_ℤ a b ≡ true → a ≤ℤ b
le_of_leb a b h = ground arith

pub lt_of_leb : (a b : ℤ) → leb_ℤ a b ≡ false → b <ℤ a
lt_of_leb a b h = ground arith

pub leb_of_le : (a b : ℤ) → a ≤ℤ b → leb_ℤ a b ≡ true
leb_of_le a b h = ground arith

pub leb_of_lt : (a b : ℤ) → b <ℤ a → leb_ℤ a b ≡ false
leb_of_lt a b h = ground arith

pub ltb_of_le : (a b : ℤ) → b ≤ℤ a → ltb_ℤ a b ≡ false
ltb_of_le a b h = ground arith

pub eq_of_eqb : (a b : ℤ) → eqb_ℤ a b ≡ true → a ≡ b
eq_of_eqb a b h = ground arith

pub lt_of_ltb : (a b : ℤ) → ltb_ℤ a b ≡ true → a <ℤ b
lt_of_ltb a b h = ground arith

pub le_of_ltb : (a b : ℤ) → ltb_ℤ a b ≡ false → b ≤ℤ a
le_of_ltb a b h = ground arith

abbrev pub min_ℤ : ℤ → ℤ → ℤ
min_ℤ a b = if leb_ℤ a b then a else b

abbrev pub max_ℤ : ℤ → ℤ → ℤ
max_ℤ a b = if leb_ℤ a b then b else a

pub min_ℤ-le : (a b : ℤ) → min_ℤ a b ≤ℤ a
min_ℤ-le a b = ground arith

pub le-max_ℤ : (a b : ℤ) → a ≤ℤ max_ℤ a b
le-max_ℤ a b = ground arith

-- Math.floor(a / 2)
abbrev pub floor_half : ℤ → ℤ
floor_half (pos n) = pos (n / 2)
floor_half (negsuc n) = negsuc (n / 2)

pub floor_half_bounds :
    (a : ℤ) → (floor_half a +ℤ floor_half a ≤ℤ a) × (a ≤ℤ floor_half a +ℤ floor_half a +ℤ pos 1)
floor_half_bounds (pos n) = (omega arith, omega arith)
floor_half_bounds (negsuc n) = (omega arith, ground arith)

pub floor_half_between :
    (a b : ℤ) → a ≤ℤ b → (a ≤ℤ floor_half (a +ℤ b)) × (floor_half (a +ℤ b) ≤ℤ b)
floor_half_between a b h =
    let (low, high) = floor_half_bounds (a +ℤ b) in (omega int_laws, omega int_laws)

-- Signs of quotient and remainder, as in JavaScript.
truncates : (quot (negsuc 6) (pos 2) ≡ negsuc 2) × (rem (negsuc 6) (pos 2) ≡ negsuc 0)
truncates = (refl, refl)

-- A difference of numbers in order.
pub sub_ℕ_le : (a b : ℕ) → b ≤ a → sub_ℕ a b ≡ pos (a - b)
sub_ℕ_le a b h = ground arith
