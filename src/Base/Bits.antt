-- ===== src/Base/Bits.antt =====
-- Laws of the native bit operations at variables: one digit at a time, masks and disjoint sums.
use Prim.Native.Nat.{
  ℕ, zero, suc, ◌+◌, ◌-◌, ◌*◌, ◌/◌, ◌%◌, ◌^◌, ◌≤◌, ◌<◌, min, max, bit_and, bit_or, digits, bitwise,
  bit_and-bitwise, bit_or-bitwise,
}
use mathlib.Core.Path.{◌≡◌, refl, ◌∙◌, ap, ap₂, sym}
use mathlib.Core.Logic.{◌⊎◌, inl, inr}
use native.Mathlib.Nat.{
  mul-add-mod_self_left, mod-eq_of_lt, div-add-mod, mul_assoc, mod-lt, pow-suc,
}
use native.Mathlib.Decide.{ℕ_discrete}
use native.Mathlib.Omega.{arith}

-- An operation on binary digits, and what it leaves of the second number when the first has run out.
module _ (rest : ℕ → ℕ) (op : ℕ → ℕ → ℕ) where
  any_fuel : (m n x y : ℕ) → x ≤ m → x ≤ n → digits rest op m x y ≡ bitwise rest op x y
  any_fuel zero n (suc x) y p q = elim p [ ]
  any_fuel zero n zero y p q = refl
  any_fuel (suc m) n zero y p q = refl
  any_fuel (suc m) zero (suc x) y p q = elim q [ ]
  any_fuel (suc m) (suc n) (suc x) y p q =
      let half = (suc x) / 2 in
      let long = any_fuel m n half (y / 2) (omega arith) (omega arith) in
      let short = any_fuel x n half (y / 2) (omega arith) (omega arith) in
      ap (λ t. t * 2 + op (suc x % 2) (y % 2)) (long ∙ sym short)

  -- The lowest digit by the operation, the others by the halves.
  halves :
      ((y : ℕ) → rest y ≡ rest (y / 2) * 2 + op 0 (y % 2))
      → (x y : ℕ) → bitwise rest op x y ≡ bitwise rest op (x / 2) (y / 2) * 2 + op (x % 2) (y % 2)
  halves law zero y = law y
  halves law (suc x) y =
      ap (λ t. t * 2 + op (suc x % 2) (y % 2))
        (any_fuel x x (suc x / 2) (y / 2) (omega arith) (omega arith))

pub bit_and-halves : (x y : ℕ) → bit_and x y ≡ bit_and (x / 2) (y / 2) * 2 + min (x % 2) (y % 2)
bit_and-halves x y =
    bit_and-bitwise x y
    ∙ halves (λ b. zero) min (λ b. omega arith) x y
    ∙ ap (λ t. t * 2 + min (x % 2) (y % 2)) (sym (bit_and-bitwise (x / 2) (y / 2)))

pub bit_or-halves : (x y : ℕ) → bit_or x y ≡ bit_or (x / 2) (y / 2) * 2 + max (x % 2) (y % 2)
bit_or-halves x y =
    bit_or-bitwise x y
    ∙ halves (λ b. b) max (λ b. omega arith) x y
    ∙ ap (λ t. t * 2 + max (x % 2) (y % 2)) (sym (bit_or-bitwise (x / 2) (y / 2)))

-- A law `f x ≡ k x` of a function that is known through the halves of its argument.
by_halves :
    (f k : ℕ → ℕ)
    → f 0 ≡ k 0
    → ((x : ℕ) → f (x / 2) ≡ k (x / 2) → f x ≡ k x)
    → (bound x : ℕ) → x ≤ bound
    → f x ≡ k x
by_halves f k base step zero x le = let e : x ≡ 0 = omega arith in rw e base
by_halves f k base step (suc bound) x le = elim (ℕ_discrete x 0) [
  | yes e ↦ rw e base
  | no ne ↦ step x (by_halves f k base step bound (x / 2) (omega arith))
]

pub bit_and-zero : (x : ℕ) → bit_and x 0 ≡ 0
bit_and-zero x =
    by_halves (λ t. bit_and t 0) (λ t. 0) refl (λ t ih. omega (arith, bit_and-halves t 0, ih)) x x
      (omega arith)

pub bit_and_self : (x : ℕ) → bit_and x x ≡ x
bit_and_self x =
    by_halves (λ t. bit_and t t) (λ t. t) refl (λ t ih. omega (arith, bit_and-halves t t, ih)) x x
      (omega arith)

pub bit_or-zero : (x : ℕ) → bit_or x 0 ≡ x
bit_or-zero x =
    by_halves (λ t. bit_or t 0) (λ t. t) refl (λ t ih. omega (arith, bit_or-halves t 0, ih)) x x
      (omega arith)

bit_or_double : (x p b : ℕ) → x ≡ 2 * p → bit_or p (b / 2) ≡ p + b / 2 → bit_or x b ≡ x + b
bit_or_double x p b e ih =
    let half : bit_or (x / 2) (b / 2) ≡ bit_or p (b / 2) =
      ap (λ t. bit_or t (b / 2)) (omega arith) in
    omega (arith, bit_or-halves x b, half, ih)

-- With k low zeros in the first operand, `|` of a number below 2 ^ k is the sum.
pub bit_or_disjoint : (k a b : ℕ) → b < 2 ^ k → bit_or (a * 2 ^ k) b ≡ a * 2 ^ k + b
bit_or_disjoint zero a b h =
    let none_left : b ≡ 0 = omega arith in rw none_left (omega (arith, bit_or-zero (a * 2 ^ 0)))
bit_or_disjoint (suc k) a b h =
    bit_or_double (a * 2 ^ suc k) (a * 2 ^ k) b (omega (arith, ap (λ t. a * t) (pow-suc 2 k)))
      (bit_or_disjoint k a (b / 2) (omega (arith, pow-suc 2 k)))

half-mod : (a d : ℕ) → 0 < d → (a / 2) % d * 2 + a % 2 ≡ a % (2 * d)
half-mod a d h =
    let split : a ≡ 2 * d * (a / 2 / d) + ((a / 2) % d * 2 + a % 2) =
      omega (arith, ap (λ t. t * 2) (div-add-mod (a / 2) d), mul_assoc 2 d (a / 2 / d)) in
    let low : (a / 2) % d * 2 + a % 2 < 2 * d = omega (arith, mod-lt (a / 2) h) in
    sym (
      ap (λ t. t % (2 * d)) split
      ∙ mul-add-mod_self_left (2 * d) (a / 2 / d) ((a / 2) % d * 2 + a % 2)
      ∙ mod-eq_of_lt low)

-- The steps of `bit_and c (c - 1)`: an odd `c` is 1, and half of an even one has the property too.
mask_odd : (c d : ℕ) → c ≡ 2 * d + 1 → bit_and c (c - 1) ≡ 0 → c ≡ 1
mask_odd c d e h =
    let halved : bit_and (c / 2) ((c - 1) / 2) ≡ bit_and d d =
      ap₂ bit_and (omega arith) (omega arith) in
    omega (arith, bit_and-halves c (c - 1), halved, bit_and_self d)

mask_even :
    (a c d : ℕ)
    → c ≡ 2 * d
    → 0 < d
    → bit_and a (c - 1) ≡ bit_and (a / 2) (d - 1) * 2 + min (a % 2) 1
mask_even a c d e h =
    let halved : bit_and (a / 2) ((c - 1) / 2) ≡ bit_and (a / 2) (d - 1) =
      ap (bit_and (a / 2)) (omega arith) in
    let odd : (c - 1) % 2 ≡ 1 = omega arith in
    bit_and-halves a (c - 1) ∙ ap₂ (λ s t. s * 2 + min (a % 2) t) halved odd

mask_half : (c d : ℕ) → c ≡ 2 * d → 0 < d → bit_and c (c - 1) ≡ 0 → bit_and d (d - 1) ≡ 0
mask_half c d e pos h =
    let half : bit_and (c / 2) (d - 1) ≡ bit_and d (d - 1) =
      ap (λ t. bit_and t (d - 1)) (omega arith) in
    omega (arith, mask_even c c d e pos, half)

parity : (c : ℕ) → (c ≡ 2 * (c / 2)) ⊎ (c ≡ 2 * (c / 2) + 1)
parity c = elim (ℕ_discrete (c % 2) 0) [ yes e ↦ inl (omega arith) | no ne ↦ inr (omega arith) ]

-- A number that shares no digit with its predecessor is a power of two: it divides the larger ones,
-- and its predecessor is the mask of the remainders.
pub power_of_two : (n c : ℕ) → 0 < c → c < 2 ^ n → bit_and c (c - 1) ≡ 0 → (m : ℕ) × (c * m ≡ 2 ^ n)
power_of_two zero c pos lt h = absurd (omega arith)
power_of_two (suc n) c pos lt h = elim (parity c) [
  | inr odd ↦ (2 ^ suc n, omega (arith, ap (λ t. t * 2 ^ suc n) (mask_odd c (c / 2) odd h)))
  | inl even ↦
      let (m, e) =
        power_of_two n (c / 2) (omega arith) (omega (arith, pow-suc 2 n))
          (mask_half c (c / 2) even (omega arith) h) in
      (m, omega (arith, ap (λ t. t * m) even, pow-suc 2 n, mul_assoc 2 (c / 2) m, e))
]

pub bit_and_mask :
    (n c : ℕ) → 0 < c → c < 2 ^ n → bit_and c (c - 1) ≡ 0 → (a : ℕ) → bit_and a (c - 1) ≡ a % c
bit_and_mask zero c pos lt h a = absurd (omega arith)
bit_and_mask (suc n) c pos lt h a = elim (parity c) [
  | inr odd ↦ let one : c ≡ 1 = mask_odd c (c / 2) odd h in rw one (omega (arith, bit_and-zero a))
  | inl even ↦
      let ih : bit_and (a / 2) (c / 2 - 1) ≡ (a / 2) % (c / 2) =
        bit_and_mask n (c / 2) (omega arith) (omega (arith, pow-suc 2 n))
          (mask_half c (c / 2) even (omega arith) h) (a / 2) in
      mask_even a c (c / 2) even (omega arith)
      ∙ omega (arith, ih)
      ∙ half-mod a (c / 2) (omega arith)
      ∙ ap (λ t. a % t) (sym even)
]

-- `|` of two multiples of 2 ^ k is the multiple of the `|`.
bit_or_double_both : (x y p q : ℕ) → x ≡ 2 * p → y ≡ 2 * q → bit_or x y ≡ 2 * bit_or p q
bit_or_double_both x y p q e f =
    let halved : bit_or (x / 2) (y / 2) ≡ bit_or p q = ap₂ bit_or (omega arith) (omega arith) in
    omega (arith, bit_or-halves x y, halved)

pub bit_or-mul : (k a b : ℕ) → bit_or (a * 2 ^ k) (b * 2 ^ k) ≡ bit_or a b * 2 ^ k
bit_or-mul zero a b =
    let left : a * 2 ^ 0 ≡ a = omega arith in
    let right : b * 2 ^ 0 ≡ b = omega arith in rw (left, right) (omega arith)
bit_or-mul (suc k) a b =
    bit_or_double_both (a * 2 ^ suc k) (b * 2 ^ suc k) (a * 2 ^ k) (b * 2 ^ k)
      (omega (arith, ap (λ t. a * t) (pow-suc 2 k))) (omega (arith, ap (λ t. b * t) (pow-suc 2 k)))
    ∙ omega (arith, bit_or-mul k a b, ap (λ t. bit_or a b * t) (pow-suc 2 k))

-- The two laws at numbers that are equal to such multiples.
pub bit_or_sum : (k a x b : ℕ) → x ≡ a * 2 ^ k → b < 2 ^ k → bit_or x b ≡ x + b
bit_or_sum k a x b e h = rw e (bit_or_disjoint k a b h)

pub bit_or_scaled :
    (k a b x y : ℕ) → x ≡ a * 2 ^ k → y ≡ b * 2 ^ k → bit_or x y ≡ bit_or a b * 2 ^ k
bit_or_scaled k a b x y e f = rw (e, f) (bit_or-mul k a b)
