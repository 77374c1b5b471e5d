-- ===== src/Base/Bits.antt =====
-- The masks of the program: `x & (2^k - 1)` is `x % 2^k`, by which the windows find a slot.
use Prim.Native.Nat.{
  ℕ, zero, suc, ◌+◌, ◌-◌, ◌*◌, ◌/◌, ◌%◌, ◌^◌, ◌≤◌, ◌<◌, min, bit_and, digits, bit_and-bitwise,
}
use mathlib.Core.Path.{◌≡◌, sym, ◌∙◌, ap}
use native.Mathlib.Nat.{
  two-pow-succ, div-add-mod, mod-lt, mod-eq_of_lt, add-mul-mod_self_right, pow-le-pow_right,
  mul-le-mul_left, mul-suc,
}
use native.Mathlib.Decide.{dec_lt}
use native.Mathlib.Omega.{arith}

-- `2^k - 1`, one binary digit at a time.
ones : ℕ → ℕ
ones zero = 0
ones (suc k) = ones k + ones k + 1

pub two-pow-pos : (k : ℕ) → 0 < 2 ^ k
two-pow-pos k = pow-le-pow_right {n = 2} (omega arith) {i = 0} {j = k} (omega arith)

-- The remainder by a doubled modulus, by its lowest digit and the others.
mod_double : (a p : ℕ) → 0 < p → a / 2 % p * 2 + a % 2 ≡ a % (p + p)
mod_double a p pos = sym (
    ap (λ (t : ℕ). t % (p + p)) whole
    ∙ add-mul-mod_self_right (a / 2 % p * 2 + a % 2) (a / 2 / p) (p + p)
    ∙ mod-eq_of_lt (omega (arith, mod-lt (a / 2) pos)))
  where
    whole : a ≡ a / 2 % p * 2 + a % 2 + a / 2 / p * (p + p)
    whole = omega (arith, div-add-mod (a / 2) p)

digits-ones : (k n a : ℕ) → a ≤ n → digits (λ b. zero) min n a (ones k) ≡ a % 2 ^ k
unfolding ones
digits-ones k zero zero h = omega (arith, mod-eq_of_lt (two-pow-pos k))
digits-ones k zero (suc a) h = absurd (omega arith)
digits-ones k (suc n) zero h = omega (arith, mod-eq_of_lt (two-pow-pos k))
digits-ones zero (suc n) (suc a) h = omega (arith, digits-ones zero n (suc a / 2) (omega arith))
digits-ones (suc k) (suc n) (suc a) h = omega (
  arith,
  digits-ones k n (suc a / 2) (omega arith),
  mod_double (suc a) (2 ^ k) (two-pow-pos k),
  two-pow-succ k,
  ap (λ (t : ℕ). digits (λ b. zero) min n (suc a / 2) t) half,
  ap (λ (t : ℕ). suc a % t) (two-pow-succ k),
)
  where
    half : ones (suc k) / 2 ≡ ones k
    half = omega arith

ones-pow : (k : ℕ) → ones k ≡ 2 ^ k - 1
unfolding ones
ones-pow zero = omega arith
ones-pow (suc k) = omega (arith, ones-pow k, two-pow-succ k, two-pow-pos k)

-- For a size that is a power of two the mask `size - 1` gives the remainder by the size.
pub bit_and_mask : (k a : ℕ) → bit_and a (2 ^ k - 1) ≡ a % 2 ^ k
bit_and_mask k a =
    ap (bit_and a) (sym (ones-pow k)) ∙ bit_and-bitwise a (ones k) ∙ digits-ones k a a (omega arith)

-- Two indices of one window that share a slot are the same.
pub mod_injective : (n a b : ℕ) → 0 < n → a ≤ b → b < a + n → a % n ≡ b % n → a ≡ b
mod_injective n a b pos le lt e = elim (dec_lt (a / n) (b / n)) [
  | yes h ↦
      absurd
        (omega (arith, div-add-mod a n, div-add-mod b n, mul-le-mul_left n h, mul-suc n (a / n)))
  | no h ↦ elim (dec_lt (b / n) (a / n)) [
    | yes g ↦ absurd (
        omega (
          arith,
          div-add-mod a n,
          div-add-mod b n,
          mul-le-mul_left n g,
          mul-suc n (b / n),
          mod-lt b pos,
        ))
    | no g ↦
        let same : a / n ≡ b / n = omega arith in
        omega (arith, div-add-mod a n, div-add-mod b n, ap (λ (t : ℕ). n * t) same)
  ]
]
