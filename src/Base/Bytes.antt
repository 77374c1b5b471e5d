-- ===== src/Base/Bytes.antt =====
-- Numbers on the wire: their bytes in network order and lowest byte first.
use ruknet.Base.{
  ℕ, zero, suc, ◌+◌, ◌*◌, ◌/◌, ◌%◌, ◌^◌, ◌<◌, ◌≡◌, refl, ap, List, [], ◌∷◌, ◌++◌, arith, length,
  length-append, take, drop,
}
use native.Mathlib.Nat.{pow-suc}

-- The `n` bytes of a number, highest first.
abbrev pub be : ℕ → ℕ → List ℕ
be zero v = []
be (suc n) v = be n (v / 256) ++ (v % 256 ∷ [])

abbrev pub of_be : ℕ → List ℕ → ℕ
of_be acc [] = acc
of_be acc (x ∷ xs) = of_be (acc * 256 + x) xs

-- The `n` bytes of a number, lowest first.
abbrev pub le_bytes : ℕ → ℕ → List ℕ
le_bytes zero v = []
le_bytes (suc n) v = v % 256 ∷ le_bytes n (v / 256)

abbrev pub of_le : List ℕ → ℕ
of_le [] = 0
of_le (x ∷ xs) = x + of_le xs * 256

pub length-be : (n v : ℕ) → length (be n v) ≡ n
length-be zero v = refl
length-be (suc n) v =
    omega (arith, length-append (be n (v / 256)) (v % 256 ∷ []), length-be n (v / 256))

pub length-le_bytes : (n v : ℕ) → length (le_bytes n v) ≡ n
length-le_bytes zero v = refl
length-le_bytes (suc n) v = ap suc (length-le_bytes n (v / 256))

of_be-append : (acc : ℕ) (xs : List ℕ) (x : ℕ) → of_be acc (xs ++ x ∷ []) ≡ of_be acc xs * 256 + x
of_be-append acc [] x = refl
of_be-append acc (y ∷ xs) x = of_be-append (acc * 256 + y) xs x

div_lt_pow : (n v : ℕ) → v < 256 ^ suc n → v / 256 < 256 ^ n
div_lt_pow n v h = omega (arith, pow-suc 256 n)

pub of_be-be : (n v : ℕ) → v < 256 ^ n → of_be 0 (be n v) ≡ v
of_be-be zero v h = omega arith
of_be-be (suc n) v h =
    omega
      (arith, of_be-append 0 (be n (v / 256)) (v % 256), of_be-be n (v / 256) (div_lt_pow n v h))

pub of_le-le_bytes : (n v : ℕ) → v < 256 ^ n → of_le (le_bytes n v) ≡ v
of_le-le_bytes zero v h = omega arith
of_le-le_bytes (suc n) v h = omega (arith, of_le-le_bytes n (v / 256) (div_lt_pow n v h))

module _ {ℓ} {A : Type ℓ} where
  pub take-append_length : (n : ℕ) (xs ys : List A) → length xs ≡ n → take n (xs ++ ys) ≡ xs
  take-append_length zero [] ys h = refl
  take-append_length zero (x ∷ xs) ys h = absurd (omega arith)
  take-append_length (suc n) [] ys h = absurd (omega arith)
  take-append_length (suc n) (x ∷ xs) ys h = ap (◌∷◌ x) (take-append_length n xs ys (omega arith))

  pub drop-append_length : (n : ℕ) (xs ys : List A) → length xs ≡ n → drop n (xs ++ ys) ≡ ys
  drop-append_length zero [] ys h = refl
  drop-append_length zero (x ∷ xs) ys h = absurd (omega arith)
  drop-append_length (suc n) [] ys h = absurd (omega arith)
  drop-append_length (suc n) (x ∷ xs) ys h = drop-append_length n xs ys (omega arith)
