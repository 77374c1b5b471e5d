-- ===== src/Buf/Laws.antt =====
-- What a reader gets back from what a writer appended, for any instance of the crate's interface.
use ruknet.Base.{ℕ, ◌^◌, ◌<◌, ◌≡◌, refl, List, ◌++◌, arith, length, length-append, ok}
use ruknet.Base.Bytes.{
  be, of_be, le_bytes, of_le, length-be, length-le_bytes, of_be-be, of_le-le_bytes,
  take-append_length, drop-append_length,
}
use ruknet.Buf.{Buf, IsBuf, read, list_buf}

pub list_buf-IsBuf : IsBuf list_buf
list_buf-IsBuf = record {
  get_u8 = λ s. refl;
  get_u16 = λ s. refl;
  get_u32 = λ s. refl;
  get_u64 = λ s. refl;
  get_f32 = λ s. refl;
  get_uint_le = λ n s. refl;
  length_remaining = λ s. refl;
  advance_drop = λ n s h. refl;
  split_take_drop = λ n s h. refl;
  append_u8 = λ v s. refl;
  append_u16 = λ v s. refl;
  append_u32 = λ v s. refl;
  append_u64 = λ v s. refl;
  append_f32 = λ v s. refl;
  append_uint_le = λ n v s. refl;
  append_slice = λ t s. refl;
  append_bytes = λ v n s. refl;
}

read-append :
    (n : ℕ) (f : List ℕ → ℕ) (xs rest : List ℕ)
    → length xs ≡ n
    → read n f (xs ++ rest) ≡ ok (f xs, rest)
read-append n f xs rest h =
    ground
      (arith, length-append xs rest, take-append_length n xs rest h, drop-append_length n xs rest h)

read-be : (n v : ℕ) (rest : List ℕ) → v < 256 ^ n → read n (of_be 0) (be n v ++ rest) ≡ ok (v, rest)
read-be n v rest h = rw (read-append n (of_be 0) (be n v) rest (length-be n v), of_be-be n v h)

read-le :
    (n v : ℕ) (rest : List ℕ) → v < 256 ^ n → read n of_le (le_bytes n v ++ rest) ≡ ok (v, rest)
read-le n v rest h =
    rw (read-append n of_le (le_bytes n v) rest (length-le_bytes n v), of_le-le_bytes n v h)

module _ (b : Buf) (laws : IsBuf b) where
  pub get_u8-be : (v : ℕ) (rest : List ℕ) → v < 2 ^ 8 → b.try_get_u8 (be 1 v ++ rest) ≡ ok (v, rest)
  get_u8-be v rest h = rw (laws.get_u8 (be 1 v ++ rest)) (read-be 1 v rest h)

  pub get_u16-be :
      (v : ℕ) (rest : List ℕ) → v < 2 ^ 16 → b.try_get_u16 (be 2 v ++ rest) ≡ ok (v, rest)
  get_u16-be v rest h = rw (laws.get_u16 (be 2 v ++ rest)) (read-be 2 v rest h)

  pub get_u32-be :
      (v : ℕ) (rest : List ℕ) → v < 2 ^ 32 → b.try_get_u32 (be 4 v ++ rest) ≡ ok (v, rest)
  get_u32-be v rest h = rw (laws.get_u32 (be 4 v ++ rest)) (read-be 4 v rest h)

  pub get_u64-be :
      (v : ℕ) (rest : List ℕ) → v < 2 ^ 64 → b.try_get_u64 (be 8 v ++ rest) ≡ ok (v, rest)
  get_u64-be v rest h = rw (laws.get_u64 (be 8 v ++ rest)) (read-be 8 v rest h)

  pub get_f32-be :
      (v : ℕ) (rest : List ℕ) → v < 2 ^ 32 → b.try_get_f32 (be 4 v ++ rest) ≡ ok (v, rest)
  get_f32-be v rest h = rw (laws.get_f32 (be 4 v ++ rest)) (read-be 4 v rest h)

  pub get_uint_le-le :
      (n v : ℕ) (rest : List ℕ)
      → v < 256 ^ n
      → b.try_get_uint_le n (le_bytes n v ++ rest) ≡ ok (v, rest)
  get_uint_le-le n v rest h = rw (laws.get_uint_le n (le_bytes n v ++ rest)) (read-le n v rest h)
