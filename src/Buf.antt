-- ===== src/Buf.antt =====
-- The third-party `bytes` crate, as the program uses it: a byte string is the list of what remains
-- of it. The operations are a parameter of the model (`Buf`), and what their documentation says is
-- a hypothesis (`IsBuf`). An IEEE float on the wire is its bit pattern.
pub mod Laws
use ruknet.Base.{
  ℕ, ◌+◌, ◌-◌, ◌*◌, ◌≤◌, ◌≡◌, Bool, List, ◌++◌, ltb, if◌then◌else◌, length, take, drop, replicate,
  Result, ok, err,
}
use ruknet.Base.Bytes.{be, of_be, le_bytes, of_le}
use ruknet.Error.{TryGetError}

-- A read takes from the front and leaves the rest; one that finds too little is an error.
abbrev pub Reader : Type 0
Reader = List ℕ → Result TryGetError (ℕ × List ℕ)

-- `Buf` and `BufMut` of the crate. A write appends to what has been written.
pub record Buf : Type 0 where
  pub try_get_u8 : Reader
  pub try_get_u16 : Reader
  pub try_get_u32 : Reader
  pub try_get_u64 : Reader
  pub try_get_f32 : Reader
  pub try_get_uint_le : ℕ → Reader
  pub remaining : List ℕ → ℕ
  pub advance : ℕ → List ℕ → List ℕ
  pub split_to : ℕ → List ℕ → List ℕ × List ℕ
  pub put_u8 : ℕ → List ℕ → List ℕ
  pub put_u16 : ℕ → List ℕ → List ℕ
  pub put_u32 : ℕ → List ℕ → List ℕ
  pub put_u64 : ℕ → List ℕ → List ℕ
  pub put_f32 : ℕ → List ℕ → List ℕ
  pub put_uint_le : ℕ → ℕ → List ℕ → List ℕ
  pub put_slice : List ℕ → List ℕ → List ℕ
  pub put_bytes : ℕ → ℕ → List ℕ → List ℕ

-- A number of `n` bytes by a decoding of those bytes.
abbrev pub read : ℕ → (List ℕ → ℕ) → Reader
read n decode s =
    if ltb (length s) n
    then err (record { requested = n; available = length s })
    else ok (decode (take n s), drop n s)

-- The documented behaviour. The panics of `advance` and `split_to` past the end are left open.
pub record IsBuf (b : Buf) : Type 0 where
  pub get_u8 : (s : List ℕ) → b.try_get_u8 s ≡ read 1 (of_be 0) s
  pub get_u16 : (s : List ℕ) → b.try_get_u16 s ≡ read 2 (of_be 0) s
  pub get_u32 : (s : List ℕ) → b.try_get_u32 s ≡ read 4 (of_be 0) s
  pub get_u64 : (s : List ℕ) → b.try_get_u64 s ≡ read 8 (of_be 0) s
  pub get_f32 : (s : List ℕ) → b.try_get_f32 s ≡ read 4 (of_be 0) s
  pub get_uint_le : (n : ℕ) (s : List ℕ) → b.try_get_uint_le n s ≡ read n of_le s
  pub length_remaining : (s : List ℕ) → b.remaining s ≡ length s
  pub advance_drop : (n : ℕ) (s : List ℕ) → n ≤ length s → b.advance n s ≡ drop n s
  pub split_take_drop : (n : ℕ) (s : List ℕ) → n ≤ length s → b.split_to n s ≡ (take n s, drop n s)
  pub append_u8 : (v : ℕ) (s : List ℕ) → b.put_u8 v s ≡ s ++ be 1 v
  pub append_u16 : (v : ℕ) (s : List ℕ) → b.put_u16 v s ≡ s ++ be 2 v
  pub append_u32 : (v : ℕ) (s : List ℕ) → b.put_u32 v s ≡ s ++ be 4 v
  pub append_u64 : (v : ℕ) (s : List ℕ) → b.put_u64 v s ≡ s ++ be 8 v
  pub append_f32 : (v : ℕ) (s : List ℕ) → b.put_f32 v s ≡ s ++ be 4 v
  pub append_uint_le : (n v : ℕ) (s : List ℕ) → b.put_uint_le n v s ≡ s ++ le_bytes n v
  pub append_slice : (t s : List ℕ) → b.put_slice t s ≡ s ++ t
  pub append_bytes : (v n : ℕ) (s : List ℕ) → b.put_bytes v n s ≡ s ++ replicate n v

-- A concrete instance, for runs.
abbrev pub list_buf : Buf
list_buf = record {
  try_get_u8 = read 1 (of_be 0);
  try_get_u16 = read 2 (of_be 0);
  try_get_u32 = read 4 (of_be 0);
  try_get_u64 = read 8 (of_be 0);
  try_get_f32 = read 4 (of_be 0);
  try_get_uint_le = λ n. read n of_le;
  remaining = length;
  advance = drop;
  split_to = λ n s. (take n s, drop n s);
  put_u8 = λ v s. s ++ be 1 v;
  put_u16 = λ v s. s ++ be 2 v;
  put_u32 = λ v s. s ++ be 4 v;
  put_u64 = λ v s. s ++ be 8 v;
  put_f32 = λ v s. s ++ be 4 v;
  put_uint_le = λ n v s. s ++ le_bytes n v;
  put_slice = λ t s. s ++ t;
  put_bytes = λ v n s. s ++ replicate n v;
}
