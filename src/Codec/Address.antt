-- ===== src/Codec/Address.antt =====
-- Socket addresses on the wire: `put_addr` against `try_get_addr`.
use ruknet.Base.{
  ℕ, zero, suc, ◌^◌, ◌<◌, ◌≡◌, refl, ap, List, [], ◌∷◌, ◌++◌, append_assoc, arith, length, ok,
}
use ruknet.Base.Bytes.{be}
use ruknet.Buf.{Buf, IsBuf}
use ruknet.Buf.Laws.{get_u8-be, get_u16-be, get_u32-be}
use ruknet.Net.{SocketAddr, v4, v6}
use ruknet.Codec.Decode.{try_get_octets, addr_v4, addr_v6, try_get_addr}
use ruknet.Codec.Encode.{put_addr}
use ruknet.Codec.Seqs.{AllBelow}

-- An address of the standard library whose flow information and scope are 0.
abbrev pub IsPlain : SocketAddr → Type 0
IsPlain (v4 octets port) = (length octets ≡ 4) × AllBelow (2 ^ 8) octets × (port < 2 ^ 16)
IsPlain (v6 octets port flowinfo scope_id) =
    (length octets ≡ 16)
    × AllBelow (2 ^ 8) octets
    × (port < 2 ^ 16)
    × (flowinfo ≡ 0)
    × (scope_id ≡ 0)

abbrev addr_bytes : SocketAddr → List ℕ → List ℕ
addr_bytes (v4 octets port) rest = be 1 4 ++ (octets ++ (be 2 port ++ rest))
addr_bytes (v6 octets port flowinfo scope_id) rest =
    be 1 6 ++ (be 2 0 ++ (be 2 port ++ (be 4 0 ++ (octets ++ (be 4 0 ++ rest)))))

module _ (b : Buf) (laws : IsBuf b) where
  put_addr-bytes : (a : SocketAddr) (rest : List ℕ) → put_addr b a [] ++ rest ≡ addr_bytes a rest
  unfolding put_addr
  put_addr-bytes (v4 octets port) rest =
      simp (laws.append_u8, laws.append_u16, laws.append_slice, append_assoc)
  put_addr-bytes (v6 octets port flowinfo scope_id) rest =
      simp (laws.append_u8, laws.append_u16, laws.append_u32, laws.append_slice, append_assoc)

  get_octets :
      (n : ℕ) (octets rest : List ℕ)
      → length octets ≡ n
      → AllBelow (2 ^ 8) octets
      → try_get_octets b n (octets ++ rest) ≡ ok (octets, rest)
  unfolding try_get_octets
  get_octets zero [] rest h a = refl
  get_octets zero (x ∷ xs) rest h a = absurd (omega arith)
  get_octets (suc n) [] rest h a = absurd (omega arith)
  get_octets (suc n) (x ∷ xs) rest h a =
      let byte : be 1 x ≡ x ∷ [] = ap (λ t. t ∷ []) (omega arith) in
      ground (
        arith,
        get_u8-be b laws x (xs ++ rest) a.0,
        ap (λ t. t ++ (xs ++ rest)) byte,
        get_octets n xs rest (omega arith) a.1,
      )

  get_addr_bytes :
      (a : SocketAddr) (rest : List ℕ)
      → IsPlain a
      → try_get_addr b (addr_bytes a rest) ≡ ok (a, rest)
  unfolding try_get_addr addr_v4 addr_v6
  get_addr_bytes (v4 octets port) rest h = ground (
    arith,
    get_u8-be b laws 4 (octets ++ (be 2 port ++ rest)) (omega arith),
    get_octets 4 octets (be 2 port ++ rest) h.0 h.1,
    get_u16-be b laws port rest h.2,
  )
  get_addr_bytes (v6 octets port flowinfo scope_id) rest h =
      let rest1 = octets ++ (be 4 0 ++ rest) in
      ground (
        arith,
        get_u8-be b laws 6 (be 2 0 ++ (be 2 port ++ (be 4 0 ++ rest1))) (omega arith),
        get_u16-be b laws 0 (be 2 port ++ (be 4 0 ++ rest1)) (omega arith),
        get_u16-be b laws port (be 4 0 ++ rest1) h.2,
        get_u32-be b laws 0 rest1 (omega arith),
        get_octets 16 octets (be 4 0 ++ rest) h.0 h.1,
        get_u32-be b laws 0 rest (omega arith),
      )

  -- An IPv4 address, or an IPv6 address without flow information and scope, is read back from its
  -- encoding, and exactly its own bytes are taken.
  pub try_get_addr-put_addr :
      (a : SocketAddr) (rest : List ℕ)
      → IsPlain a
      → try_get_addr b (put_addr b a [] ++ rest) ≡ ok (a, rest)
  try_get_addr-put_addr a rest h = rw (put_addr-bytes a rest) (get_addr_bytes a rest h)
