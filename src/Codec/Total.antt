-- ===== src/Codec/Total.antt =====
-- The readers on any input: they do not fault, and they take the bytes that `calc_full_size` counts.
use ruknet.Base.{
  ℕ, zero, suc, ap, inl, inr, Bool-cases, ◌+◌, ◌/◌, ◌≤◌, ◌≡◌, refl, Bool, true, false, ◌||◌, Option,
  none, some, List, [], ◌∷◌, arith, length, length-take, length-drop, is_some, ltb,
}
use Prim.Native.String.{String}
use ruknet.Base.{bit_and, ◌==◌}
use ruknet.Reliability.{from_u8, is_reliable, is_sequenced, is_ordered}
use ruknet.Datagram.{
  header_size, packet_header_size, ack_flag, nak_flag, arrival_rate_flag, valid_flag, Datagram, ack,
  nak, packet, calc_header_size, calc_full_size, reliability_mask, split_flag,
}
use ruknet.Codec.Sizes.{when_, header_parts, HasParts, calc_header_size-parts}
use ruknet.Buf.{Buf, IsBuf, read}
use ruknet.Base.Bytes.{of_be, of_le}
use ruknet.Datagram.{Fragment}
use ruknet.Codec.Decode.{
  Parser, lift, optional, require, has_flag, try_get_u24_le, try_get_ordering_info,
  try_get_split_info, try_split_to, try_get_fragment, try_get_fragments, try_get_range,
  try_get_ranges, try_get_seqs, try_get_datagram, datagram_body, packet_fragments,
}
use ruknet.Codec.Ensures.{Ensures, returns, fails, Ensures-bind}

abbrev PartTakes {ℓ} : {A : Type ℓ} → Bool → ℕ → List ℕ → Option A → List ℕ → Type 0
PartTakes t n s o r = (is_some o ≡ t) × (length s ≡ when_ t n + length r)

-- The value is anything, and `n` bytes are gone.
abbrev Takes {ℓ} : {A : Type ℓ} → ℕ → List ℕ → A → List ℕ → Type 0
Takes n s _ r = length s ≡ n + length r

read-Ensures :
    (n : ℕ) (f : List ℕ → ℕ) (s : List ℕ) (t : Bool)
    → ltb (length s) n ≡ t
    → Ensures (Takes n s) (lift (read n f) s)
read-Ensures n f s true h = rw h fails
read-Ensures n f s false h = rw h (returns (ground (arith, length-drop n s)))

require-Ensures {ℓ} :
    {A : Type ℓ} (o : Option A) (message : String) (s : List ℕ)
    → Ensures (Takes 0 s) (require o message s)
require-Ensures none message s = fails
require-Ensures (some a) message s = returns (omega arith)

optional-Ensures {ℓ} :
    {A : Type ℓ} (t : Bool) (n : ℕ) (p : Parser A) (s : List ℕ)
    → Ensures (Takes n s) (p s)
    → Ensures (PartTakes t n s) (optional t p s)
optional-Ensures false n p s h = returns (refl, omega arith)
optional-Ensures true n p s h = Ensures-bind _ _ h λ a r q. returns (refl, q)

-- The bytes of a packet's fragments, as the layer counts them.
unfoldable pub total_size : List Fragment → ℕ
total_size [] = 0
total_size (f ∷ fs) = calc_full_size f + total_size fs

-- What a datagram of `n` bytes may be read as: a packet takes them all, with its header.
abbrev pub DatagramTakes : ℕ → Datagram → List ℕ → Type 0
DatagramTakes n (ack rate seqs) r = Unit {0}
DatagramTakes n (nak seqs) r = Unit {0}
DatagramTakes n (packet pair continuous needs seq fragments) r =
    (length r ≡ 0) × (n ≡ header_size + packet_header_size + total_size fragments)

calc_full_size-ge : (f : Fragment) → 3 ≤ calc_full_size f
unfolding calc_full_size calc_header_size
calc_full_size-ge f = ground arith

module _ (b : Buf) (laws : IsBuf b) where
  u8-Ensures : (s : List ℕ) → Ensures (Takes 1 s) (lift b.try_get_u8 s)
  u8-Ensures s = rw (laws.get_u8 s) (read-Ensures 1 (of_be 0) s _ refl)

  u16-Ensures : (s : List ℕ) → Ensures (Takes 2 s) (lift b.try_get_u16 s)
  u16-Ensures s = rw (laws.get_u16 s) (read-Ensures 2 (of_be 0) s _ refl)

  u32-Ensures : (s : List ℕ) → Ensures (Takes 4 s) (lift b.try_get_u32 s)
  u32-Ensures s = rw (laws.get_u32 s) (read-Ensures 4 (of_be 0) s _ refl)

  u24-Ensures : (s : List ℕ) → Ensures (Takes 3 s) (try_get_u24_le b s)
  unfolding try_get_u24_le
  u24-Ensures s = rw (laws.get_uint_le 3 s) (read-Ensures 3 of_le s _ refl)

  ordering-Ensures : (s : List ℕ) → Ensures (Takes 4 s) (try_get_ordering_info b s)
  unfolding try_get_ordering_info
  ordering-Ensures s =
      Ensures-bind _ _ (u24-Ensures s)
        λ i r q. Ensures-bind _ _ (u8-Ensures r) λ c r' q'. returns (omega arith)

  split-Ensures : (s : List ℕ) → Ensures (Takes 10 s) (try_get_split_info b s)
  unfolding try_get_split_info
  split-Ensures s = Ensures-bind _ _ (u32-Ensures s) λ size r q.
      Ensures-bind _ _ (u16-Ensures r)
        λ id r' q'. Ensures-bind _ _ (u32-Ensures r') λ index r'' q''. returns (omega arith)

  payload-Ensures :
      (n : ℕ) (s : List ℕ) (t : Bool)
      → ltb (b.remaining s) n ≡ t
      → Ensures (λ p r. (length p ≡ n) × (length s ≡ n + length r)) (try_split_to b n s)
  unfolding try_split_to
  payload-Ensures n s true h = rw h fails
  payload-Ensures n s false h =
      let fits : n ≤ length s = ground (arith, laws.length_remaining s) in
      rw (h, laws.split_take_drop n s fits)
        (returns (omega (arith, length-take n s), omega (arith, length-drop n s)))

  -- Reading a fragment never faults. When it succeeds, the fragment has just the parts that its
  -- reliability asks for, and the bytes taken are as many as `calc_full_size` counts.
  pub try_get_fragment-Ensures :
      (s : List ℕ)
      → Ensures
          (λ f r. HasParts f × (length s ≡ calc_full_size f + length r))
          (try_get_fragment b s)
  unfolding try_get_fragment calc_full_size header_parts
  try_get_fragment-Ensures s = Ensures-bind _ _ (u8-Ensures s) λ flags s1 q1.
      Ensures-bind _ _
        (require-Ensures (from_u8 (bit_and flags reliability_mask / 32)) "Invalid reliability" s1)
        λ reliability s2 q2. Ensures-bind _ _ (u16-Ensures s2) λ bits s3 q3.
          Ensures-bind _ _
            (optional-Ensures (is_reliable reliability) 3 (try_get_u24_le b) s3 (u24-Ensures s3))
            λ i s4 q4.
              Ensures-bind _ _
                (optional-Ensures (is_sequenced reliability) 3 (try_get_u24_le b) s4
                  (u24-Ensures s4))
                λ j s5 q5.
                  Ensures-bind _ _
                    (optional-Ensures (is_sequenced reliability || is_ordered reliability) 4
                      (try_get_ordering_info b) s5 (ordering-Ensures s5))
                    λ o s6 q6.
                      Ensures-bind _ _
                        (optional-Ensures (has_flag flags split_flag) 10 (try_get_split_info b) s6
                          (split-Ensures s6))
                        λ p s7 q7.
                          Ensures-bind _ _ (payload-Ensures (bits / 8) s7 _ refl) λ payload s8 q8.
                            let parts : HasParts _ = record {
                              reliable_part = q4.0;
                              sequence_part = q5.0;
                              ordering_part = q6.0;
                            } in
                            returns (
                              parts,
                              omega (
                                arith,
                                calc_header_size-parts _ parts,
                                ap (λ t. when_ t 3) q4.0,
                                ap (λ t. when_ t 3) q5.0,
                                ap (λ t. when_ t 4) q6.0,
                                ap (λ t. when_ t 10) q7.0,
                              ),
                            )

  fragments-Ensures :
      (fuel : ℕ) (s : List ℕ)
      → length s ≤ fuel
      → Ensures (λ fs r. (length r ≡ 0) × (length s ≡ total_size fs)) (try_get_fragments b fuel s)
  unfolding try_get_fragments total_size
  fragments-Ensures zero s h = elim (Bool-cases (ltb 0 (b.remaining s))) [
    | inl more ↦ absurd (ground (arith, laws.length_remaining s))
    | inr done ↦ rw (done, try_get_fragments) (returns (ground (arith, laws.length_remaining s)))
  ]
  fragments-Ensures (suc fuel) s h = elim (Bool-cases (ltb 0 (b.remaining s))) [
    | inl more ↦
        rw (more, try_get_fragments)
          (Ensures-bind _ _ (try_get_fragment-Ensures s) λ f r q.
            Ensures-bind _ _ (fragments-Ensures fuel r (omega (arith, calc_full_size-ge f)))
              λ fs r' q'. returns (q'.0, omega arith))
    | inr done ↦ rw (done, try_get_fragments) (returns (ground (arith, laws.length_remaining s)))
  ]

  range-Ensures : (kind : ℕ) (s : List ℕ) → Ensures (λ _ _. Unit {0}) (try_get_range b kind s)
  unfolding try_get_range
  range-Ensures kind s = elim (Bool-cases (kind == 0)) [
    | inl pair ↦ rw pair (
        Ensures-bind _ _ (u24-Ensures s)
          λ start r q. Ensures-bind _ _ (u24-Ensures r) λ end r' q'. returns tt)
    | inr other ↦ elim (Bool-cases (kind == 1)) [
      | inl single ↦ rw (other, single) (Ensures-bind _ _ (u24-Ensures s) λ seq r q. returns tt)
      | inr bad ↦ rw (other, bad) fails
    ]
  ]

  ranges-Ensures : (size : ℕ) (s : List ℕ) → Ensures (λ _ _. Unit {0}) (try_get_ranges b size s)
  unfolding try_get_ranges
  ranges-Ensures zero s = returns tt
  ranges-Ensures (suc size) s = Ensures-bind _ _ (u8-Ensures s) λ kind r q.
      Ensures-bind _ _ (range-Ensures kind r)
        λ seqs r' q'. Ensures-bind _ _ (ranges-Ensures size r') λ more r'' q''. returns tt

  seqs-Ensures : (s : List ℕ) → Ensures (λ _ _. Unit {0}) (try_get_seqs b s)
  unfolding try_get_seqs
  seqs-Ensures s = Ensures-bind _ _ (u16-Ensures s) λ size r q. ranges-Ensures size r

  f32-Ensures : (s : List ℕ) → Ensures (Takes 4 s) (lift b.try_get_f32 s)
  f32-Ensures s = rw (laws.get_f32 s) (read-Ensures 4 (of_be 0) s _ refl)

  body-Ensures :
      (flags : ℕ) (s : List ℕ) → Ensures (DatagramTakes (1 + length s)) (datagram_body b flags s)
  unfolding datagram_body packet_fragments
  body-Ensures flags s = elim (Bool-cases (has_flag flags ack_flag)) [
    | inl is_ack ↦ rw is_ack (
        Ensures-bind _ _
          (optional-Ensures (has_flag flags arrival_rate_flag) 4 (lift b.try_get_f32) s
            (f32-Ensures s))
          λ rate r q. Ensures-bind _ _ (seqs-Ensures r) λ seqs r' q'. returns tt)
    | inr other ↦ elim (Bool-cases (has_flag flags nak_flag)) [
      | inl is_nak ↦ rw (other, is_nak) (Ensures-bind _ _ (seqs-Ensures s) λ seqs r q. returns tt)
      | inr is_packet ↦
          rw (other, is_packet)
            (Ensures-bind _ _ (u24-Ensures s) λ seq r q.
              Ensures-bind _ _
                (fragments-Ensures (b.remaining r) r (omega (arith, laws.length_remaining r)))
                λ fs r' q'. returns (q'.0, omega arith))
    ]
  ]

  -- Reading a datagram never faults on any bytes: its loop over the fragments ends. A packet takes
  -- every byte there is, and these are the headers and the sizes that its fragments count.
  pub try_get_datagram-Ensures :
      (s : List ℕ) → Ensures (DatagramTakes (length s)) (try_get_datagram b s)
  unfolding try_get_datagram
  try_get_datagram-Ensures s = Ensures-bind _ _ (u8-Ensures s) λ flags r q.
      elim (Bool-cases (has_flag flags valid_flag)) [
        | inl valid ↦ rw (valid, q) (body-Ensures flags r)
        | inr invalid ↦ rw invalid fails
      ]
