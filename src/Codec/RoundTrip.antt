-- ===== src/Codec/RoundTrip.antt =====
-- Whole datagrams: `put_datagram` against `try_get_datagram`.
use ruknet.Base.{
  ℕ, zero, suc, ◌^◌, ◌≤◌, ◌<◌, ◌≡◌, refl, sym, ap, ◌∙◌, Bool, true, false, Option, none, some, List,
  [], ◌∷◌, ◌++◌, append_assoc, append-nil, arith, length, length-append, is_some, bit_or, ok,
}
use ruknet.Base.Bytes.{be, le_bytes}
use ruknet.Buf.{Buf, IsBuf}
use ruknet.Buf.Laws.{get_u8-be, get_f32-be, get_uint_le-le}
use ruknet.Datagram.{
  Fragment, Datagram, ack, nak, packet, valid_flag, ack_flag, nak_flag, arrival_rate_flag,
  packet_pair_flag, continuous_send_flag, needs_arrival_rate_flag,
}
use ruknet.Codec.Decode.{
  lift, optional, has_flag, try_get_u24_le, try_get_fragments, packet_fragments, datagram_body,
  try_get_datagram, try_get_seqs,
}
use ruknet.Codec.Encode.{
  set_flag, sort, put_u24_le, put_fragment, put_fragments, put_arrival_rate, put_datagram,
}
use ruknet.Codec.Seqs.{IsSeqs, seqs-round_trip}
use ruknet.Codec.Fragments.{IsWire, fragment_bytes, put_fragment-append, try_get_fragment-bytes}

abbrev pub AllWire : List Fragment → Type 0
AllWire [] = Unit
AllWire (f ∷ fs) = IsWire f × AllWire fs

abbrev pub FitsRate : Option ℕ → Type 0
FitsRate none = Unit
FitsRate (some rate) = rate < 2 ^ 32

-- What the wire format can carry.
abbrev pub IsWireDatagram : Datagram → Type 0
IsWireDatagram (ack rate seqs) = FitsRate rate × IsSeqs seqs
IsWireDatagram (nak seqs) = IsSeqs seqs
IsWireDatagram (packet pair continuous needs seq fragments) = (seq < 2 ^ 24) × AllWire fragments

-- The datagram with its numbers in order, as `put_datagram` leaves it.
abbrev pub in_order : Datagram → Datagram
in_order (ack rate seqs) = ack rate (sort seqs)
in_order (nak seqs) = nak (sort seqs)
in_order d = d

abbrev fragments_bytes : List Fragment → List ℕ
fragments_bytes [] = []
fragments_bytes (f ∷ fs) = fragment_bytes f ++ fragments_bytes fs

abbrev rate_bytes : Option ℕ → List ℕ
rate_bytes none = []
rate_bytes (some rate) = be 4 rate

abbrev ack_flags : Option ℕ → ℕ
ack_flags o = set_flag (is_some o) arrival_rate_flag (bit_or valid_flag ack_flag)

abbrev packet_flags : Bool → Bool → Bool → ℕ
packet_flags pair continuous needs =
    set_flag needs needs_arrival_rate_flag
      (set_flag continuous continuous_send_flag (set_flag pair packet_pair_flag valid_flag))

module _ (b : Buf) (laws : IsBuf b) where
  put_fragments-append :
      (fs : List Fragment) (s : List ℕ) → put_fragments b fs s ≡ s ++ fragments_bytes fs
  unfolding put_fragments
  put_fragments-append [] s = sym (append-nil s)
  put_fragments-append (f ∷ fs) s =
      put_fragments-append fs (put_fragment b f s)
      ∙ ap (λ t. t ++ fragments_bytes fs) (put_fragment-append b laws f s)
      ∙ append_assoc s (fragment_bytes f) (fragments_bytes fs)

  get_fragments :
      (fuel : ℕ) (fs : List Fragment)
      → AllWire fs
      → length (fragments_bytes fs) ≤ fuel
      → try_get_fragments b fuel (fragments_bytes fs) ≡ ok (fs, [])
  unfolding try_get_fragments
  get_fragments zero [] w h = ground (arith, laws.length_remaining [])
  get_fragments (suc fuel) [] w h = ground (arith, laws.length_remaining [])
  get_fragments zero (f ∷ fs) w h = absurd (omega arith)
  get_fragments (suc fuel) (f ∷ fs) w h =
      let s = fragment_bytes f ++ fragments_bytes fs in
      ground (
        arith,
        laws.length_remaining s,
        try_get_fragment-bytes b laws f (fragments_bytes fs) w.0,
        length-append (fragment_bytes f) (fragments_bytes fs),
        get_fragments fuel fs w.1
            (omega (arith, length-append (fragment_bytes f) (fragments_bytes fs))),
      )

  put_rate-append : (o : Option ℕ) (s : List ℕ) → put_arrival_rate b o s ≡ s ++ rate_bytes o
  unfolding put_arrival_rate
  put_rate-append none s = sym (append-nil s)
  put_rate-append (some rate) s = laws.append_f32 rate s

  get_rate :
      (o : Option ℕ) (rest : List ℕ)
      → FitsRate o
      → optional (is_some o) (lift b.try_get_f32) (rate_bytes o ++ rest) ≡ ok (o, rest)
  get_rate none rest h = refl
  get_rate (some rate) rest h = ground (arith, get_f32-be b laws rate rest h)

  -- The seqs of an acknowledgement, with nothing behind them.
  get_seqs-end :
      (out : List ℕ) {seqs : List ℕ}
      → try_get_seqs b (out ++ []) ≡ ok (seqs, [])
      → try_get_seqs b out ≡ ok (seqs, [])
  get_seqs-end out got = rw append-nil at got

  get_ack :
      (rate : Option ℕ) (out seqs : List ℕ)
      → FitsRate rate
      → try_get_seqs b out ≡ ok (seqs, [])
      → try_get_datagram b (be 1 (ack_flags rate) ++ (rate_bytes rate ++ out))
        ≡ ok (ack rate seqs, [])
  unfolding try_get_datagram datagram_body
  get_ack none out seqs h got = ground (arith, get_u8-be b laws 192 out (omega arith), got)
  get_ack (some rate) out seqs h got = ground (
    arith,
    get_u8-be b laws 224 (be 4 rate ++ out) (omega arith),
    get_f32-be b laws rate out h,
    got,
  )

  get_nak :
      (out seqs : List ℕ)
      → try_get_seqs b out ≡ ok (seqs, [])
      → try_get_datagram b (be 1 (bit_or valid_flag nak_flag) ++ out) ≡ ok (nak seqs, [])
  unfolding try_get_datagram datagram_body
  get_nak out seqs got = ground (arith, get_u8-be b laws 160 out (omega arith), got)

  packet_has_flags :
      (pair continuous needs : Bool)
      → let flags = packet_flags pair continuous needs in
        (has_flag flags valid_flag ≡ true)
        × (has_flag flags ack_flag ≡ false)
        × (has_flag flags nak_flag ≡ false)
        × (has_flag flags packet_pair_flag ≡ pair)
        × (has_flag flags continuous_send_flag ≡ continuous)
        × (has_flag flags needs_arrival_rate_flag ≡ needs)
        × (flags < 2 ^ 8)
  packet_has_flags pair continuous needs = ground arith

  get_packet :
      (pair continuous needs : Bool) (seq : ℕ) (fs : List Fragment)
      → seq < 2 ^ 24
      → AllWire fs
      → try_get_datagram b
          (be 1 (packet_flags pair continuous needs) ++ (le_bytes 3 seq ++ fragments_bytes fs))
        ≡ ok (packet pair continuous needs seq fs, [])
  unfolding try_get_datagram datagram_body packet_fragments try_get_u24_le
  get_packet pair continuous needs seq fs h w =
      let (f1, f2, f3, f4, f5, f6, f7) = packet_has_flags pair continuous needs in
      let body = fragments_bytes fs in
      ground (
        arith,
        f1,
        f2,
        f3,
        f4,
        f5,
        f6,
        get_u8-be b laws (packet_flags pair continuous needs) (le_bytes 3 seq ++ body) f7,
        get_uint_le-le b laws 3 seq body h,
        get_fragments (b.remaining body) fs w (omega (arith, laws.length_remaining body)),
      )

  -- Every datagram that fits the wire format is written without a panic, and what is read back from
  -- the bytes is that datagram, the acknowledged numbers in ascending order, with no byte left over.
  pub try_get_datagram-put_datagram :
      (d : Datagram)
      → IsWireDatagram d
      → (out : List ℕ) × (put_datagram b d [] ≡ some out)
        × (try_get_datagram b out ≡ ok (in_order d, []))
  unfolding put_datagram put_u24_le
  try_get_datagram-put_datagram (ack rate seqs) w =
      let head = be 1 (ack_flags rate) ++ rate_bytes rate in
      let (out, put, got) = seqs-round_trip b laws seqs head [] w.1 in
      (
        be 1 (ack_flags rate) ++ (rate_bytes rate ++ out),
        simp (laws.append_u8, put_rate-append) put,
        get_ack rate out (sort seqs) w.0 (get_seqs-end out got),
      )
  try_get_datagram-put_datagram (nak seqs) w =
      let head = be 1 (bit_or valid_flag nak_flag) in
      let (out, put, got) = seqs-round_trip b laws seqs head [] w in
      (head ++ out, simp laws.append_u8 put, get_nak out (sort seqs) (get_seqs-end out got))
  try_get_datagram-put_datagram (packet pair continuous needs seq fs) w = (
    be 1 (packet_flags pair continuous needs) ++ (le_bytes 3 seq ++ fragments_bytes fs),
    simp (laws.append_u8, laws.append_uint_le, put_fragments-append),
    get_packet pair continuous needs seq fs w.0 w.1,
  )
