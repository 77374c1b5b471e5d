-- ===== src/Codec/Decode.antt =====
-- src/proto/bytes.rs, `impl RukBuf for Bytes`. A reader moves through the byte string; on an error
-- the callers drop what is left of it.
use Prim.Native.String.{String}
use ruknet.Base.{
  ℕ, zero, suc, ◌+◌, ◌-◌, ◌/◌, Bool, true, false, not, ◌||◌, Option, none, some, List, [], ◌∷◌,
  ◌++◌, bit_and, ltb, ◌==◌, if◌then◌else◌, Result, ok, err, fault, map_err,
}
use ruknet.Error.{RukBytesError, try_get, invalid_data}
use ruknet.Buf.{Buf, Reader}
use ruknet.Net.{SocketAddr, v4, v6}
use ruknet.Reliability.{from_u8, is_reliable, is_sequenced, is_ordered}
use ruknet.Datagram.{
  OrderingInfo, SplitInfo, Fragment, Datagram, ack, nak, packet, valid_flag, ack_flag, nak_flag,
  arrival_rate_flag, packet_pair_flag, continuous_send_flag, needs_arrival_rate_flag,
  reliability_mask, split_flag,
}

abbrev pub Parser {ℓ} : Type ℓ → Type ℓ
Parser A = List ℕ → Result RukBytesError (A × List ℕ)

infixl 5 ◌>>=◌ ◌>>◌
abbrev pub ◌>>=◌ {ℓ κ} : {A : Type ℓ} {B : Type κ} → Parser A → (A → Parser B) → Parser B
◌>>=◌ m f s = elim (m s) [ ok (a, s') ↦ f a s' | err e ↦ err e | fault ↦ fault ]

abbrev pub ◌>>◌ {ℓ κ} : {A : Type ℓ} {B : Type κ} → Parser A → Parser B → Parser B
m >> k = m >>= λ _. k

abbrev pub pure {ℓ} : {A : Type ℓ} → A → Parser A
pure a s = ok (a, s)

abbrev pub fail {ℓ} : {A : Type ℓ} → RukBytesError → Parser A
fail e s = err e

-- A reader of the crate, its error converted as `?` does.
abbrev pub lift : Reader → Parser ℕ
lift r s = map_err try_get (r s)

-- `if test { Some(read?) } else { None }`
abbrev pub optional {ℓ} : {A : Type ℓ} → Bool → Parser A → Parser (Option A)
optional true p = p >>= λ a. pure (some a)
optional false p = pure none

-- `.ok_or(error)?`
abbrev pub require {ℓ} : {A : Type ℓ} → Option A → String → Parser A
require none message = fail (invalid_data message)
require (some a) message = pure a

abbrev pub has_flag : ℕ → ℕ → Bool
has_flag flags mask = not (bit_and flags mask == 0)

-- `start..=end`
unfoldable pub upto : ℕ → ℕ → List ℕ
upto start zero = []
upto start (suc n) = start ∷ upto (start + 1) n

module _ (b : Buf) where
  open b use {
    try_get_u8, try_get_u16, try_get_u32, try_get_f32, try_get_uint_le, remaining, advance,
    split_to,
  }

  -- `Ok(())` on success.
  unfoldable pub try_advance : ℕ → Parser (Unit {0})
  try_advance n s =
      if ltb (remaining s) n then err (invalid_data "Not enough data") else ok (tt, advance n s)

  unfoldable pub try_get_u24_le : Parser ℕ
  try_get_u24_le = lift (try_get_uint_le 3)

  -- The rest of `try_get_fragment`: the check against what remains, then the split.
  unfoldable pub try_split_to : ℕ → Parser (List ℕ)
  try_split_to len s =
      if ltb (remaining s) len then err (invalid_data "Not enough data") else ok (split_to len s)

  -- `for e in &mut ip { *e = self.try_get_u8()?; }`
  unfoldable pub try_get_octets : ℕ → Parser (List ℕ)
  try_get_octets zero = pure []
  try_get_octets (suc n) = do e ← lift try_get_u8; ip ← try_get_octets n; pure (e ∷ ip)

  unfoldable pub addr_v4 : Parser SocketAddr
  addr_v4 = do ip ← try_get_octets 4; port ← lift try_get_u16; pure (v4 ip port)

  -- `SocketAddr::new` sets the flow information and the scope to 0.
  unfoldable pub addr_v6 : Parser SocketAddr
  addr_v6 = do
    family ← lift try_get_u16
    port ← lift try_get_u16
    flow ← lift try_get_u32
    ip ← try_get_octets 16
    scope ← lift try_get_u32
    pure (v6 ip port 0 0)

  unfoldable pub try_get_addr : Parser SocketAddr
  try_get_addr = do
    kind ← lift try_get_u8
    if kind == 4
        then addr_v4
        else if kind == 6
        then addr_v6
        else fail (invalid_data "Invalid address type")

  unfoldable pub try_get_range : ℕ → Parser (List ℕ)
  unfolding try_get_u24_le upto
  try_get_range kind =
      if kind == 0
      then (do start ← try_get_u24_le; end ← try_get_u24_le; pure (upto start (end + 1 - start)))
      else if kind == 1
      then (do seq ← try_get_u24_le; pure (seq ∷ []))
      else fail (invalid_data "Invalid seq type")

  -- The rounds `0..size`, each adding its numbers behind those before it.
  unfoldable pub try_get_ranges : ℕ → Parser (List ℕ)
  try_get_ranges zero = pure []
  try_get_ranges (suc size) = do
    kind ← lift try_get_u8
    seqs ← try_get_range kind
    more ← try_get_ranges size
    pure (seqs ++ more)

  unfoldable pub try_get_seqs : Parser (List ℕ)
  try_get_seqs = do size ← lift try_get_u16; try_get_ranges size

  -- `String::from_utf8_lossy` is `lossy`, from bytes to the bytes of a text.
  unfoldable pub try_get_string : (List ℕ → List ℕ) → Parser (List ℕ)
  unfolding try_split_to
  try_get_string lossy = do len ← lift try_get_u16; bytes ← try_split_to len; pure (lossy bytes)

  unfoldable pub try_get_ordering_info : Parser OrderingInfo
  unfolding try_get_u24_le
  try_get_ordering_info = do
    index ← try_get_u24_le
    channel ← lift try_get_u8
    pure (record { index = index; channel = channel })

  unfoldable pub try_get_split_info : Parser SplitInfo
  try_get_split_info = do
    size ← lift try_get_u32
    id ← lift try_get_u16
    index ← lift try_get_u32
    pure (record { size = size; id = id; index = index })

  unfoldable pub try_get_fragment : Parser Fragment
  try_get_fragment = do
    bit_flags ← lift try_get_u8
    reliability ← require (from_u8 (bit_and bit_flags reliability_mask / 32)) "Invalid reliability"
    let is_split = has_flag bit_flags split_flag
    bits ← lift try_get_u16
    let len = bits / 8
    reliable_index ← optional (is_reliable reliability) try_get_u24_le
    sequence_index ← optional (is_sequenced reliability) try_get_u24_le
    ordering_info ←
        optional (is_sequenced reliability || is_ordered reliability) try_get_ordering_info
    split_info ← optional is_split try_get_split_info
    payload ← try_split_to len
    pure (record {
      reliability = reliability;
      reliable_index = reliable_index;
      sequence_index = sequence_index;
      ordering_info = ordering_info;
      split_info = split_info;
      payload = payload;
    })

  -- `while self.has_remaining()`; each round takes at least three bytes, so as many rounds as there
  -- are bytes are enough.
  unfoldable pub try_get_fragments : ℕ → Parser (List Fragment)
  try_get_fragments zero s = if ltb 0 (remaining s) then fault else ok ([], s)
  try_get_fragments (suc fuel) s = elim (ltb 0 (remaining s)) [
    | true ↦
        (do
          fragment ← try_get_fragment
          fragments ← try_get_fragments fuel
          pure (fragment ∷ fragments))
          s
    | false ↦ ok ([], s)
  ]

  unfoldable pub packet_fragments : Parser (List Fragment)
  packet_fragments s = try_get_fragments (remaining s) s

  unfoldable pub datagram_body : ℕ → Parser Datagram
  unfolding try_get_seqs try_get_u24_le packet_fragments
  datagram_body bit_flags =
      if has_flag bit_flags ack_flag
      then (do
        arrival_rate ← optional (has_flag bit_flags arrival_rate_flag) (lift try_get_f32)
        seqs ← try_get_seqs
        pure (ack arrival_rate seqs))
      else if has_flag bit_flags nak_flag
      then (do seqs ← try_get_seqs; pure (nak seqs))
      else (do
        seq ← try_get_u24_le
        fragments ← packet_fragments
        pure (
            packet (has_flag bit_flags packet_pair_flag) (has_flag bit_flags continuous_send_flag)
              (has_flag bit_flags needs_arrival_rate_flag) seq fragments))

  unfoldable pub try_get_datagram : Parser Datagram
  unfolding datagram_body
  try_get_datagram = do
    bit_flags ← lift try_get_u8
    if has_flag bit_flags valid_flag
        then datagram_body bit_flags
        else fail (invalid_data "Invalid datagram")
