-- ===== src/Codec/Encode.antt =====
-- src/proto/bytes.rs, `trait RukBufMut`. A writer returns the buffer with its bytes appended, and
-- `none` where the code panics.
use ruknet.Base.{
  ℕ, ◌+◌, ◌*◌, ◌%◌, ◌^◌, Bool, true, false, Option, none, some, List, [], ◌∷◌, bit_or, leb, ◌==◌,
  if◌then◌else◌, length, is_some,
}
use ruknet.Buf.{Buf}
use ruknet.Net.{SocketAddr, v4, v6}
use ruknet.Reliability.{to_u8}
use ruknet.Datagram.{
  OrderingInfo, SplitInfo, Fragment, Datagram, ack, nak, packet, valid_flag, ack_flag, nak_flag,
  arrival_rate_flag, packet_pair_flag, continuous_send_flag, needs_arrival_rate_flag, split_flag,
}

-- `bit_flags |= mask` under a test
abbrev pub set_flag : Bool → ℕ → ℕ → ℕ
set_flag true mask flags = bit_or flags mask
set_flag false mask flags = flags

-- `sort_unstable` of the standard library; on numbers its result is the sorted list.
unfoldable pub insert_sorted : ℕ → List ℕ → List ℕ
insert_sorted x [] = x ∷ []
insert_sorted x (y ∷ ys) = if leb x y then x ∷ y ∷ ys else y ∷ insert_sorted x ys

unfoldable pub sort : List ℕ → List ℕ
sort [] = []
sort (x ∷ xs) = insert_sorted x (sort xs)

-- The loop that gathers runs of consecutive numbers, from the current `start` and `end` on.
unfoldable pub seq_ranges : ℕ → ℕ → List ℕ → List (ℕ × ℕ)
seq_ranges start end [] = (start, end) ∷ []
seq_ranges start end (seq ∷ seqs) =
    let extended = seq_ranges start seq seqs in
    let ended = (start, end) ∷ seq_ranges seq seq seqs in
    if seq == (end + 1) % 2 ^ 32 then extended else ended

module _ (b : Buf) where
  open b use {put_u8, put_u16, put_u32, put_f32, put_uint_le, put_slice}

  unfoldable pub put_u24_le : ℕ → List ℕ → List ℕ
  put_u24_le n buf = put_uint_le 3 n buf

  unfoldable pub put_string : List ℕ → List ℕ → List ℕ
  put_string s buf = put_slice s (put_u16 (length s % 2 ^ 16) buf)

  unfoldable pub put_addr : SocketAddr → List ℕ → List ℕ
  put_addr (v4 octets port) buf = put_u16 port (put_slice octets (put_u8 4 buf))
  put_addr (v6 octets port flowinfo scope_id) buf =
      put_u32 0 (put_slice octets (put_u32 0 (put_u16 port (put_u16 0 (put_u8 6 buf)))))

  unfoldable pub put_range : ℕ × ℕ → List ℕ → List ℕ
  unfolding put_u24_le
  put_range (start, end) buf =
      if start == end
      then put_u24_le start (put_u8 1 buf)
      else put_u24_le end (put_u24_le start (put_u8 0 buf))

  unfoldable pub put_ranges : List (ℕ × ℕ) → List ℕ → List ℕ
  put_ranges [] buf = buf
  put_ranges (r ∷ rs) buf = put_ranges rs (put_range r buf)

  unfoldable pub put_sorted : List ℕ → List ℕ → Option (List ℕ)
  unfolding seq_ranges put_ranges
  put_sorted [] buf = none
  put_sorted (seq ∷ seqs) buf =
      let ranges = seq_ranges seq seq seqs in
      some (put_ranges ranges (put_u16 (length ranges % 2 ^ 16) buf))

  -- `seqs[0]` panics on an empty vector.
  unfoldable pub put_seqs : List ℕ → List ℕ → Option (List ℕ)
  put_seqs seqs buf = put_sorted (sort seqs) buf

  unfoldable pub put_ordering_info : Option OrderingInfo → List ℕ → List ℕ
  unfolding put_u24_le
  put_ordering_info none buf = buf
  put_ordering_info (some info) buf = put_u8 info.channel (put_u24_le info.index buf)

  unfoldable pub put_split_info : Option SplitInfo → List ℕ → List ℕ
  put_split_info none buf = buf
  put_split_info (some info) buf = put_u32 info.index (put_u16 info.id (put_u32 info.size buf))

  unfoldable pub put_index : Option ℕ → List ℕ → List ℕ
  unfolding put_u24_le
  put_index none buf = buf
  put_index (some index) buf = put_u24_le index buf

  unfoldable pub put_fragment : Fragment → List ℕ → List ℕ
  put_fragment f buf =
      let flags = bit_or 0 (to_u8 f.reliability * 32 % 2 ^ 8) in
      let buf = put_u8 (set_flag (is_some f.split_info) split_flag flags) buf in
      let buf = put_u16 (length f.payload * 8 % 2 ^ 16) buf in
      let buf = put_index f.sequence_index (put_index f.reliable_index buf) in
      put_slice f.payload (put_split_info f.split_info (put_ordering_info f.ordering_info buf))

  unfoldable pub put_fragments : List Fragment → List ℕ → List ℕ
  put_fragments [] buf = buf
  put_fragments (f ∷ fs) buf = put_fragments fs (put_fragment f buf)

  unfoldable pub put_arrival_rate : Option ℕ → List ℕ → List ℕ
  put_arrival_rate none buf = buf
  put_arrival_rate (some rate) buf = put_f32 rate buf

  unfoldable pub put_datagram : Datagram → List ℕ → Option (List ℕ)
  put_datagram (ack arrival_rate seqs) buf =
      let flags = set_flag (is_some arrival_rate) arrival_rate_flag (bit_or valid_flag ack_flag) in
      put_seqs seqs (put_arrival_rate arrival_rate (put_u8 flags buf))
  put_datagram (nak seqs) buf = put_seqs seqs (put_u8 (bit_or valid_flag nak_flag) buf)
  put_datagram (packet pair continuous needs_rate seq fragments) buf =
      let flags = set_flag pair packet_pair_flag valid_flag in
      let flags = set_flag continuous continuous_send_flag flags in
      let flags = set_flag needs_rate needs_arrival_rate_flag flags in
      some (put_fragments fragments (put_u24_le seq (put_u8 flags buf)))
