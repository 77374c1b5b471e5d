-- ===== src/Datagram.antt =====
-- src/proto/datagram.rs: datagrams, the fragments of messages in them, and their sizes.
use ruknet.Base.{ℕ, ◌+◌, Bool, Option, List, if◌then◌else◌, length, is_some}
use ruknet.Reliability.{Reliability, is_reliable, is_sequenced, is_ordered}

pub record OrderingInfo : Type 0 where
  pub index : ℕ
  pub channel : ℕ

pub record SplitInfo : Type 0 where
  pub size : ℕ
  pub id : ℕ
  pub index : ℕ

pub record Fragment : Type 0 where
  pub reliability : Reliability
  pub reliable_index : Option ℕ
  pub sequence_index : Option ℕ
  pub ordering_info : Option OrderingInfo
  pub split_info : Option SplitInfo
  pub payload : List ℕ

-- `arrival_rate` is the bit pattern of the `f32`.
pub data Datagram : Type 0 where
  ack : (arrival_rate : Option ℕ) (seqs : List ℕ) → Datagram
  nak : (seqs : List ℕ) → Datagram
  packet :
      (is_packet_pair is_continuous_send needs_arrival_rate : Bool) (seq : ℕ)
      (fragments : List Fragment)
      → Datagram

abbrev pub header_size : ℕ
header_size = 1

abbrev pub packet_header_size : ℕ
packet_header_size = 3

abbrev pub valid_flag : ℕ
valid_flag = 0b1000_0000

abbrev pub ack_flag : ℕ
ack_flag = 0b0100_0000

abbrev pub nak_flag : ℕ
nak_flag = 0b0010_0000

abbrev pub arrival_rate_flag : ℕ
arrival_rate_flag = 0b0010_0000

abbrev pub packet_pair_flag : ℕ
packet_pair_flag = 0b0001_0000

abbrev pub continuous_send_flag : ℕ
continuous_send_flag = 0b0000_1000

abbrev pub needs_arrival_rate_flag : ℕ
needs_arrival_rate_flag = 0b0000_0100

abbrev pub split_info_size : ℕ
split_info_size = 10

abbrev pub reliability_mask : ℕ
reliability_mask = 0b1110_0000

abbrev pub split_flag : ℕ
split_flag = 0b0001_0000

unfoldable pub calc_header_size : Fragment → ℕ
calc_header_size f =
    let size : ℕ = 1 + 2 in
    let size = if is_reliable f.reliability then size + 3 else size in
    let size =
      if is_sequenced f.reliability
      then size + 3 + 4
      else if is_ordered f.reliability
      then size + 4
      else size in
    if is_some f.split_info then size + 10 else size

unfoldable pub calc_full_size : Fragment → ℕ
calc_full_size f = calc_header_size f + length f.payload
