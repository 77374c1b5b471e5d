-- ===== src/Codec/Tests.antt =====
-- Runs of the codec on the list instance of the crate, and the theorems at concrete inputs.
use ruknet.Base.{
  ℕ, ◌+◌, ◌≡◌, refl, true, false, none, some, List, [], ◌∷◌, ◌++◌, arith, length, ok, err,
}
use ruknet.Error.{invalid_data}
use ruknet.Buf.{list_buf}
use ruknet.Buf.Laws.{list_buf-IsBuf}
use ruknet.Reliability.{reliable_ordered, to_u8, is_reliable, is_sequenced, is_ordered}
use ruknet.Datagram.{Fragment, Datagram, packet, calc_full_size}
use ruknet.Codec.Decode.{try_get_fragment, try_get_datagram}
use ruknet.Codec.Encode.{put_split_info, put_ordering_info, put_index, put_fragment, put_datagram}
use ruknet.Codec.Fragments.{IsWire, try_get_fragment-put_fragment}
use ruknet.Codec.Sizes.{length-put_fragment}
use ruknet.Codec.Ensures.{Ensures}
use ruknet.Codec.Total.{DatagramTakes, try_get_datagram-Ensures}
use ruknet.Codec.RoundTrip.{in_order, try_get_datagram-put_datagram}

abbrev greeting : Fragment
greeting = record {
  reliability = reliable_ordered;
  reliable_index = some 7;
  sequence_index = none;
  ordering_info = some (record { index = 2; channel = 0 });
  split_info = none;
  payload = 104 ∷ 105 ∷ [];
}

greeting-IsWire : IsWire greeting
unfolding is_reliable is_sequenced is_ordered
greeting-IsWire = record {
  has_reliable = refl;
  has_sequence = refl;
  has_ordering = refl;
  fits_reliable = omega arith;
  fits_sequence = tt;
  fits_ordering = omega arith;
  fits_split = tt;
  fits_payload = omega arith;
}

greeting_bytes :
    put_fragment list_buf greeting [] ≡ 0x60 ∷ 0 ∷ 16 ∷ 7 ∷ 0 ∷ 0 ∷ 2 ∷ 0 ∷ 0 ∷ 0 ∷ 104 ∷ 105 ∷ []
unfolding put_fragment to_u8 put_split_info put_ordering_info put_index
greeting_bytes = refl

try_get_fragment-put_fragment_example :
    try_get_fragment list_buf (put_fragment list_buf greeting [] ++ 1 ∷ []) ≡ ok (greeting, 1 ∷ [])
try_get_fragment-put_fragment_example =
    try_get_fragment-put_fragment list_buf list_buf-IsBuf greeting (1 ∷ []) greeting-IsWire

length-put_fragment_example :
    length (put_fragment list_buf greeting (9 ∷ [])) ≡ 1 + calc_full_size greeting
length-put_fragment_example =
    length-put_fragment list_buf list_buf-IsBuf greeting (9 ∷ []) greeting-IsWire

try_get_datagram-Ensures_example :
    Ensures (DatagramTakes 5) (try_get_datagram list_buf (0x84 ∷ 1 ∷ 0 ∷ 0 ∷ 0 ∷ []))
try_get_datagram-Ensures_example =
    try_get_datagram-Ensures list_buf list_buf-IsBuf (0x84 ∷ 1 ∷ 0 ∷ 0 ∷ 0 ∷ [])

abbrev sample : Datagram
sample = packet false true false 300 (greeting ∷ [])

try_get_datagram-put_datagram_example :
    (out : List ℕ) × (put_datagram list_buf sample [] ≡ some out)
    × (try_get_datagram list_buf out ≡ ok (in_order sample, []))
try_get_datagram-put_datagram_example =
    try_get_datagram-put_datagram list_buf list_buf-IsBuf sample
      ((omega arith), (greeting-IsWire, tt))

not_valid : try_get_datagram list_buf (0x40 ∷ []) ≡ err (invalid_data "Invalid datagram")
unfolding try_get_datagram
not_valid = refl
