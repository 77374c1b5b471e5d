-- ===== src/Codec/Sizes.antt =====
-- The sizes that the layer reckons with, against the bytes that are written and read.
use ruknet.Base.{
  ℕ, ◌+◌, ◌≡◌, refl, Bool, true, false, ◌||◌, Option, none, some, List, arith, length,
  length-append, is_some,
}
use ruknet.Base.Bytes.{length-le_bytes}
use ruknet.Buf.{Buf, IsBuf}
use ruknet.Reliability.{is_reliable, is_sequenced, is_ordered}
use ruknet.Datagram.{OrderingInfo, SplitInfo, Fragment, calc_header_size, calc_full_size}
use ruknet.Codec.Encode.{put_fragment}
use ruknet.Codec.Fragments.{IsWire, index_bytes, ordering_bytes, split_bytes, put_fragment-append}

abbrev pub when_ : Bool → ℕ → ℕ
when_ true n = n
when_ false n = 0

length-index_bytes : (o : Option ℕ) → length (index_bytes o) ≡ when_ (is_some o) 3
length-index_bytes none = refl
length-index_bytes (some i) = length-le_bytes 3 i

length-ordering_bytes : (o : Option OrderingInfo) → length (ordering_bytes o) ≡ when_ (is_some o) 4
length-ordering_bytes none = refl
length-ordering_bytes (some o) = refl

length-split_bytes : (o : Option SplitInfo) → length (split_bytes o) ≡ when_ (is_some o) 10
length-split_bytes none = refl
length-split_bytes (some o) = refl

-- The header size, by the parts that are there.
unfoldable pub header_parts : Fragment → ℕ
header_parts f =
    3
    + when_ (is_some f.reliable_index) 3
    + when_ (is_some f.sequence_index) 3
    + when_ (is_some f.ordering_info) 4
    + when_ (is_some f.split_info) 10

-- The optional parts of a fragment are those of its reliability.
pub record HasParts (f : Fragment) : Type 0 where
  pub reliable_part : is_some f.reliable_index ≡ is_reliable f.reliability
  pub sequence_part : is_some f.sequence_index ≡ is_sequenced f.reliability
  pub ordering_part :
      is_some f.ordering_info ≡ (is_sequenced f.reliability || is_ordered f.reliability)

pub calc_header_size-parts : (f : Fragment) → HasParts f → calc_header_size f ≡ header_parts f
unfolding calc_header_size header_parts
calc_header_size-parts f h = rw (h.reliable_part, h.sequence_part, h.ordering_part) (ground arith)

module _ (b : Buf) (laws : IsBuf b) where
  -- Writing a fragment that fits the wire format adds as many bytes as `calc_full_size` says.
  pub length-put_fragment :
      (f : Fragment) (s : List ℕ)
      → IsWire f
      → length (put_fragment b f s) ≡ length s + calc_full_size f
  unfolding calc_full_size header_parts
  length-put_fragment f s w = rw (put_fragment-append b laws f s) (
      omega (
        arith,
        calc_header_size-parts f (record {
          reliable_part = w.has_reliable;
          sequence_part = w.has_sequence;
          ordering_part = w.has_ordering;
        }),
        length-append {0},
        length-index_bytes f.reliable_index,
        length-index_bytes f.sequence_index,
        length-ordering_bytes f.ordering_info,
        length-split_bytes f.split_info,
      ))
