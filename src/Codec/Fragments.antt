-- ===== src/Codec/Fragments.antt =====
-- Fragments on the wire: `put_fragment` against `try_get_fragment` and `calc_full_size`.
use ruknet.Base.{
  ℕ, ◌*◌, ◌/◌, ◌%◌, ◌^◌, ◌<◌, ◌≡◌, refl, sym, Bool, ◌||◌, Option, none, some, List, [], ◌++◌,
  append_assoc, append-nil, arith, length, length-append, is_some, ok, bit_or, bit_and,
}
use ruknet.Base.Bytes.{be, le_bytes, take-append_length, drop-append_length}
use ruknet.Buf.{Buf, IsBuf}
use ruknet.Buf.Laws.{get_u8-be, get_u16-be, get_u32-be, get_uint_le-le}
use ruknet.Reliability.{Reliability, from_u8, to_u8, is_reliable, is_sequenced, is_ordered}
use ruknet.Datagram.{OrderingInfo, SplitInfo, Fragment, reliability_mask, split_flag}
use ruknet.Codec.Decode.{
  optional, has_flag, try_get_u24_le, try_get_ordering_info, try_get_split_info, try_split_to,
  try_get_fragment,
}
use ruknet.Codec.Encode.{
  set_flag, put_u24_le, put_index, put_ordering_info, put_split_info, put_fragment,
}

abbrev pub FitsIndex : Option ℕ → Type 0
FitsIndex none = Unit
FitsIndex (some i) = i < 2 ^ 24

abbrev pub FitsOrdering : Option OrderingInfo → Type 0
FitsOrdering none = Unit
FitsOrdering (some o) = (o.index < 2 ^ 24) × (o.channel < 2 ^ 8)

abbrev pub FitsSplit : Option SplitInfo → Type 0
FitsSplit none = Unit
FitsSplit (some s) = (s.size < 2 ^ 32) × (s.id < 2 ^ 16) × (s.index < 2 ^ 32)

-- A fragment carries the fields that its reliability asks for, each within its width on the wire.
pub record IsWire (f : Fragment) : Type 0 where
  pub has_reliable : is_some f.reliable_index ≡ is_reliable f.reliability
  pub has_sequence : is_some f.sequence_index ≡ is_sequenced f.reliability
  pub has_ordering :
      is_some f.ordering_info ≡ (is_sequenced f.reliability || is_ordered f.reliability)
  pub fits_reliable : FitsIndex f.reliable_index
  pub fits_sequence : FitsIndex f.sequence_index
  pub fits_ordering : FitsOrdering f.ordering_info
  pub fits_split : FitsSplit f.split_info
  pub fits_payload : length f.payload < 2 ^ 13

-- The bytes of each part, with no buffer in front.
abbrev pub index_bytes : Option ℕ → List ℕ
index_bytes none = []
index_bytes (some i) = le_bytes 3 i

abbrev pub ordering_bytes : Option OrderingInfo → List ℕ
ordering_bytes none = []
ordering_bytes (some o) = le_bytes 3 o.index ++ be 1 o.channel

abbrev pub split_bytes : Option SplitInfo → List ℕ
split_bytes none = []
split_bytes (some s) = be 4 s.size ++ (be 2 s.id ++ be 4 s.index)

abbrev flags_of : Reliability → Bool → ℕ
flags_of r split = set_flag split split_flag (bit_or 0 (to_u8 r * 32 % 2 ^ 8))

abbrev pub fragment_bytes : Fragment → List ℕ
fragment_bytes f =
    be 1 (flags_of f.reliability (is_some f.split_info))
    ++ (be 2 (length f.payload * 8 % 2 ^ 16)
        ++ (index_bytes f.reliable_index
            ++ (index_bytes f.sequence_index
                ++ (ordering_bytes f.ordering_info ++ (split_bytes f.split_info ++ f.payload)))))

module _ (b : Buf) (laws : IsBuf b) where
  put_index-append : (o : Option ℕ) (s : List ℕ) → put_index b o s ≡ s ++ index_bytes o
  unfolding put_index put_u24_le
  put_index-append none s = sym (append-nil s)
  put_index-append (some i) s = laws.append_uint_le 3 i s

  put_ordering-append :
      (o : Option OrderingInfo) (s : List ℕ) → put_ordering_info b o s ≡ s ++ ordering_bytes o
  unfolding put_ordering_info put_u24_le
  put_ordering-append none s = sym (append-nil s)
  put_ordering-append (some o) s =
      simp (put_ordering_info, put_u24_le, laws.append_uint_le, laws.append_u8, append_assoc)

  put_split-append : (o : Option SplitInfo) (s : List ℕ) → put_split_info b o s ≡ s ++ split_bytes o
  unfolding put_split_info
  put_split-append none s = sym (append-nil s)
  put_split-append (some o) s =
      simp (put_split_info, laws.append_u32, laws.append_u16, append_assoc)

  pub put_fragment-append : (f : Fragment) (s : List ℕ) → put_fragment b f s ≡ s ++ fragment_bytes f
  unfolding put_fragment
  put_fragment-append f s = simp (
    put_fragment, laws.append_u8, laws.append_u16, laws.append_slice, put_index-append,
    put_ordering-append, put_split-append, append_assoc,
  )

  get_index :
      (t : Bool) (o : Option ℕ) (rest : List ℕ)
      → is_some o ≡ t
      → FitsIndex o
      → optional t (try_get_u24_le b) (index_bytes o ++ rest) ≡ ok (o, rest)
  unfolding try_get_u24_le
  get_index t none rest e h = rw (← e)
  get_index t (some i) rest e h = ground (arith, get_uint_le-le b laws 3 i rest h)

  get_ordering :
      (t : Bool) (o : Option OrderingInfo) (rest : List ℕ)
      → is_some o ≡ t
      → FitsOrdering o
      → optional t (try_get_ordering_info b) (ordering_bytes o ++ rest) ≡ ok (o, rest)
  unfolding try_get_ordering_info
  get_ordering t none rest e h = rw (← e)
  get_ordering t (some o) rest e h = ground (
    arith,
    get_uint_le-le b laws 3 o.index (be 1 o.channel ++ rest) h.0,
    get_u8-be b laws o.channel rest h.1,
  )

  get_split :
      (o : Option SplitInfo) (rest : List ℕ)
      → FitsSplit o
      → optional (is_some o) (try_get_split_info b) (split_bytes o ++ rest) ≡ ok (o, rest)
  unfolding try_get_split_info
  get_split none rest h = refl
  get_split (some o) rest h = ground (
    arith,
    get_u32-be b laws o.size (be 2 o.id ++ (be 4 o.index ++ rest)) h.0,
    get_u16-be b laws o.id (be 4 o.index ++ rest) h.1,
    get_u32-be b laws o.index rest h.2,
    append_assoc (be 4 o.size) (be 2 o.id ++ be 4 o.index) rest,
  )

  get_payload :
      (payload rest : List ℕ)
      → try_split_to b (length payload) (payload ++ rest) ≡ ok (payload, rest)
  unfolding try_split_to
  get_payload payload rest = ground (
    arith,
    laws.length_remaining (payload ++ rest),
    length-append payload rest,
    laws.split_take_drop (length payload) (payload ++ rest)
        (omega (arith, length-append payload rest)),
    take-append_length (length payload) payload rest refl,
    drop-append_length (length payload) payload rest refl,
  )

  flags_reliability :
      (r : Reliability) (split : Bool)
      → (from_u8 (bit_and (flags_of r split) reliability_mask / 32) ≡ some r)
        × (has_flag (flags_of r split) split_flag ≡ split)
        × (flags_of r split < 2 ^ 8)
  unfolding from_u8 to_u8
  flags_reliability r split = ground arith

  -- The bytes of a fragment in front of others, as the reader meets them.
  abbrev fragment_then : Fragment → List ℕ → List ℕ
  fragment_then f rest =
      be 1 (flags_of f.reliability (is_some f.split_info))
      ++ (be 2 (length f.payload * 8 % 2 ^ 16)
          ++ (index_bytes f.reliable_index
              ++ (index_bytes f.sequence_index
                  ++ (ordering_bytes f.ordering_info
                      ++ (split_bytes f.split_info ++ (f.payload ++ rest))))))

  fragment_then-append :
      (f : Fragment) (rest : List ℕ) → fragment_bytes f ++ rest ≡ fragment_then f rest
  fragment_then-append f rest = simp append_assoc

  try_get_fragment-then :
      (f : Fragment) (rest : List ℕ)
      → IsWire f
      → try_get_fragment b (fragment_then f rest) ≡ ok (f, rest)
  unfolding try_get_fragment
  try_get_fragment-then f rest w =
      let (e1, e2, e3) = flags_reliability f.reliability (is_some f.split_info) in
      let rest4 = f.payload ++ rest in
      let rest3 = split_bytes f.split_info ++ rest4 in
      let rest2 = ordering_bytes f.ordering_info ++ rest3 in
      let rest1 = index_bytes f.sequence_index ++ rest2 in
      let rest0 = index_bytes f.reliable_index ++ rest1 in
      let bits = length f.payload * 8 % 2 ^ 16 in
      let len : bits / 8 ≡ length f.payload = omega arith in
      ground (
        arith,
        get_u8-be b laws _ (be 2 bits ++ rest0) e3,
        get_u16-be b laws bits rest0 (omega arith),
        get_index _ f.reliable_index rest1 w.has_reliable w.fits_reliable,
        get_index _ f.sequence_index rest2 w.has_sequence w.fits_sequence,
        get_ordering _ f.ordering_info rest3 w.has_ordering w.fits_ordering,
        get_split f.split_info rest4 w.fits_split,
        get_payload f.payload rest,
      )

  pub try_get_fragment-bytes :
      (f : Fragment) (rest : List ℕ)
      → IsWire f
      → try_get_fragment b (fragment_bytes f ++ rest) ≡ ok (f, rest)
  try_get_fragment-bytes f rest w =
      rw (fragment_then-append f rest) (try_get_fragment-then f rest w)

  -- A fragment that fits the wire format is read back whole from its encoding, whatever bytes follow
  -- it, and exactly its own bytes are taken.
  pub try_get_fragment-put_fragment :
      (f : Fragment) (rest : List ℕ)
      → IsWire f
      → try_get_fragment b (put_fragment b f [] ++ rest) ≡ ok (f, rest)
  try_get_fragment-put_fragment f rest w =
      rw (put_fragment-append f []) (try_get_fragment-bytes f rest w)
