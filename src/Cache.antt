-- ===== src/Cache.antt =====
-- src/reliability/retransmit_cache.rs: the packets sent and not yet acknowledged, and the fragments
-- to send again. The 32-bit and 64-bit operations wrap, as in a release build.
pub mod Pending
pub mod Ack
mod Tests
use ruknet.Base.{
  ℕ, zero, suc, ◌+◌, ◌-◌, ◌^◌, bit_and, Bool, true, false, ◌&&◌, Option, none, some, List, [], ◌∷◌,
  ◌++◌, leb, if◌then◌else◌, get_or, set, replicate, Result, ok, err,
}
use ruknet.Error.{BufferOverflowError, overflowed}
use ruknet.Datagram.{Fragment}
use ruknet.Window.{add_u32, sub_u64}

abbrev pub packet_history_size : ℕ
packet_history_size = 128

pub data PacketHistory : Type 0 where
  valid : (fragments : List Fragment) (time_sent : ℕ) → PacketHistory
  invalid : PacketHistory
  used : PacketHistory

pub record RetransmitCache : Type 0 where
  pub histories : List PacketHistory
  pub start_seq : ℕ
  pub retransmit_fragments : List Fragment

unfoldable pub relative_index : ℕ → ℕ
relative_index seq = bit_and seq (packet_history_size - 1)

-- `self.histories[Self::relative_index(seq)]`
abbrev pub history : List PacketHistory → ℕ → PacketHistory
history hs seq = get_or hs (relative_index seq) invalid

abbrev pub is_invalid : PacketHistory → Bool
is_invalid invalid = true
is_invalid _ = false

abbrev pub is_used : PacketHistory → Bool
is_used used = true
is_used _ = false

abbrev pub is_nil {ℓ} : {A : Type ℓ} → List A → Bool
is_nil [] = true
is_nil (x ∷ xs) = false

unfoldable pub new : RetransmitCache
new = record {
  histories = replicate packet_history_size invalid;
  start_seq = 0;
  retransmit_fragments = [];
}

unfoldable pub is_empty : RetransmitCache → Bool
is_empty c = is_invalid (history c.histories c.start_seq) && is_nil c.retransmit_fragments

unfoldable pub insert :
    ℕ → List Fragment → ℕ → RetransmitCache → Result BufferOverflowError RetransmitCache
insert seq fragments time_sent c =
    let slot = relative_index seq in
    let stored : RetransmitCache = record c {
      histories = set c.histories slot (valid fragments time_sent);
    } in
    if leb (add_u32 c.start_seq packet_history_size) seq
    then err overflowed
    else if is_invalid (history c.histories seq)
    then ok stored
    else ok c

unfoldable pub mark_as_used : ℕ → RetransmitCache → Option (List Fragment × ℕ) × RetransmitCache
mark_as_used seq c =
    let marked : RetransmitCache = record c {
      histories = set c.histories (relative_index seq) used;
    } in
    elim (history c.histories seq) [
      | valid fragments time_sent ↦ (some (fragments, time_sent), marked)
      | invalid ↦ (none, c)
      | used ↦ (none, c)
    ]

-- `left` rounds are to go; the rounds done are the `count`.
unfoldable pub shift_loop : ℕ → ℕ → ℕ → List PacketHistory → ℕ × List PacketHistory
shift_loop zero start i hs = (i, hs)
shift_loop (suc left) start i hs =
    let seq = add_u32 start i in
    elim (is_used (history hs seq)) [
      | true ↦ shift_loop left start (i + 1) (set hs (relative_index seq) invalid)
      | false ↦ (i, hs)
    ]

unfoldable pub shift : RetransmitCache → ℕ × RetransmitCache
shift c =
    let (count, hs) = shift_loop packet_history_size c.start_seq 0 c.histories in
    (count, record c { histories = hs; start_seq = add_u32 c.start_seq count })

-- The rounds of `get_retransmit_fragments`: the count, the histories and the queue.
abbrev pub Sweep : Type 0
Sweep = ℕ × List PacketHistory × List Fragment

unfoldable pub retransmit_loop : ℕ → ℕ → ℕ → ℕ → ℕ → List PacketHistory → List Fragment → Sweep
retransmit_loop zero now rto start i hs queue = (i, hs, queue)
retransmit_loop (suc left) now rto start i hs queue =
    let seq = add_u32 start i in
    let hs' = set hs (relative_index seq) invalid in
    elim (history hs seq) [
      | valid fragments time_sent ↦ elim (leb rto (sub_u64 now time_sent)) [
        | true ↦ retransmit_loop left now rto start (i + 1) hs' (queue ++ fragments)
        | false ↦ (i, hs, queue)
      ]
      | invalid ↦ (i, hs, queue)
      | used ↦ retransmit_loop left now rto start (i + 1) hs' queue
    ]

-- The queue that is returned by reference is a field of the cache that results.
unfoldable pub get_retransmit_fragments : ℕ → ℕ → RetransmitCache → RetransmitCache
get_retransmit_fragments now rto c =
    let (count, hs, queue) =
      retransmit_loop packet_history_size now rto c.start_seq 0 c.histories
        c.retransmit_fragments in
    let swept : RetransmitCache = record {
      histories = hs;
      start_seq = add_u32 c.start_seq count;
      retransmit_fragments = queue;
    } in
    if is_empty c then c else swept

unfoldable pub extend_retransmit_fragments : List Fragment → RetransmitCache → RetransmitCache
extend_retransmit_fragments fragments c = record c {
  retransmit_fragments = c.retransmit_fragments ++ fragments;
}
