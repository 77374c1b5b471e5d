-- ===== src/Cache/Ack.antt =====
-- Acknowledging packets: `insert` and `mark_as_used` together.
use ruknet.Base.{
  length-set, get_or-set, ◌∙◌, ◌^◌, ℕ, ◌+◌, ◌%◌, ◌≡◌, ◌<◌, true, none, some, List, arith, set, ok,
}
use ruknet.Base.Bits.{bit_and_mask}
use ruknet.Datagram.{Fragment}
use ruknet.Window.{add_u32}
use ruknet.Cache.{
  PacketHistory, valid, invalid, used, RetransmitCache, relative_index, history, is_invalid, insert,
  mark_as_used, packet_history_size,
}
use ruknet.Cache.Pending.{IsSized, relative_index-lt}

history-set :
    (hs : List PacketHistory) (seq : ℕ) (h : PacketHistory)
    → IsSized hs
    → history (set hs (relative_index seq) h) seq ≡ h
history-set hs seq h n = ground (
  arith,
  get_or-set hs (relative_index seq) (relative_index seq) h invalid (relative_index-lt hs seq n),
)

-- A packet whose number is below the end of the window is stored in a free slot of a cache of 128
-- slots, and then acknowledged with its fragments and its time, once: a second acknowledgement of
-- the same number finds nothing.
pub mark_as_used-insert :
    (seq time_sent : ℕ) (fs : List Fragment) (c : RetransmitCache)
    → IsSized c.histories
    → is_invalid (history c.histories seq) ≡ true
    → seq < add_u32 c.start_seq packet_history_size
    → (c' : RetransmitCache) × (insert seq fs time_sent c ≡ ok c')
      × ((mark_as_used seq c').0 ≡ some (fs, time_sent))
      × ((mark_as_used seq (mark_as_used seq c').1).0 ≡ none)
unfolding insert mark_as_used
mark_as_used-insert seq time_sent fs c n free inside =
    let hs = set c.histories (relative_index seq) (valid fs time_sent) in
    let first = history-set c.histories seq (valid fs time_sent) n in
    let second = history-set hs seq used (length-set c.histories _ _ ∙ n) in
    (
      record c { histories = hs },
      ground arith,
      ground (arith, first),
      ground (arith, first, second),
    )

-- An acknowledged number is answered like the number of another packet, 128 before it: the same
-- packet is marked and given back.
pub mark_as_used_alias :
    (seq : ℕ) (c : RetransmitCache) → mark_as_used (seq + 128) c ≡ mark_as_used seq c
unfolding mark_as_used relative_index
mark_as_used_alias seq c =
    let e : (seq + 128) % 2 ^ 7 ≡ seq % 2 ^ 7 = omega arith in
    ground (arith, bit_and_mask 7 (seq + 128), bit_and_mask 7 seq, e)
