-- ===== src/Cache/Tests.antt =====
-- The cache's theorems at concrete inputs.
use ruknet.Base.{◌+◌, ◌≡◌, refl, none, some, [], ◌∷◌, arith, ok, replicate}
use ruknet.Datagram.{Fragment}
use ruknet.Reliability.{reliable}
use ruknet.Cache.{RetransmitCache, relative_index, valid, invalid, used, insert, mark_as_used}
use ruknet.Cache.Ack.{mark_as_used-insert, mark_as_used_alias}

abbrev ping : Fragment
ping = record {
  reliability = reliable;
  reliable_index = some 4;
  sequence_index = none;
  ordering_info = none;
  split_info = none;
  payload = 1 ∷ 2 ∷ [];
}

-- Packet 0 is acknowledged, packet 1 is not.
abbrev busy : RetransmitCache
busy = record {
  histories = used ∷ valid (ping ∷ []) 100 ∷ replicate 126 invalid;
  start_seq = 0;
  retransmit_fragments = ping ∷ [];
}

mark_as_used-insert_example :
    (c' : RetransmitCache) × (insert 2 (ping ∷ []) 700 busy ≡ ok c')
    × ((mark_as_used 2 c').0 ≡ some (ping ∷ [], 700))
    × ((mark_as_used 2 (mark_as_used 2 c').1).0 ≡ none)
unfolding relative_index
mark_as_used-insert_example = mark_as_used-insert 2 700 (ping ∷ []) busy refl refl (omega arith)

mark_as_used_alias_example : mark_as_used (1 + 128) busy ≡ mark_as_used 1 busy
mark_as_used_alias_example = mark_as_used_alias 1 busy
