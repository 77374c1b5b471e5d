-- ===== src/Reliability.antt =====
-- src/reliability/fragment.rs: how a message is to be delivered, and how urgent it is.
pub mod Laws
use ruknet.Base.{ℕ, Bool, true, false, Option, none, some, ◌==◌, if◌then◌else◌}

pub data Reliability : Type 0 where
  unreliable : Reliability
  unreliable_sequenced : Reliability
  reliable : Reliability
  reliable_ordered : Reliability
  reliable_sequenced : Reliability
  unreliable_with_ack_receipt : Reliability
  reliable_with_ack_receipt : Reliability
  reliable_ordered_with_ack_receipt : Reliability

unfoldable pub from_u8 : ℕ → Option Reliability
from_u8 value =
    if value == 0
    then some unreliable
    else if value == 1
    then some unreliable_sequenced
    else if value == 2
    then some reliable
    else if value == 3
    then some reliable_ordered
    else if value == 4
    then some reliable_sequenced
    else if value == 5
    then some unreliable_with_ack_receipt
    else if value == 6
    then some reliable_with_ack_receipt
    else if value == 7
    then some reliable_ordered_with_ack_receipt
    else none

unfoldable pub to_u8 : Reliability → ℕ
to_u8 unreliable = 0
to_u8 unreliable_sequenced = 1
to_u8 reliable = 2
to_u8 reliable_ordered = 3
to_u8 reliable_sequenced = 4
to_u8 unreliable_with_ack_receipt = 5
to_u8 reliable_with_ack_receipt = 6
to_u8 reliable_ordered_with_ack_receipt = 7

unfoldable pub is_reliable : Reliability → Bool
is_reliable reliable = true
is_reliable reliable_ordered = true
is_reliable reliable_sequenced = true
is_reliable reliable_with_ack_receipt = true
is_reliable reliable_ordered_with_ack_receipt = true
is_reliable _ = false

unfoldable pub is_sequenced : Reliability → Bool
is_sequenced unreliable_sequenced = true
is_sequenced reliable_sequenced = true
is_sequenced _ = false

unfoldable pub is_ordered : Reliability → Bool
is_ordered reliable_ordered = true
is_ordered reliable_ordered_with_ack_receipt = true
is_ordered _ = false

unfoldable pub reliablize : Reliability → Reliability
reliablize unreliable = reliable
reliablize unreliable_sequenced = reliable_sequenced
reliablize unreliable_with_ack_receipt = reliable_with_ack_receipt
reliablize r = r

-- The declaration order is the urgency: `priority as usize` is the position.
pub data Priority : Type 0 where
  immediate high medium low : Priority

abbrev pub priority_count : ℕ
priority_count = 4

unfoldable pub priority_index : Priority → ℕ
priority_index immediate = 0
priority_index high = 1
priority_index medium = 2
priority_index low = 3
