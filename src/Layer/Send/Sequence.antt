-- ===== src/Layer/Send/Sequence.antt =====
-- The sequence and ordering indices that a sender gives, and what a receiver makes of them.
use ruknet.Base.{
  ℕ, ◌+◌, ◌^◌, ◌≤◌, ◌<◌, ◌≡◌, ◌≢◌, refl, true, false, none, some, List, [], ◌∷◌, ◌++◌, arith,
  length, get_or, get_or-set, set, ok, Bool-cases, inl, inr, subst, sym,
}
use ruknet.Reliability.{Reliability, is_sequenced, is_ordered}
use ruknet.Datagram.{Fragment}
use ruknet.Window.{add_u32}
use ruknet.Layer.{Layer, ordering_channel_size}
use ruknet.Layer.Send.{stamp}
use ruknet.Layer.Receive.{deliver, deliver_ordered, deliver_current}
use ruknet.Layer.Receive.Ordering.{IsBlocked, HasChannels, advanced, deliver-eq}

module _ {C : Type 0} where
  -- The receiver waits for what the sender sends next on the channel, and nothing that it has kept is
  -- ready.
  pub record InSync (channel : ℕ) (sender receiver : Layer C) : Type 0 where
    pub ordering :
        get_or receiver.recv_ordering_index channel 0 ≡ get_or sender.send_ordering_index channel 0
    pub sequence : get_or receiver.recv_sequence_index channel 0 ≤ sender.send_sequence_index
    pub blocked : IsBlocked (get_or receiver.ordered_fragments channel [])

  -- Short of wrapping.
  pub record HasRoom (channel : ℕ) (sender : Layer C) : Type 0 where
    pub channels : length sender.send_ordering_index ≡ ordering_channel_size
    pub ordering_room : get_or sender.send_ordering_index channel 0 + 1 < 2 ^ 32
    pub sequence_room : sender.send_sequence_index + 1 < 2 ^ 32

  deliver_sequenced :
      (reliability : Reliability) (channel : ℕ) (message : List ℕ) (sender receiver : Layer C)
      → HasChannels receiver
      → HasRoom channel sender
      → channel < ordering_channel_size
      → InSync channel sender receiver
      → is_sequenced reliability ≡ true
      → let (f, sender') = stamp reliability channel message sender in
        (receiver' : Layer C) × (deliver f receiver ≡ ok receiver')
        × (receiver'.output_queue ≡ receiver.output_queue ++ message ∷ [])
        × InSync channel sender' receiver'
  unfolding stamp deliver deliver_ordered deliver_current
  deliver_sequenced reliability channel message s r v room c sync seq = (
    record r {
      recv_sequence_index = set r.recv_sequence_index channel (add_u32 s.send_sequence_index 1);
      output_queue = r.output_queue ++ message ∷ [];
    },
    ground (arith, sync),
    refl,
    record {
      ordering = ground (arith, sync);
      sequence = ground (
        arith,
        get_or-set r.recv_sequence_index channel channel (add_u32 s.send_sequence_index 1) 0
            (omega arith),
      );
      blocked = sync.blocked;
    },
  )

  deliver_plain_ordered :
      (reliability : Reliability) (channel : ℕ) (message : List ℕ) (s r : Layer C)
      → HasChannels r
      → HasRoom channel s
      → channel < ordering_channel_size
      → InSync channel s r
      → is_sequenced reliability ≡ false
      → is_ordered reliability ≡ true
      → let (f, s') = stamp reliability channel message s in
        (r' : Layer C) × (deliver f r ≡ ok r')
        × (r'.output_queue ≡ r.output_queue ++ message ∷ [])
        × InSync channel s' r'
  unfolding stamp
  deliver_plain_ordered reliability channel message s r v room c sync plain ord =
      let index = get_or s.send_ordering_index channel 0 in
      let queue = get_or r.ordered_fragments channel [] in
      let f : Fragment = record {
        reliability = reliability;
        reliable_index = none;
        sequence_index = none;
        ordering_info = some (record { index = index; channel = channel });
        split_info = none;
        payload = message;
      } in
      let e =
        deliver-eq r f channel index [] queue c refl refl sync.ordering refl sync.blocked
          (omega (arith, room)) in
      let same : get_or (set r.ordered_fragments channel queue) channel [] ≡ queue =
        ground (arith, get_or-set r.ordered_fragments channel channel queue [] (omega arith)) in
      (
        advanced r channel (index + 1 + 0) queue (r.output_queue ++ message ∷ []),
        ground (arith, e),
        refl,
        record {
          ordering = ground (
            arith,
            room,
            get_or-set r.recv_ordering_index channel channel (index + 1 + 0) 0 (omega arith),
            get_or-set s.send_ordering_index channel channel (add_u32 index 1) 0
                (omega (arith, room)),
          );
          sequence =
              ground (arith, get_or-set r.recv_sequence_index channel channel 0 0 (omega arith));
          blocked = subst (λ q. IsBlocked q) (sym same) sync.blocked;
        },
      )

  deliver_unordered :
      (reliability : Reliability) (channel : ℕ) (message : List ℕ) (s r : Layer C)
      → InSync channel s r
      → is_sequenced reliability ≡ false
      → is_ordered reliability ≡ false
      → let (f, s') = stamp reliability channel message s in
        (r' : Layer C) × (deliver f r ≡ ok r')
        × (r'.output_queue ≡ r.output_queue ++ message ∷ [])
        × InSync channel s' r'
  unfolding stamp deliver
  deliver_unordered reliability channel message s r sync plain free = (
    record r { output_queue = r.output_queue ++ message ∷ [] },
    ground arith,
    refl,
    record {
      ordering = ground (arith, sync);
      sequence = ground (arith, sync);
      blocked = sync.blocked;
    },
  )

  -- If sender and receiver are in step on a channel below 32, short of wrapping, a message that
  -- is sent on it and comes next is delivered at once, whatever its reliability, and they stay in
  -- step on that channel.
  pub deliver-stamp :
      (reliability : Reliability) (channel : ℕ) (message : List ℕ) (s r : Layer C)
      → HasChannels r
      → HasRoom channel s
      → channel < ordering_channel_size
      → InSync channel s r
      → let (f, s') = stamp reliability channel message s in
        (r' : Layer C) × (deliver f r ≡ ok r')
        × (r'.output_queue ≡ r.output_queue ++ message ∷ [])
        × InSync channel s' r'
  deliver-stamp reliability channel message s r v room c sync =
      elim (Bool-cases (is_sequenced reliability)) [
        | inl seq ↦ deliver_sequenced reliability channel message s r v room c sync seq
        | inr plain ↦ elim (Bool-cases (is_ordered reliability)) [
          | inl ord ↦ deliver_plain_ordered reliability channel message s r v room c sync plain ord
          | inr free ↦ deliver_unordered reliability channel message s r sync plain free
        ]
      ]

  -- The sequence counter is one for all channels: after an ordered message on another channel the
  -- next sequenced message of a channel in step, on which the receiver has had a sequenced one,
  -- is dropped by the receiver, though it is the channel's newest.
  pub deliver-stamp_dropped :
      (ordered sequenced : Reliability) (here there : ℕ) (message message' : List ℕ) (s r : Layer C)
      → is_sequenced ordered ≡ false
      → is_ordered ordered ≡ true
      → is_sequenced sequenced ≡ true
      → here < ordering_channel_size
      → there < ordering_channel_size
      → here ≢ there
      → length s.send_ordering_index ≡ ordering_channel_size
      → InSync here s r
      → 0 < get_or r.recv_sequence_index here 0
      → let s' = (stamp ordered there message s).1 in
        deliver (stamp sequenced here message' s').0 r ≡ ok r
  unfolding stamp deliver deliver_ordered deliver_current
  deliver-stamp_dropped ordered sequenced here there message message' s r plain ord seq h t ne n
        sync had =
      ground (
        arith,
        sync,
        get_or-set s.send_ordering_index there here
            (add_u32 (get_or s.send_ordering_index there 0) 1) 0 (omega arith),
      )
