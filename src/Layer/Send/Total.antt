-- ===== src/Layer/Send/Total.antt =====
-- src/reliability/layer.rs: a message that is sent over a connection always reaches the queue.
use ruknet.Base.{
  ℕ, zero, suc, ◌+◌, ◌^◌, ◌≤◌, ◌<◌, ◌≡◌, ◌∙◌, refl, Bool, true, false, leb, if◌then◌else◌, some,
  List, [], min, take, drop, length, ◌%◌, arith, ltb, ◌==◌, ok, Bool-cases, inl, inr,
}
use ruknet.Reliability.{Priority, Reliability, is_sequenced, is_ordered}
use ruknet.Datagram.{Fragment, calc_header_size, calc_full_size}
use ruknet.Layer.{Layer, ordering_channel_size}
use ruknet.Layer.Send.{
  get_next_weight, push_outgoing, split_loop, split_size_of, allowed_of, split_fragment, stamp,
  send, init_next_weight,
}

-- Channel 0 is one of the 32.
has_channel : (routed : Bool) → (if routed then leb ordering_channel_size 0 else false) ≡ false
has_channel routed = ground arith

module _ {C : Type 0} where
  push_outgoing-size :
      (priority : Priority) (f : Fragment) (l : Layer C)
      → (push_outgoing priority f l).max_size_of_packet ≡ l.max_size_of_packet
  unfolding get_next_weight init_next_weight
  push_outgoing-size priority f l = ground arith

  split_loop-size :
      (left i size allowed : ℕ) (priority : Priority) (base : Fragment) (message : List ℕ)
      (l : Layer C)
      → (split_loop left i size allowed priority base message l).max_size_of_packet
        ≡ l.max_size_of_packet
  unfolding split_loop
  split_loop-size zero i size allowed priority base message l = refl
  split_loop-size (suc left) i size allowed priority base message l =
      let n = min (length message) allowed in
      let piece : Fragment = record base {
        split_info =
            some (record { size = size % 2 ^ 32; id = l.send_split_id; index = i % 2 ^ 32 });
        payload = take n message;
      } in
      split_loop-size left (i + 1) size allowed priority base (drop n message)
        (push_outgoing priority piece l)
      ∙ push_outgoing-size priority piece l

  split_fragment-goes :
      (priority : Priority) (f : Fragment) (l : Layer C)
      → calc_header_size (record f { payload = [] }) ≤ 13
      → 24 ≤ l.max_size_of_packet
      → l.max_size_of_packet < 2 ^ 64
      → (l' : Layer C) × (split_fragment priority f l ≡ ok l')
        × (l'.max_size_of_packet ≡ l.max_size_of_packet)
  unfolding split_fragment
  split_fragment-goes priority f l small low high =
      let allowed = allowed_of l f in
      let size = split_size_of (length f.payload) allowed in
      let empty : Fragment = record f { payload = [] } in
      let l' = split_loop size 0 size allowed priority empty f.payload l in
      let positive : (allowed == 0) ≡ false = ground arith in
      (
        record l' { send_split_id = (l'.send_split_id + 1) % 2 ^ 16 },
        rw positive refl,
        split_loop-size size 0 size allowed priority empty f.payload l,
      )

  stamp-small :
      (reliability : Reliability) (message : List ℕ) (l : Layer C)
      → (calc_header_size (record (stamp reliability 0 message l).0 { payload = [] }) ≤ 13)
        × ((stamp reliability 0 message l).1.max_size_of_packet ≡ l.max_size_of_packet)
  unfolding stamp calc_header_size
  stamp-small reliability message l = (ground arith, ground arith)

  -- Over channel 0, with packets of 24 bytes or more.
  pub send-goes :
      (priority : Priority) (reliability : Reliability) (message : List ℕ) (l : Layer C)
      → 24 ≤ l.max_size_of_packet
      → l.max_size_of_packet < 2 ^ 64
      → (l' : Layer C) × (send priority reliability 0 message l ≡ ok l')
        × (l'.max_size_of_packet ≡ l.max_size_of_packet)
  unfolding send
  send-goes priority reliability message l low high =
      let (f, stamped) = stamp reliability 0 message l in
      let (small, kept) = stamp-small reliability message l in
      let routed =
        has_channel (if is_sequenced reliability then true else is_ordered reliability) in
      let (l', e, size) =
        split_fragment-goes priority f stamped small (rw kept low) (rw kept high) in
      elim (Bool-cases (ltb stamped.max_size_of_packet (calc_full_size f))) [
        | inl large ↦ (l', rw (routed, large) e, size ∙ kept)
        | inr fits ↦ (
          push_outgoing priority f stamped,
          rw (routed, fits) refl,
          push_outgoing-size priority f stamped ∙ kept,
        )
      ]
