-- ===== src/Layer/Send/Wire.antt =====
-- A message that is sent whole, from src/reliability/layer.rs, over the wire of src/proto/bytes.rs.
use ruknet.Base.{
  ℕ, ◌+◌, ◌^◌, ◌≤◌, ◌<◌, ◌≡◌, ◌∙◌, refl, List, [], ◌∷◌, ◌++◌, arith, length, get_or, ok, Bool-cases,
  inl, inr,
}
use ruknet.Buf.{Buf, IsBuf}
use ruknet.Reliability.{Priority, Reliability, is_reliable}
use ruknet.Datagram.{Fragment, calc_full_size}
use ruknet.Codec.Decode.{try_get_fragment}
use ruknet.Codec.Encode.{put_fragment}
use ruknet.Codec.Fragments.{IsWire, try_get_fragment-put_fragment}
use ruknet.Layer.{Layer, ordering_channel_size}
use ruknet.Layer.Send.{stamp, send, get_next_weight, init_next_weight, push_outgoing}
use ruknet.Layer.Send.Sequence.{InSync, HasRoom, deliver-stamp}
use ruknet.Layer.Receive.{deliver, deliver_ordered, deliver_current}
use ruknet.Layer.Receive.Ordering.{HasChannels}
use ruknet.Layer.Update.{number_reliable}

module _ {C : Type 0} where
  -- The indices that follow fit the 24 bits that they have on the wire.
  pub record FitsWire (channel : ℕ) (s : Layer C) : Type 0 where
    pub channels : length s.send_ordering_index ≡ ordering_channel_size
    pub ordering_fits : get_or s.send_ordering_index channel 0 + 1 < 2 ^ 24
    pub sequence_fits : s.send_sequence_index + 1 < 2 ^ 24

  numbered-IsWire :
      (reliability : Reliability) (channel number : ℕ) (message : List ℕ) (s : Layer C)
      → FitsWire channel s
      → channel < ordering_channel_size
      → number < 2 ^ 24
      → length message < 2 ^ 13
      → IsWire (number_reliable (stamp reliability channel message s).0 number).0
  unfolding stamp number_reliable
  numbered-IsWire reliability channel number message s fits c n short = record {
    has_reliable = ground arith;
    has_sequence = ground arith;
    has_ordering = ground arith;
    fits_reliable = ground arith;
    fits_sequence = ground (arith, fits.sequence_fits);
    fits_ordering = ground (arith, fits.ordering_fits);
    fits_split = ground arith;
    fits_payload = ground arith;
  }

  deliver-number_reliable :
      (f : Fragment) (number : ℕ) (r : Layer C)
      → deliver (number_reliable f number).0 r ≡ deliver f r
  unfolding number_reliable deliver deliver_ordered deliver_current
  deliver-number_reliable f number r = elim (Bool-cases (is_reliable f.reliability)) [
    | inl e ↦ rw e refl
    | inr e ↦ rw e refl
  ]

  push_outgoing-InSync :
      (channel : ℕ) (priority : Priority) (f : Fragment) (s r : Layer C)
      → InSync channel s r
      → InSync channel (push_outgoing priority f s) r
  unfolding get_next_weight init_next_weight
  push_outgoing-InSync channel priority f s r sync = record {
    ordering = ground (arith, sync);
    sequence = ground (arith, sync);
    blocked = sync.blocked;
  }

  send_whole :
      (priority : Priority) (reliability : Reliability) (channel : ℕ) (message : List ℕ)
      (s : Layer C)
      → channel < ordering_channel_size
      → calc_full_size (stamp reliability channel message s).0 ≤ s.max_size_of_packet
      → let (f, s') = stamp reliability channel message s in
        send priority reliability channel message s ≡ ok (push_outgoing priority f s')
  unfolding send stamp
  send_whole priority reliability channel message s c whole = ground arith

module _ {C : Type 0} (b : Buf) (laws : IsBuf b) where
  -- A message of fewer than 2^13 bytes that is sent whole on a channel below 32, and whose fragment
  -- then gets a reliable index and is written, is read back, whatever bytes follow, and delivered by
  -- a receiver in step on the channel; both stay in step. The indices are short of 2^24.
  pub deliver-send :
      (priority : Priority) (reliability : Reliability) (channel number : ℕ) (message rest : List ℕ)
      (s r : Layer C)
      → HasChannels r
      → FitsWire channel s
      → number < 2 ^ 24
      → length message < 2 ^ 13
      → channel < ordering_channel_size
      → calc_full_size (stamp reliability channel message s).0 ≤ s.max_size_of_packet
      → InSync channel s r
      → let (f, s') = stamp reliability channel message s in
        let sent = push_outgoing priority f s' in
        let g = (number_reliable f number).0 in
        (send priority reliability channel message s ≡ ok sent)
        × (try_get_fragment b (put_fragment b g [] ++ rest) ≡ ok (g, rest))
        × ((r' : Layer C) × (deliver g r ≡ ok r')
            × (r'.output_queue ≡ r.output_queue ++ message ∷ [])
            × InSync channel sent r')
  deliver-send priority reliability channel number message rest s r v fits n short c whole sync =
      let (f, s') = stamp reliability channel message s in
      let room : HasRoom channel s = record {
        channels = fits.channels;
        ordering_room = omega (arith, fits.ordering_fits);
        sequence_room = omega (arith, fits.sequence_fits);
      } in
      let (r', e, out, sync') = deliver-stamp reliability channel message s r v room c sync in
      (
        send_whole priority reliability channel message s c whole,
        try_get_fragment-put_fragment b laws (number_reliable f number).0 rest
            (numbered-IsWire reliability channel number message s fits c n short),
        (
          r',
          deliver-number_reliable f number r ∙ e,
          out,
          push_outgoing-InSync channel priority f s' r' sync',
        ),
      )
