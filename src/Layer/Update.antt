-- ===== src/Layer/Update.antt =====
-- src/reliability/layer.rs, `update`: what a layer sends when its time comes. The socket is a
-- parameter: `send_to` says with which error a datagram fails to be sent, if it does.
pub mod Fill
use ruknet.Base.{
  ℕ, ◌+◌, ◌%◌, ◌^◌, Bool, true, false, not, ◌&&◌, ◌||◌, Option, none, some, List, [], ◌∷◌, ◌++◌,
  ltb, leb, if◌then◌else◌, Result, ok, err, fault, bind,
}
use ruknet.Error.{LayerError, buffer_overflow, failed_to_send}
use ruknet.Buf.{Buf}
use ruknet.Reliability.{is_reliable}
use ruknet.Datagram.{Fragment, Datagram, ack, nak, packet, calc_full_size}
use ruknet.Codec.Encode.{put_datagram}
use ruknet.Window.{add_u32, sub_u64}
use ruknet.Cache.{is_nil, is_empty, get_retransmit_fragments, insert}
use ruknet.Congestion.{CongestionController}
use ruknet.Layer.{Layer, OutgoingFragment}

-- The packets as they are filled: `all_datagram_sizes`, the current packet with its size, and the
-- packets that are full with theirs.
pub record Packing : Type 0 where
  pub all_datagram_sizes : ℕ
  pub current_packet_size : ℕ
  pub current_packet : List Fragment
  pub packets : List (List Fragment × ℕ)

abbrev pub nothing_packed : Packing
nothing_packed = record {
  all_datagram_sizes = 0;
  current_packet_size = 0;
  current_packet = [];
  packets = [];
}

-- The current packet is closed.
abbrev pub close_packet : Packing → Packing
close_packet p = record p {
  current_packet_size = 0;
  current_packet = [];
  packets = p.packets ++ (p.current_packet, p.current_packet_size) ∷ [];
}

-- One more fragment of `size` bytes, in a packet of its own if the current one would get too long.
unfoldable pub pack : ℕ → Fragment → ℕ → Packing → Packing
pack max_size f size p0 =
    let p = if ltb max_size (p0.current_packet_size + size) then close_packet p0 else p0 in
    record p {
      all_datagram_sizes = p.all_datagram_sizes + size;
      current_packet_size = p.current_packet_size + size;
      current_packet = p.current_packet ++ f ∷ [];
    }

-- Both loops stop at a fragment that is over the bandwidth.
abbrev pub has_bandwidth : ℕ → ℕ → Packing → Bool
has_bandwidth bandwidth size p =
    ltb p.all_datagram_sizes bandwidth && leb (p.all_datagram_sizes + size) bandwidth

module _ {C : Type 0} (controller : CongestionController C) where
  -- The fragments to send again: those left, the controller and the packets.
  unfoldable pub resend_loop : ℕ → ℕ → ℕ → List Fragment → C → Packing → List Fragment × C × Packing
  resend_loop now bandwidth max_size [] c p = ([], c, p)
  resend_loop now bandwidth max_size (f ∷ fs) c p =
      let size = calc_full_size f in
      let rest =
        resend_loop now bandwidth max_size fs (controller.on_resend c now)
          (pack max_size f size p) in
      if has_bandwidth bandwidth size p then rest else (f ∷ fs, c, p)

-- A fragment on its way out gets its reliable index.
unfoldable pub number_reliable : Fragment → ℕ → Fragment × ℕ
number_reliable f index =
    if is_reliable f.reliability
    then (record f { reliable_index = some index }, add_u32 index 1)
    else (f, index)

-- The queue: what is left of it, the next reliable index and the packets.
unfoldable pub outgoing_loop :
    ℕ → ℕ → List OutgoingFragment → ℕ → Packing → List OutgoingFragment × ℕ × Packing
outgoing_loop bandwidth max_size [] index p = ([], index, p)
outgoing_loop bandwidth max_size (o ∷ os) index p =
    let size = calc_full_size o.fragment in
    let (f, index') = number_reliable o.fragment index in
    let rest = outgoing_loop bandwidth max_size os index' (pack max_size f size p) in
    if has_bandwidth bandwidth size p then rest else (o ∷ os, index, p)

abbrev pub finish_packing : Packing → List (List Fragment × ℕ)
finish_packing p = if is_nil p.current_packet then p.packets else (close_packet p).packets

abbrev pub reliable_only : List Fragment → List Fragment
reliable_only [] = []
reliable_only (f ∷ fs) =
    let others = reliable_only fs in if is_reliable f.reliability then f ∷ others else others

-- A layer and the datagrams that it has sent; an error leaves both as they are then.
abbrev pub Wire : Type 0 → Type 0
Wire C = Layer C × List (List ℕ)

abbrev pub Sending : Type 0 → Type 0
Sending C = Result (LayerError × Wire C) (Wire C)

module _ {C : Type 0} (controller : CongestionController C) (buf : Buf)
    (send_to : List ℕ → Option ℕ) where
  unfoldable pub send_datagram : Datagram → Wire C → Sending C
  send_datagram datagram (l, sent) = elim (put_datagram buf datagram []) [
    | some reply_buf ↦ elim (send_to reply_buf) [
      | none ↦ ok (l, sent ++ reply_buf ∷ [])
      | some e ↦ err (failed_to_send e, (l, sent))
    ]
    | none ↦ fault
  ]

  -- The layer is dead when what it sent is unanswered for longer than the timeout.
  unfoldable pub mark_dead : ℕ → Layer C → Layer C
  mark_dead now l =
      let silent = ltb l.timeout (sub_u64 now l.time_last_datagram_recved) in
      record l {
        last_update = now;
        is_dead = if not (is_empty l.retransmit_cache) && silent then true else l.is_dead;
      }

  unfoldable pub flush_acks : ℕ → ℕ → Layer C → Sending C
  flush_acks now elapsed l =
      let (arrival_rate, c) =
        controller.on_send_ack l.congestion_controller l.needs_arrival_rate none in
      let due = controller.should_send_ack l.congestion_controller now elapsed in
      if due && not (is_nil l.acks)
      then send_datagram (ack arrival_rate l.acks)
          (record l { acks = []; congestion_controller = c }, [])
      else ok (l, [])

  unfoldable pub flush_naks : Wire C → Sending C
  flush_naks (l, sent) =
      if is_nil l.naks
      then ok (l, sent)
      else send_datagram (nak l.naks) (record l { naks = [] }, sent)

  -- A datagram that is sent is kept with its reliable fragments.
  abbrev pub keep_sent : ℕ → ℕ → List Fragment → Wire C → Sending C
  keep_sent now seq fragments (l, sent) =
      elim (insert seq (reliable_only fragments) now l.retransmit_cache) [
        | ok cache ↦ ok (record l { retransmit_cache = cache }, sent)
        | err e ↦ err (buffer_overflow e, (l, sent))
        | fault ↦ fault
      ]

  unfoldable pub send_packets : ℕ → Bool → List (List Fragment × ℕ) → Wire C → Sending C
  send_packets now needs_rate [] w = ok w
  send_packets now needs_rate ((fragments, size) ∷ packets) (l, sent) =
      let (seq, c) = controller.get_seq_and_increment l.congestion_controller in
      let l' : Layer C = record l { congestion_controller = controller.on_send_packet c size } in
      bind (send_datagram (packet false true needs_rate seq fragments) (l', sent))
        λ w. bind (keep_sent now seq fragments w) λ w. send_packets now needs_rate packets w

  -- `bandwidth_exceeded` is what it was before this update for `continuous`, and what is queued now.
  unfoldable pub transmit : ℕ → ℕ → Bool → Wire C → Sending C
  transmit now elapsed continuous (l, sent) =
      let needs_rate = controller.is_in_slow_start l.congestion_controller in
      let (bandwidth, c) =
        controller.get_transmission_bandwidth l.congestion_controller now elapsed continuous in
      let cache = get_retransmit_fragments now (controller.get_rto c) l.retransmit_cache in
      let (left, c', p) =
        resend_loop controller now bandwidth l.max_size_of_packet cache.retransmit_fragments c
          nothing_packed in
      let (queue, index, p') =
        outgoing_loop bandwidth l.max_size_of_packet l.outgoing_queue l.send_reliable_index p in
      let l' : Layer C = record l {
        congestion_controller = c';
        retransmit_cache = record cache { retransmit_fragments = left };
        outgoing_queue = queue;
        send_reliable_index = index;
      } in
      bind (send_packets now needs_rate (finish_packing p') (l', sent))
        λ (l, sent). ok (record l { bandwidth_exceeded = not (is_nil l.outgoing_queue) }, sent)

  unfoldable pub update : ℕ → Layer C → Sending C
  update now l0 =
      let elapsed = sub_u64 now l0.last_update in
      bind (flush_acks now elapsed (mark_dead now l0)) λ w. bind (flush_naks w) λ (l, sent).
        let exceeded = not (is_nil l.outgoing_queue) in
        let l' : Layer C = record l { bandwidth_exceeded = exceeded } in
        if not (is_empty l.retransmit_cache) || exceeded
        then transmit now elapsed l.bandwidth_exceeded (l', sent)
        else ok (l', sent)
