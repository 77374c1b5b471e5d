-- ===== src/Layer/Receive.antt =====
-- src/reliability/layer.rs: what the layer does with a datagram.
pub mod Ordering
pub mod Acks
pub mod Reliable
use ruknet.Base.{
  ℕ, ◌+◌, ◌-◌, ◌^◌, ◌%◌, Bool, true, false, Option, none, some, List, [], ◌∷◌, ◌++◌, ltb, leb, ◌==◌,
  if◌then◌else◌, length, set, get_or, replicate, Result, ok, err, fault, bind, map_err,
}
use ruknet.Error.{ruk_bytes, buffer_overflow}
use ruknet.Datagram.{Fragment, OrderingInfo, SplitInfo, Datagram, ack, nak, packet, calc_full_size}
use ruknet.Buf.{Buf}
use ruknet.Codec.Decode.{try_get_datagram}
use ruknet.Window.{add_u32, sub_u64}
use ruknet.Window
use ruknet.Cache
use ruknet.Congestion.{CongestionController}
use ruknet.Layer.{
  Layer, Outcome, Pieces, seq_window_size, reliable_window_size, ordering_channel_size,
}
use ruknet.Layer.Reassembly.{build_split_fragment}

abbrev pub usize : ℕ → ℕ
usize n = n % 2 ^ 64

-- The messages at the front of a channel's queue, up to the first that has not come: the queue that
-- is left, the channel's ordering index and the output.
unfoldable pub drain : Pieces → ℕ → List (List ℕ) → Pieces × ℕ × List (List ℕ)
drain [] index output = ([], index, output)
drain (none ∷ queue) index output = (none ∷ queue, index, output)
drain (some d ∷ queue) index output = drain queue (add_u32 index 1) (output ++ d ∷ [])

-- A message that is `distance` places past the next one but one.
unfoldable pub enqueue : Pieces → ℕ → List ℕ → Pieces
enqueue queue distance message =
    let resized = queue ++ replicate (distance + 1 - length queue) none in
    if ltb distance (length queue)
    then set queue distance (some message)
    else set resized distance (some message)

abbrev pub total_size : List Fragment → ℕ
total_size [] = 0
total_size (f ∷ fs) = calc_full_size f + total_size fs

module _ {C : Type 0} where
  abbrev pub push_output : List ℕ → Layer C → Layer C
  push_output message l = record l { output_queue = l.output_queue ++ message ∷ [] }

  -- A fragment with the ordering index that its channel waits for.
  unfoldable pub deliver_current : ℕ → Fragment → Layer C → Layer C
  deliver_current channel f l = elim f.sequence_index [
    | some sequence_index ↦
        if leb (get_or l.recv_sequence_index channel 0) sequence_index
        then push_output f.payload (record l {
          recv_sequence_index = set l.recv_sequence_index channel (add_u32 sequence_index 1);
        })
        else l
    | none ↦
        let (queue, index, output) =
          drain (get_or l.ordered_fragments channel [])
            (add_u32 (get_or l.recv_ordering_index channel 0) 1)
            (l.output_queue ++ f.payload ∷ []) in
        record l {
          ordered_fragments = set l.ordered_fragments channel queue;
          recv_ordering_index = set l.recv_ordering_index channel index;
          recv_sequence_index = set l.recv_sequence_index channel 0;
          output_queue = output;
        }
  ]

  unfoldable pub deliver_ordered : OrderingInfo → Fragment → Layer C → Layer C
  deliver_ordered info f l =
      let current = get_or l.recv_ordering_index info.channel 0 in
      let queue = get_or l.ordered_fragments info.channel [] in
      let queued : Layer C = record l {
        ordered_fragments =
            set l.ordered_fragments info.channel
              (enqueue queue (info.index - current - 1) f.payload);
      } in
      if ltb info.index current
      then l
      else if ltb current info.index
      then queued
      else deliver_current info.channel f l

  -- A channel past the arrays of 32 panics.
  unfoldable pub deliver : Fragment → Layer C → Outcome C (Layer C)
  deliver f l = elim f.ordering_info [
    | some info ↦
        if leb ordering_channel_size info.channel then fault else ok (deliver_ordered info f l)
    | none ↦ ok (push_output f.payload l)
  ]

  abbrev pub deliver_built : Option Fragment × Layer C → Outcome C (Layer C)
  deliver_built (none, l) = ok l
  deliver_built (some f, l) = deliver f l

  unfoldable pub reassemble : Fragment → Layer C → Outcome C (Layer C)
  reassemble f l = elim f.split_info [
    | some info ↦ bind (build_split_fragment info f l) deliver_built
    | none ↦ deliver f l
  ]

  abbrev pub accept : Fragment → Layer C → Bool × Window.Window (Unit {0}) → Outcome C (Layer C)
  accept f l (false, window) = ok l
  accept f l (true, window) =
      reassemble f (record l { reliable_window = (Window.shift reliable_window_size window).1 })

  unfoldable pub handle_fragment : Fragment → Layer C → Outcome C (Layer C)
  handle_fragment f l = elim f.reliable_index [
    | some index ↦
        bind
          (map_err (λ e. (buffer_overflow e, l))
            (Window.insert reliable_window_size index tt l.reliable_window))
          (accept f l)
    | none ↦ reassemble f l
  ]

  unfoldable pub handle_fragments : List Fragment → Layer C → Outcome C (Layer C)
  handle_fragments [] l = ok l
  handle_fragments (f ∷ fs) l = bind (handle_fragment f l) (handle_fragments fs)

module _ {C : Type 0} (controller : CongestionController C) where
  -- The sequence number is in the window: shift it, and ask for what is missing.
  abbrev pub note_missing : ℕ → Window.Window ℕ → Layer C → Layer C
  note_missing now window l =
      let (count, shifted) = Window.shift seq_window_size window in
      let rto = controller.get_rto l.congestion_controller in
      let (missing, swept) = Window.collect_missing seq_window_size now rto shifted in
      let asked : Layer C = record l { seq_window = swept; naks = l.naks ++ missing } in
      if count == 0 then asked else record l { seq_window = shifted }

  -- `on_recv_packet`, the acknowledgement, and the rate's flag.
  abbrev pub note_packet : ℕ → ℕ → Bool → Bool → ℕ → Layer C → Layer C
  note_packet now size continuous needs_rate seq l = record l {
    congestion_controller = controller.on_recv_packet l.congestion_controller now size continuous;
    needs_arrival_rate = needs_rate;
    acks = l.acks ++ seq ∷ [];
  }

  -- A number that is there already is answered with an acknowledgement like a new one.
  unfoldable pub handle_packet :
      ℕ → ℕ → Bool → Bool → ℕ → List Fragment → Layer C → Outcome C (Layer C)
  handle_packet now size continuous needs_rate seq fragments l =
      bind
        (map_err (λ e. (buffer_overflow e, l)) (Window.insert seq_window_size seq now l.seq_window))
        λ (_, window).
          handle_fragments fragments
            (note_packet now size continuous needs_rate seq (note_missing now window l))

  abbrev pub acked : ℕ → Option ℕ → ℕ → List Fragment → ℕ → Layer C → Layer C
  acked now arrival_rate seq fragments time_sent l = record l {
    congestion_controller =
        controller.on_recv_ack l.congestion_controller now (sub_u64 now time_sent) arrival_rate
          l.total_bytes_acked seq l.bandwidth_exceeded;
    total_bytes_acked = usize (l.total_bytes_acked + total_size fragments);
  }

  unfoldable pub ack_one : ℕ → Option ℕ → ℕ → Layer C → Layer C
  ack_one now arrival_rate seq l =
      let (taken, cache) = Cache.mark_as_used seq l.retransmit_cache in
      elim taken [
        | some (fragments, time_sent) ↦
            acked now arrival_rate seq fragments time_sent (record l { retransmit_cache = cache })
        | none ↦ record l { retransmit_cache = cache }
      ]

  unfoldable pub ack_all : ℕ → Option ℕ → List ℕ → Layer C → Layer C
  ack_all now arrival_rate [] l = l
  ack_all now arrival_rate (seq ∷ seqs) l =
      ack_all now arrival_rate seqs (ack_one now arrival_rate seq l)

  abbrev pub shift_cache : Layer C → Layer C
  shift_cache l = record l { retransmit_cache = (Cache.shift l.retransmit_cache).1 }

  unfoldable pub handle_ack : ℕ → Option ℕ → List ℕ → Layer C → Layer C
  handle_ack now arrival_rate seqs l = shift_cache (ack_all now arrival_rate seqs l)

  unfoldable pub nak_one : ℕ → Layer C → Layer C
  nak_one seq l =
      let (taken, cache) = Cache.mark_as_used seq l.retransmit_cache in
      elim taken [
        | some (fragments, time_sent) ↦ record l {
          congestion_controller = controller.on_recv_nak l.congestion_controller;
          retransmit_cache = Cache.extend_retransmit_fragments fragments cache;
        }
        | none ↦ record l { retransmit_cache = cache }
      ]

  unfoldable pub nak_all : List ℕ → Layer C → Layer C
  nak_all [] l = l
  nak_all (seq ∷ seqs) l = nak_all seqs (nak_one seq l)

  unfoldable pub hanlde_nak : List ℕ → Layer C → Layer C
  hanlde_nak seqs l = shift_cache (nak_all seqs l)

  abbrev pub dispatch : ℕ → ℕ → Datagram → Layer C → Outcome C (Layer C)
  dispatch now size (ack arrival_rate seqs) l = ok (handle_ack now arrival_rate seqs l)
  dispatch now size (nak seqs) l = ok (hanlde_nak seqs l)
  dispatch now size (packet pair continuous needs_rate seq fragments) l =
      handle_packet now size continuous needs_rate seq fragments l

  unfoldable pub handle_datagram : Buf → ℕ → List ℕ → Layer C → Outcome C (Layer C)
  handle_datagram buf now message l =
      bind (map_err (λ e. (ruk_bytes e, l)) (try_get_datagram buf message)) λ (datagram, rest).
        dispatch now (length message) datagram (record l { time_last_datagram_recved = now })
