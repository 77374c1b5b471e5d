-- ===== src/Layer/Tests.antt =====
-- Runs of the layer with a controller of a fixed window, and the layer's theorems at concrete inputs.
use mathlib.Core.List.{Perm}
use ruknet.Base.{
  ℕ, ◌+◌, ◌%◌, ◌^◌, ◌≤◌, ◌<◌, ◌≡◌, refl, true, false, none, some, List, [], ◌∷◌, ◌++◌, arith,
  get_or, set, replicate, ok, if◌then◌else◌,
}
use ruknet.Buf.{list_buf}
use ruknet.Buf.Laws.{list_buf-IsBuf}
use ruknet.Reliability.{
  unreliable, unreliable_sequenced, reliable_ordered, high, priority_index, is_sequenced,
  is_ordered, is_reliable,
}
use ruknet.Datagram.{Fragment, SplitInfo, calc_header_size, calc_full_size}
use ruknet.Window.{Window, new}
use ruknet.Window.Inv.{IsValid, received, new-IsValid}
use ruknet.Layer.{reliable_window_size}
use ruknet.Layer.Receive.{handle_fragment, reassemble}
use ruknet.Layer.Receive.Reliable.{handle_fragment_once}
use ruknet.Cache.{valid, used, invalid}
use ruknet.Cache.Pending.{IsSized, pending}
use ruknet.Congestion.{CongestionController}
use ruknet.Layer.{Layer, OutgoingFragment, Pieces}
use ruknet.Layer.Reassembly.{find, all_some, build_split_fragment}
use ruknet.Layer.Reassembly.Laws.{Agrees, concat, build_split_fragment-Agrees}
use ruknet.Layer.Receive.{total_size, deliver, handle_ack, hanlde_nak}
use ruknet.Layer.Receive.Ordering.{
  HasChannels, deliver_each, in_order, deliver-ready, deliver_each-in_order,
}
use ruknet.Layer.Receive.Acks.{acked_fragments, hanlde_nak-pending, handle_ack-pending}
use ruknet.Layer.Send.{
  push_outgoing, send, split_fragment, stamp, priority_factor, get_next_weight, weight_after,
}
use ruknet.Layer.Send.Split.{AllFit, queued, payloads, pieces_of, split_fragment-lem}
use ruknet.Codec.Decode.{try_get_fragment}
use ruknet.Codec.Encode.{put_fragment}
use ruknet.Layer.Send.Wire.{FitsWire, deliver-send}
use ruknet.Layer.Send.Sequence.{InSync, deliver-stamp_dropped}
use ruknet.Layer.Send.Weights.{get_next_weight-lt}
use ruknet.Layer.RoundTrip.{build_each, build_each-pieces_of}
use ruknet.Layer.Update.{
  number_reliable, nothing_packed, resend_loop, outgoing_loop, finish_packing,
}
use ruknet.Layer.Update.Fill.{Fits, sizes, fragments_of, unnumbered, finish_packing-lem}

-- The state counts the packets.
abbrev fixed : CongestionController ℕ
fixed = record {
  new = λ _. 0;
  should_send_ack = λ _ _ _. true;
  is_in_slow_start = λ _. false;
  get_seq_and_increment = λ c. (c, c + 1);
  get_transmission_bandwidth = λ c _ _ _. (5000, c);
  get_rto = λ _. 1000;
  on_resend = λ c _. c;
  on_recv_ack = λ c _ _ _ _ _ _. c;
  on_recv_nak = λ c. c;
  on_recv_packet = λ c _ _ _. c;
  on_send_ack = λ c _ rate. (rate, c);
  on_send_packet = λ c _. c;
}

abbrev ping : Fragment
ping = record {
  reliability = unreliable;
  reliable_index = none;
  sequence_index = none;
  ordering_info = none;
  split_info = none;
  payload = 1 ∷ 2 ∷ 3 ∷ 4 ∷ 5 ∷ 6 ∷ 7 ∷ 8 ∷ 9 ∷ 10 ∷ [];
}

abbrev idle : Layer ℕ
idle = record {
  max_size_of_packet = 20;
  bandwidth_exceeded = false;
  needs_arrival_rate = false;
  is_dead = false;
  timeout = 10000;
  last_update = 0;
  time_last_datagram_recved = 0;
  total_bytes_acked = 0;
  acks = [];
  naks = [];
  outgoing_queue = [];
  outgoing_next_weight = replicate 4 0;
  output_queue = [];
  retransmit_cache = record {
    histories = used ∷ valid (ping ∷ []) 100 ∷ replicate 126 invalid;
    start_seq = 0;
    retransmit_fragments = [];
  };
  seq_window = record { buf = replicate 128 none; start_index = 0; furthest_index = none };
  reliable_window = record { buf = replicate 512 none; start_index = 0; furthest_index = none };
  split_fragments = [];
  ordered_fragments = replicate 32 [];
  send_split_id = 3;
  send_reliable_index = 0;
  send_sequence_index = 0;
  send_ordering_index = replicate 32 0;
  recv_sequence_index = replicate 32 0;
  recv_ordering_index = replicate 32 0;
  congestion_controller = 0;
}

split_fragment-lem_example :
    let pieces = pieces_of idle ping in
    (l' : Layer ℕ) × (split_fragment high ping idle ≡ ok l')
    × Perm (queued l'.outgoing_queue) ([] ++ pieces)
    × (payloads pieces ≡ ping.payload)
    × AllFit 20 pieces
unfolding calc_header_size is_sequenced is_ordered is_reliable
split_fragment-lem_example =
    split_fragment-lem high ping idle refl (omega arith) (omega arith) (omega arith) (omega arith)

build_each-pieces_of_example :
    (f : Fragment) × (receiver' : Layer ℕ) × (build_each (pieces_of idle ping) (none, idle)
      ≡ ok (some f, receiver'))
    × (record f { split_info = none } ≡ ping)
    × (find 3 receiver'.split_fragments ≡ none)
unfolding calc_header_size is_sequenced is_ordered is_reliable
build_each-pieces_of_example =
    build_each-pieces_of ping idle idle refl (omega arith) (omega arith) (omega arith) refl

abbrev info : SplitInfo
info = record { size = 2; id = 3; index = 0 }

-- The second piece of the message 10, 11 has come.
abbrev half_way : Layer ℕ
half_way = record idle { split_fragments = (3, none ∷ some (11 ∷ []) ∷ []) ∷ [] }

abbrev first_half : Fragment
first_half = record ping { split_info = some info; payload = 10 ∷ [] }

build_split_fragment-Agrees_example :
    let ps' : Pieces = set (none ∷ some (11 ∷ []) ∷ []) 0 (some (10 ∷ [])) in
    let ds : List (List ℕ) = (10 ∷ []) ∷ (11 ∷ []) ∷ [] in
    Agrees ps' ds
    × ((l' : Layer ℕ) × (build_split_fragment info first_half half_way
          ≡ ok (
            (if all_some ps' then some (record first_half { payload = concat ds }) else none),
            l',
          ))
        × (find 3 l'.split_fragments ≡ (if all_some ps' then none else some ps')))
build_split_fragment-Agrees_example =
    build_split_fragment-Agrees info first_half half_way (none ∷ some (11 ∷ []) ∷ [])
      ((10 ∷ []) ∷ (11 ∷ []) ∷ []) refl (refl, tt) refl refl

hanlde_nak-pending_example :
    Perm
      (pending (hanlde_nak fixed (1 ∷ 5 ∷ []) idle).retransmit_cache)
      (pending idle.retransmit_cache)
    × IsSized (hanlde_nak fixed (1 ∷ 5 ∷ []) idle).retransmit_cache.histories
hanlde_nak-pending_example = hanlde_nak-pending fixed (1 ∷ 5 ∷ []) idle refl

handle_ack-pending_example :
    let l' = handle_ack fixed 300 none (1 ∷ 5 ∷ []) idle in
    let gone = acked_fragments (1 ∷ 5 ∷ []) idle.retransmit_cache in
    Perm (gone ++ pending l'.retransmit_cache) (pending idle.retransmit_cache)
    × IsSized l'.retransmit_cache.histories
    × (l'.total_bytes_acked % 2 ^ 64 ≡ (0 + total_size gone) % 2 ^ 64)
handle_ack-pending_example = handle_ack-pending fixed 300 none (1 ∷ 5 ∷ []) idle refl

abbrev ordered_at : ℕ → Fragment
ordered_at index = record ping {
  reliability = reliable_ordered;
  ordering_info = some (record { index = index; channel = 1 });
}

idle-HasChannels : HasChannels idle
idle-HasChannels = record { ordered = refl; ordering = refl; sequence = refl }

-- Message 1 of channel 1 has come, message 0 has not.
abbrev waiting : Layer ℕ
waiting = record idle { ordered_fragments = [] ∷ (some (7 ∷ []) ∷ []) ∷ replicate 30 [] }

waiting-HasChannels : HasChannels waiting
waiting-HasChannels = record { ordered = refl; ordering = refl; sequence = refl }

deliver-ready_example :
    (l' : Layer ℕ) × (deliver (ordered_at 0) waiting ≡ ok l')
    × (l'.output_queue ≡ [] ++ ping.payload ∷ (7 ∷ []) ∷ [])
    × (get_or l'.recv_ordering_index 1 0 ≡ 0 + 1 + 1)
    × (get_or l'.recv_sequence_index 1 0 ≡ 0)
    × (get_or l'.ordered_fragments 1 [] ≡ [])
    × (get_or l'.recv_ordering_index 5 0 ≡ 0)
    × (get_or l'.recv_sequence_index 5 0 ≡ 0)
    × (get_or l'.ordered_fragments 5 [] ≡ [])
    × HasChannels l'
deliver-ready_example =
    deliver-ready waiting (ordered_at 0) 1 0 ((7 ∷ []) ∷ []) [] 5 waiting-HasChannels (omega arith)
      refl refl refl refl tt (omega arith) (omega arith)

-- Message 2 of channel 1 came first.
abbrev stuck : Layer ℕ
stuck = record idle { ordered_fragments = [] ∷ (none ∷ some (9 ∷ []) ∷ []) ∷ replicate 30 [] }

stuck-HasChannels : HasChannels stuck
stuck-HasChannels = record { ordered = refl; ordering = refl; sequence = refl }

-- Messages 0 and 1 follow; message 2 stays where it is.
deliver_each-in_order_example :
    (l' : Layer ℕ) × (deliver_each (in_order 1 0 ((7 ∷ []) ∷ (8 ∷ []) ∷ [])) stuck ≡ ok l')
    × (l'.output_queue ≡ [] ++ (7 ∷ []) ∷ (8 ∷ []) ∷ [])
    × (get_or l'.recv_ordering_index 1 0 ≡ 0 + 2)
    × (get_or l'.ordered_fragments 1 [] ≡ none ∷ some (9 ∷ []) ∷ [])
deliver_each-in_order_example =
    deliver_each-in_order stuck 1 0 ((7 ∷ []) ∷ (8 ∷ []) ∷ []) (none ∷ some (9 ∷ []) ∷ [])
      stuck-HasChannels (omega arith) refl refl tt (omega arith)

idle-FitsWire : FitsWire 1 idle
idle-FitsWire = record { channels = refl; ordering_fits = omega arith; sequence_fits = omega arith }

idle-InSync : InSync 1 idle idle
idle-InSync = record { ordering = refl; sequence = omega arith; blocked = tt }

deliver-send_example :
    let (f, s') = stamp unreliable_sequenced 1 (7 ∷ []) idle in
    let sent = push_outgoing high f s' in
    let g = (number_reliable f 5).0 in
    (send high unreliable_sequenced 1 (7 ∷ []) idle ≡ ok sent)
    × (try_get_fragment list_buf (put_fragment list_buf g [] ++ 1 ∷ []) ≡ ok (g, 1 ∷ []))
    × ((r' : Layer ℕ) × (deliver g idle ≡ ok r')
        × (r'.output_queue ≡ [] ++ (7 ∷ []) ∷ [])
        × InSync 1 sent r')
unfolding stamp is_sequenced calc_full_size calc_header_size is_reliable
deliver-send_example =
    deliver-send list_buf list_buf-IsBuf high unreliable_sequenced 1 5 (7 ∷ []) (1 ∷ []) idle idle
      idle-HasChannels idle-FitsWire (omega arith) (omega arith) (omega arith) (omega arith)
      idle-InSync

-- Three sequenced messages have gone over channel 1.
abbrev sender : Layer ℕ
sender = record idle { send_sequence_index = 3 }

abbrev receiver : Layer ℕ
receiver = record idle { recv_sequence_index = 0 ∷ 3 ∷ replicate 30 0 }

after-InSync : InSync 1 sender receiver
after-InSync = record { ordering = refl; sequence = omega arith; blocked = tt }

deliver-stamp_dropped_example :
    let s' = (stamp reliable_ordered 2 (7 ∷ []) sender).1 in
    deliver (stamp unreliable_sequenced 1 (8 ∷ []) s').0 receiver ≡ ok receiver
unfolding is_sequenced is_ordered
deliver-stamp_dropped_example =
    deliver-stamp_dropped reliable_ordered unreliable_sequenced 1 2 (7 ∷ []) (8 ∷ []) sender
      receiver refl refl refl (omega arith) (omega arith) (omega arith) refl after-InSync
      (omega arith)

abbrev queued_ping : OutgoingFragment
queued_ping = record { weight = 3; priority = high; fragment = ping }

abbrev queueing : Layer ℕ
queueing = record idle {
  outgoing_queue = queued_ping ∷ [];
  outgoing_next_weight = 0 ∷ 3 ∷ 10 ∷ 27 ∷ [];
}

get_next_weight-lt_example :
    let (weight, l') = get_next_weight high queueing in
    weight < (get_next_weight high (record l' { outgoing_queue = queued_ping ∷ [] })).0
unfolding get_next_weight weight_after priority_factor priority_index
get_next_weight-lt_example =
    get_next_weight-lt high queueing queued_ping queued_ping [] [] refl refl (omega arith)
      (omega arith)

finish_packing-lem_example :
    let (left, c', p) = resend_loop fixed 500 30 20 (ping ∷ ping ∷ []) 0 nothing_packed in
    let (queue, index', p') = outgoing_loop 30 20 (queued_ping ∷ []) 4 p in
    let packets = finish_packing p' in
    Fits 20 packets
    × (sizes packets ≤ 30)
    × ((resent : List Fragment) × (resent ++ left ≡ ping ∷ ping ∷ [])
        × (unnumbered (fragments_of packets) ++ unnumbered (queued queue)
            ≡ unnumbered resent ++ unnumbered (queued (queued_ping ∷ []))))
unfolding calc_full_size calc_header_size is_sequenced is_ordered is_reliable
finish_packing-lem_example =
    finish_packing-lem fixed 500 30 20 (ping ∷ ping ∷ []) (queued_ping ∷ []) 0 4
      (omega arith, (omega arith, tt)) (omega arith, tt)

abbrev reliable_ping : Fragment
reliable_ping = record ping { reliable_index = some 4 }

idle-window : IsValid reliable_window_size idle.reliable_window
unfolding new
idle-window = new-IsValid reliable_window_size (omega arith)

handle_fragment_once_example :
    (w : Window (Unit {0})) × (handle_fragment reliable_ping idle ≡ (
      if received reliable_window_size idle.reliable_window 4
      then ok idle
      else reassemble reliable_ping (record idle { reliable_window = w })))
    × (received reliable_window_size w 4 ≡ true)
    × IsValid reliable_window_size w
handle_fragment_once_example =
    handle_fragment_once reliable_ping idle 4 refl idle-window (omega arith) (omega arith)
      (omega arith)
