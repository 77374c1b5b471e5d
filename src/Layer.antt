-- ===== src/Layer.antt =====
-- src/reliability/layer.rs: the state of a connection's reliability layer. `C` is the state of the
-- congestion controller. Counters wrap, as in a release build.
pub mod Reassembly
pub mod Receive
pub mod Send
pub mod RoundTrip
pub mod Update
mod Tests
use ruknet.Error.{LayerError}
use ruknet.Base.{
  Result, ℕ, ◌+◌, ◌-◌, ◌<◌, Bool, false, Option, none, List, [], ◌∷◌, ◌++◌, ltb, if◌then◌else◌,
  replicate,
}
use ruknet.Reliability.{Priority, priority_count}
use ruknet.Datagram.{Fragment, header_size, packet_header_size}
use ruknet.Window.{Window, sub_u64}
use ruknet.Window
use ruknet.Cache.{RetransmitCache, is_nil}
use ruknet.Cache
use ruknet.Congestion.{CongestionController}

abbrev pub ip_udp_header_size : ℕ
ip_udp_header_size = 28

abbrev pub default_timeout : ℕ
default_timeout = 10000

abbrev pub seq_window_size : ℕ
seq_window_size = 128

abbrev pub reliable_window_size : ℕ
reliable_window_size = 512

abbrev pub ordering_channel_size : ℕ
ordering_channel_size = 32

pub record OutgoingFragment : Type 0 where
  pub weight : ℕ
  pub priority : Priority
  pub fragment : Fragment

-- The pieces of one split message; a piece that has not come is `none`.
abbrev pub Pieces : Type 0
Pieces = List (Option (List ℕ))

-- `outgoing_queue` is a heap with the least weight first: a list in the order of the weights. Of two
-- equal weights, whose order a `BinaryHeap` leaves open, the earlier comes first. `split_fragments`
-- is a hash map: an association list.
pub record Layer (C : Type 0) : Type 0 where
  pub max_size_of_packet : ℕ
  pub bandwidth_exceeded : Bool
  pub needs_arrival_rate : Bool
  pub is_dead : Bool
  pub timeout : ℕ
  pub last_update : ℕ
  pub time_last_datagram_recved : ℕ
  pub total_bytes_acked : ℕ
  pub acks : List ℕ
  pub naks : List ℕ
  pub outgoing_queue : List OutgoingFragment
  pub outgoing_next_weight : List ℕ
  pub output_queue : List (List ℕ)
  pub retransmit_cache : RetransmitCache
  pub seq_window : Window ℕ
  pub reliable_window : Window (Unit {0})
  pub split_fragments : List (ℕ × Pieces)
  pub ordered_fragments : List Pieces
  pub send_split_id : ℕ
  pub send_reliable_index : ℕ
  pub send_sequence_index : ℕ
  pub send_ordering_index : List ℕ
  pub recv_sequence_index : List ℕ
  pub recv_ordering_index : List ℕ
  pub congestion_controller : C

-- An error leaves the layer as the code has changed it so far.
abbrev pub Outcome {ℓ} : Type 0 → Type ℓ → Type ℓ
Outcome C A = Result (LayerError × Layer C) A

module _ {C : Type 0} where
  -- An `mtu_size` below the headers, 32 bytes, wraps.
  unfoldable pub new : CongestionController C → ℕ → ℕ → Layer C
  new controller now mtu_size = record {
    max_size_of_packet =
        sub_u64 (sub_u64 (sub_u64 mtu_size ip_udp_header_size) header_size) packet_header_size;
    bandwidth_exceeded = false;
    needs_arrival_rate = false;
    is_dead = false;
    timeout = default_timeout;
    last_update = now;
    time_last_datagram_recved = now;
    total_bytes_acked = 0;
    acks = [];
    naks = [];
    outgoing_queue = [];
    outgoing_next_weight = replicate priority_count 0;
    output_queue = [];
    retransmit_cache = Cache.new;
    seq_window = Window.new seq_window_size;
    reliable_window = Window.new reliable_window_size;
    split_fragments = [];
    ordered_fragments = replicate ordering_channel_size [];
    send_split_id = 0;
    send_reliable_index = 0;
    send_sequence_index = 0;
    send_ordering_index = replicate ordering_channel_size 0;
    recv_sequence_index = replicate ordering_channel_size 0;
    recv_ordering_index = replicate ordering_channel_size 0;
    congestion_controller = controller.new (sub_u64 mtu_size ip_udp_header_size);
  }

  unfoldable pub set_timeout : ℕ → Layer C → Layer C
  set_timeout timeout l = record l { timeout = timeout }

  unfoldable pub get_timeout : Layer C → ℕ
  get_timeout l = l.timeout

  unfoldable pub recv : Layer C → List (List ℕ) × Layer C
  recv l = (l.output_queue, record l { output_queue = [] })

  unfoldable pub is_retransmit_cache_empty : Layer C → Bool
  is_retransmit_cache_empty l = Cache.is_empty l.retransmit_cache
