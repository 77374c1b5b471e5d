-- ===== src/Congestion/Sliding.antt =====
-- src/reliability/congestion_controller/sliding_window.rs. The 64-bit floats are a parameter of the
-- model: a type with the operations that the code uses. Integers wrap, as in a release build.
pub mod Laws
mod Tests
use ruknet.Base.{
  ℕ, ◌+◌, ◌-◌, ◌*◌, ◌/◌, ◌%◌, ◌^◌, min, Bool, true, false, not, ◌&&◌, ◌||◌, Option, ltb, leb, ◌==◌,
  if◌then◌else◌,
}
use ruknet.Window.{add_u32, sub_u64}
use ruknet.Congestion.{CongestionController}

-- `f64`, with the constants of the file. `to_u64` is `round() as u64`, which saturates.
pub record Floats : Type 1 where
  pub F : Type 0
  pub add : F → F → F
  pub sub : F → F → F
  pub mul : F → F → F
  pub max : F → F → F
  pub abs : F → F
  pub to_u64 : F → ℕ
  pub of_u64 : ℕ → F
  pub zero_point : F
  pub additional_var : F
  pub u : F
  pub q : F
  pub d : F
  pub initial_rtt : F
  pub initial_deviation : F

abbrev pub syn : ℕ
syn = 10

abbrev pub max_rto : ℕ
max_rto = 2000

abbrev pub usize : ℕ → ℕ
usize n = n % 2 ^ 64

-- Growth in slow start; `grown` is `self.cwnd + self.mtu_size_excluding_header`.
unfoldable pub slow_start_cwnd : ℕ → ℕ → ℕ → ℕ
slow_start_cwnd mtu ss_thresh grown =
    if ltb ss_thresh grown && not (ss_thresh == 0)
    then usize (ss_thresh + usize (mtu ^ 2) / grown)
    else grown

module _ (floats : Floats) where
  open floats use {
    F, add, sub, mul, max, abs, to_u64, of_u64, zero_point, additional_var, u, q, d, initial_rtt,
    initial_deviation,
  }

  pub record SlidingWindow : Type 0 where
    pub cwnd : ℕ
    pub ss_thresh : ℕ
    pub mtu_size_excluding_header : ℕ
    pub next_seq : ℕ
    pub last_rtt : ℕ
    pub estimated_rtt : F
    pub deviation_rtt : F
    pub oldest_unsent_ack : ℕ
    pub next_congestion_control_block : ℕ
    pub backoff_this_block : Bool
    pub speedup_this_block : Bool
    pub is_continuous_send : Bool

  unfoldable pub new : ℕ → SlidingWindow
  new mtu = record {
    cwnd = mtu;
    ss_thresh = 0;
    mtu_size_excluding_header = mtu;
    next_seq = 0;
    last_rtt = 0;
    estimated_rtt = initial_rtt;
    deviation_rtt = initial_deviation;
    oldest_unsent_ack = 0;
    next_congestion_control_block = 0;
    backoff_this_block = false;
    speedup_this_block = false;
    is_continuous_send = false;
  }

  unfoldable pub should_send_ack : SlidingWindow → ℕ → ℕ → Bool
  should_send_ack s now time_since_last_update = leb syn (sub_u64 now s.oldest_unsent_ack)

  unfoldable pub is_in_slow_start : SlidingWindow → Bool
  is_in_slow_start s = leb s.cwnd s.ss_thresh || (s.ss_thresh == 0)

  unfoldable pub get_seq_and_increment : SlidingWindow → ℕ × SlidingWindow
  get_seq_and_increment s = (s.next_seq, record s { next_seq = add_u32 s.next_seq 1 })

  unfoldable pub get_transmission_bandwidth : SlidingWindow → ℕ → ℕ → Bool → ℕ × SlidingWindow
  get_transmission_bandwidth s now time_since_last_update continuous =
      (s.cwnd, record s { is_continuous_send = continuous })

  unfoldable pub get_rto : SlidingWindow → ℕ
  get_rto s =
      min (to_u64 (add (add (mul u s.estimated_rtt) (mul q s.deviation_rtt)) additional_var))
        max_rto

  unfoldable pub on_resend : SlidingWindow → ℕ → SlidingWindow
  on_resend s now =
      let mtu = s.mtu_size_excluding_header in
      let half = s.cwnd / 2 in
      let backed_off : SlidingWindow = record s {
        ss_thresh = if ltb half mtu then mtu else half;
        cwnd = mtu;
        next_congestion_control_block = s.next_seq;
        backoff_this_block = true;
      } in
      if s.is_continuous_send && not s.backoff_this_block && ltb (usize (mtu * 2)) s.cwnd
      then backed_off
      else s

  -- The estimates of the round trip and of its deviation.
  unfoldable pub track_rtt : SlidingWindow → ℕ → Bool → SlidingWindow
  track_rtt s rtt continuous =
      let diff = sub (of_u64 rtt) s.estimated_rtt in
      record s {
        last_rtt = rtt;
        estimated_rtt = max (add s.estimated_rtt (mul d diff)) zero_point;
        deviation_rtt =
            max (add s.deviation_rtt (mul d (sub (abs diff) s.deviation_rtt))) zero_point;
        is_continuous_send = continuous;
      }

  unfoldable pub open_block : SlidingWindow → SlidingWindow
  open_block s = record s {
    backoff_this_block = false;
    speedup_this_block = true;
    next_congestion_control_block = s.next_seq;
  }

  -- Both divisions are by a positive window: `grown` is above a threshold, and out of slow start the
  -- window is.
  unfoldable pub on_recv_ack : SlidingWindow → ℕ → ℕ → Option ℕ → ℕ → ℕ → Bool → SlidingWindow
  unfolding track_rtt open_block slow_start_cwnd
  on_recv_ack s0 now rtt arrival_rate total_bytes_acked seq continuous =
      let s1 = track_rtt s0 rtt continuous in
      let is_new = ltb s1.next_congestion_control_block seq in
      let s = if is_new then open_block s1 else s1 in
      let mtu = s.mtu_size_excluding_header in
      let started : SlidingWindow = record s {
        cwnd = slow_start_cwnd mtu s.ss_thresh (usize (s.cwnd + mtu));
      } in
      let avoided : SlidingWindow = record s { cwnd = usize (mtu ^ 2) / s.cwnd } in
      if continuous
      then (if is_in_slow_start s then started else if is_new then avoided else s)
      else s1

  unfoldable pub on_recv_nak : SlidingWindow → SlidingWindow
  on_recv_nak s =
      if s.is_continuous_send && not s.backoff_this_block
      then record s { ss_thresh = s.cwnd / 2 }
      else s

  unfoldable pub on_recv_packet : SlidingWindow → ℕ → ℕ → Bool → SlidingWindow
  on_recv_packet s now size continuous =
      if s.oldest_unsent_ack == 0 then record s { oldest_unsent_ack = now } else s

  unfoldable pub on_send_ack : SlidingWindow → Bool → Option ℕ → Option ℕ × SlidingWindow
  on_send_ack s needs_arrival_rate arrival_rate = (arrival_rate, s)

  unfoldable pub on_send_packet : SlidingWindow → ℕ → SlidingWindow
  on_send_packet s size = s

  unfoldable pub sliding_window : CongestionController SlidingWindow
  sliding_window = record {
    new = new;
    should_send_ack = should_send_ack;
    is_in_slow_start = is_in_slow_start;
    get_seq_and_increment = get_seq_and_increment;
    get_transmission_bandwidth = get_transmission_bandwidth;
    get_rto = get_rto;
    on_resend = on_resend;
    on_recv_ack = on_recv_ack;
    on_recv_nak = on_recv_nak;
    on_recv_packet = on_recv_packet;
    on_send_ack = on_send_ack;
    on_send_packet = on_send_packet;
  }
