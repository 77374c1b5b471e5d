-- ===== src/Congestion/Udt.antt =====
-- src/reliability/congestion_controller/udt.rs. The 32-bit floats are a parameter of the model: a
-- type with the operations that the code uses. Integers wrap, as in a release build; an `isize` is its
-- bit pattern, negative from 2^63 on.
pub mod Arrival
pub mod Laws
pub mod Select
mod Tests
use ruknet.Base.{
  ℕ, zero, suc, ◌+◌, ◌-◌, ◌*◌, ◌/◌, ◌%◌, ◌^◌, bit_and, min, max, Bool, true, false, not, ◌&&◌, ◌||◌,
  Option, none, some, List, [], ◌∷◌, ◌++◌, ltb, leb, ◌==◌, if◌then◌else◌, length, get_or, set,
  replicate, is_some, drop, Result, ok, err, fault,
}
use ruknet.Window.{add_u32, sub_u32, sub_u64}

pub data Comparison : Type 0 where
  less equal greater : Comparison

-- `f32`. `compare` is `partial_cmp`. `literal n d` is the literal for n / d; `square` is `powf(2.0)`. `to_isize` is `as isize`.
pub record Floats : Type 1 where
  pub F : Type 0
  pub add : F → F → F
  pub mul : F → F → F
  pub div : F → F → F
  pub sub : F → F → F
  pub square : F → F
  pub lt : F → F → Bool
  pub le : F → F → Bool
  pub literal : ℕ → ℕ → F
  pub of_u64 : ℕ → F
  pub to_isize : F → ℕ
  pub of_bits : ℕ → F
  pub to_bits : F → ℕ
  pub compare : F → F → Option Comparison

abbrev pub syn : ℕ
syn = 10

abbrev pub min_cwnd : ℕ
min_cwnd = 2

abbrev pub max_cwnd : ℕ
max_cwnd = 512

abbrev pub packet_arrival_history_size : ℕ
packet_arrival_history_size = 64

abbrev pub interval_size : ℕ
interval_size = 33

abbrev pub word : ℕ → ℕ
word n = n % 2 ^ 64

abbrev pub is_negative : ℕ → Bool
is_negative n = leb (2 ^ 63) n

-- The sums of the differences and of the values, in one pass over neighbours.
unfoldable pub slope_sum : List ℕ → ℕ
slope_sum [] = 0
slope_sum (a ∷ []) = 0
slope_sum (a ∷ b ∷ rest) = word (sub_u64 b a + slope_sum (b ∷ rest))

unfoldable pub sum : List ℕ → ℕ
sum [] = 0
sum (a ∷ rest) = word (a + sum rest)

module _ (floats : Floats) where
  open floats use {F, add, mul, div, sub, square, lt, le, literal, of_u64, to_isize, of_bits}

  pub record Udt : Type 0 where
    pub cwnd : ℕ
    pub mtu_size_excluding_header : ℕ
    pub next_seq : ℕ
    pub arrival_rate : Option F
    pub snd : F
    pub bytes_can_send_this_tick : ℕ
    pub packet_arrival_history_index : ℕ
    pub packet_arrival_history : List F
    pub pings_last_interval : List ℕ
    pub last_packet_arrival_time : ℕ
    pub last_rtt_on_increase_send_rate : ℕ
    pub oldest_unsent_ack : ℕ
    pub next_congestion_control_block : ℕ
    pub had_packet_loss_this_block : Bool
    pub in_slow_start : Bool

  abbrev pub default_transfer_rate : F
  default_transfer_rate = literal 36 10000

  unfoldable pub new : ℕ → Udt
  new mtu = record {
    cwnd = min_cwnd;
    mtu_size_excluding_header = mtu;
    next_seq = 0;
    arrival_rate = some default_transfer_rate;
    snd = div (literal 1 1) default_transfer_rate;
    bytes_can_send_this_tick = 0;
    packet_arrival_history_index = 0;
    packet_arrival_history = replicate packet_arrival_history_size (literal 0 1);
    pings_last_interval = [];
    last_packet_arrival_time = 0;
    last_rtt_on_increase_send_rate = 1000;
    oldest_unsent_ack = 0;
    next_congestion_control_block = 0;
    had_packet_loss_this_block = false;
    in_slow_start = true;
  }

  unfoldable pub should_send_ack : Udt → ℕ → ℕ → Bool
  should_send_ack s now elapsed =
      leb syn (sub_u64 now s.oldest_unsent_ack)
      || ltb (word (now + elapsed)) (word (s.oldest_unsent_ack + syn))

  unfoldable pub is_in_slow_start : Udt → Bool
  is_in_slow_start s = s.in_slow_start

  unfoldable pub get_seq_and_increment : Udt → ℕ × Udt
  get_seq_and_increment s = (s.next_seq, record s { next_seq = add_u32 s.next_seq 1 })

  -- The tick's bytes: what was left, if it was not overdrawn, and what the rate allows for the time.
  unfoldable pub next_tick : Udt → ℕ → Bool → ℕ
  next_tick s elapsed continuous =
      let left = if is_negative s.bytes_can_send_this_tick then 0 else s.bytes_can_send_this_tick in
      let time = if not continuous && ltb 100 elapsed then 100 else elapsed in
      word (left + word (time * to_isize (div (literal 1 1) s.snd)))

  unfoldable pub get_transmission_bandwidth : Udt → ℕ → ℕ → Bool → ℕ × Udt
  get_transmission_bandwidth s now elapsed continuous =
      let tick = next_tick s elapsed continuous in
      let ticked : Udt = record s { bytes_can_send_this_tick = tick } in
      if s.in_slow_start
      then (word (s.cwnd * s.mtu_size_excluding_header), s)
      else (if is_negative tick then tick else 0, ticked)

  unfoldable pub get_rto : Udt → ℕ
  get_rto s = min (max (word (s.last_rtt_on_increase_send_rate * 2)) 100) 10000

  abbrev pub cap_min_snd : Udt → Udt
  cap_min_snd s = if lt (literal 500 1) s.snd then record s { snd = literal 500 1 } else s

  -- `rate` is the arrival rate, which the callers have found to be there.
  abbrev pub end_slow_start : F → Udt → Udt
  end_slow_start rate s =
      cap_min_snd (record s { in_slow_start = false; snd = div (literal 1 1) rate })

  -- `a * (snd + 1)^2 / 501^2`
  abbrev pub increment : F → Udt → F
  increment a s = div (mul a (square (add s.snd (literal 1 1)))) (square (literal 501 1))

  unfoldable pub increase_time_between_sends : Udt → Udt
  increase_time_between_sends s =
      cap_min_snd
        (record s { snd = mul s.snd (sub (literal 102 100) (increment (literal 2 100) s)) })

  unfoldable pub decrease_time_between_sends : Udt → Udt
  decrease_time_between_sends s = record s {
    snd = mul s.snd (add (literal 99 100) (increment (literal 1 100) s));
  }

  -- `on_resend` and `on_recv_nak`, which have the same body.
  unfoldable pub on_loss : Udt → Udt
  on_loss s =
      let lost : Udt = record (increase_time_between_sends s) {
        had_packet_loss_this_block = true;
      } in
      let within = if s.had_packet_loss_this_block then s else lost in
      elim s.arrival_rate [
        | some rate ↦ if s.in_slow_start then end_slow_start rate s else within
        | none ↦ within
      ]

  unfoldable pub on_resend : Udt → ℕ → Udt
  on_resend s now = on_loss s

  unfoldable pub on_recv_nak : Udt → Udt
  on_recv_nak s = on_loss s

  -- A packet size of 0 panics as a divisor.
  unfoldable pub update_window_size_slow_start : ℕ → Udt → Option Udt
  update_window_size_slow_start total_bytes_acked s =
      let cwnd = total_bytes_acked / s.mtu_size_excluding_header in
      let capped : Udt = record s { cwnd = max_cwnd } in
      let ended = elim s.arrival_rate as (λ _. Udt) [
        | some rate ↦ end_slow_start rate capped
        | none ↦ capped
      ] in
      let updated =
        if ltb cwnd min_cwnd
        then record s { cwnd = min_cwnd }
        else if ltb max_cwnd cwnd
        then ended
        else record s { cwnd = cwnd } in
      if s.mtu_size_excluding_header == 0 then none else some updated

  unfoldable pub push_ping : ℕ → List ℕ → List ℕ
  push_ping rtt pings =
      let longer = pings ++ rtt ∷ [] in
      if ltb interval_size (length longer) then drop 1 longer else longer

  unfoldable pub update_window_size_syn : ℕ → ℕ → Bool → Udt → Udt
  update_window_size_syn rtt seq continuous s =
      let pings = push_ping rtt s.pings_last_interval in
      let pinged : Udt = record s { pings_last_interval = pings } in
      let due =
        ltb s.next_congestion_control_block seq
        && leb interval_size (sub_u32 seq s.next_congestion_control_block)
        && (length pings == interval_size) in
      let slower = increase_time_between_sends pinged in
      let faster : Udt =
        decrease_time_between_sends (record pinged { last_rtt_on_increase_send_rate = rtt }) in
      let adapted =
        if ltb (sum pings / length pings / 10) (slope_sum pings) then slower else faster in
      let next : Udt = record adapted {
        pings_last_interval = [];
        had_packet_loss_this_block = false;
        next_congestion_control_block = seq;
      } in
      let paused : Udt = record s {
        next_congestion_control_block = s.next_seq;
        pings_last_interval = [];
      } in
      if not continuous then paused else if due then next else pinged

  unfoldable pub on_recv_ack : Udt → ℕ → ℕ → Option ℕ → ℕ → ℕ → Bool → Option Udt
  on_recv_ack s0 now rtt arrival_rate total_bytes_acked seq continuous =
      let rate = elim arrival_rate as (λ _. Option F) [
        | some bits ↦ some (of_bits bits)
        | none ↦ s0.arrival_rate
      ] in
      let s : Udt = record s0 {
        arrival_rate = rate;
        oldest_unsent_ack = if s0.oldest_unsent_ack == 0 then now else s0.oldest_unsent_ack;
      } in
      let started : Udt = record s {
        next_congestion_control_block = seq;
        last_rtt_on_increase_send_rate = rtt;
      } in
      if s.in_slow_start
      then update_window_size_slow_start total_bytes_acked started
      else some (update_window_size_syn rtt seq continuous s)

  unfoldable pub on_recv_packet : Udt → ℕ → ℕ → Bool → Udt
  on_recv_packet s now size continuous =
      let rate = div (of_u64 size) (of_u64 (now - s.last_packet_arrival_time)) in
      let slot = bit_and s.packet_arrival_history_index (packet_arrival_history_size - 1) in
      let noted : Udt = record s {
        packet_arrival_history = set s.packet_arrival_history slot rate;
        packet_arrival_history_index = word (s.packet_arrival_history_index + 1);
        last_packet_arrival_time = now;
      } in
      if ltb s.last_packet_arrival_time now
      then (if continuous then noted else record s { last_packet_arrival_time = now })
      else s

  unfoldable pub on_send_packet : Udt → ℕ → Udt
  on_send_packet s size =
      let spent : Udt = record s {
        bytes_can_send_this_tick = sub_u64 s.bytes_can_send_this_tick size;
      } in
      if s.in_slow_start then s else spent
