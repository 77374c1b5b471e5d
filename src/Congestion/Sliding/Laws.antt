-- ===== src/Congestion/Sliding/Laws.antt =====
-- The window of the sliding-window controller under acknowledgements and resends.
use ruknet.Base.{
  ℕ, ◌+◌, ◌*◌, ◌/◌, ◌^◌, ◌≤◌, ◌<◌, ◌≡◌, ◌||◌, true, false, Option, inl, inr, Bool-cases, arith, ltb,
  leb, ◌==◌, if◌then◌else◌,
}
use native.Mathlib.Nat.{div-lt_iff_lt-mul, pow-suc, pow-zero}
use ruknet.Congestion.Sliding.{
  Floats, SlidingWindow, usize, is_in_slow_start, on_resend, on_recv_ack, slow_start_cwnd,
  track_rtt, open_block,
}

square : (m : ℕ) → m ^ 2 ≡ m * m
square m = rw (pow-suc m 1, pow-suc m 0, pow-zero m) (omega arith)

div_square_lt : (m c : ℕ) → 0 < m → m < c → m * m / c < m
div_square_lt m c pos h =
    (div-lt_iff_lt-mul {k = c} {x = m * m} {y = m} (grind arith)).1 (grind arith)

-- The new window, by the three ways to it.
acked_cwnd : ℕ → ℕ → ℕ → ℕ → ℕ → ℕ
acked_cwnd mtu ss_thresh cwnd block seq =
    if leb cwnd ss_thresh || (ss_thresh == 0)
    then slow_start_cwnd mtu ss_thresh (usize (cwnd + mtu))
    else if ltb block seq
    then usize (mtu ^ 2) / cwnd
    else cwnd

module _ (floats : Floats) where
  cwnd-on_recv_ack :
      (s : SlidingWindow floats) (now rtt : ℕ) (rate : Option ℕ) (acked seq : ℕ)
      → (on_recv_ack floats s now rtt rate acked seq true).cwnd
        ≡ acked_cwnd s.mtu_size_excluding_header s.ss_thresh s.cwnd s.next_congestion_control_block
            seq
  unfolding on_recv_ack is_in_slow_start acked_cwnd track_rtt open_block
  cwnd-on_recv_ack s now rtt rate acked seq =
      elim (Bool-cases (ltb s.next_congestion_control_block seq)) [
        | inl above ↦ rw (above) (ground arith)
        | inr below ↦ rw (below) (ground arith)
      ]

  -- A resend never widens the window, and a second one after it changes nothing, if twice the
  -- packet size is short of 2^64.
  pub on_resend_once :
      (s : SlidingWindow floats) (now later : ℕ)
      → s.mtu_size_excluding_header * 2 < 2 ^ 64
      → ((on_resend floats s now).cwnd ≤ s.cwnd)
        × (on_resend floats (on_resend floats s now) later ≡ on_resend floats s now)
  unfolding on_resend
  on_resend_once s now later fits = (ground arith, ground arith)

  -- If the sender has more to send, the window is more than two packets and nothing was resent in
  -- this block, a resend leaves a window of one packet, a threshold of at least that, and the
  -- controller in slow start. Twice the packet is short of 2^64.
  pub on_resend_backs_off :
      (s : SlidingWindow floats) (now : ℕ)
      → s.mtu_size_excluding_header * 2 < 2 ^ 64
      → s.is_continuous_send ≡ true
      → s.backoff_this_block ≡ false
      → s.mtu_size_excluding_header * 2 < s.cwnd
      → let s' = on_resend floats s now in
        (s'.cwnd ≡ s.mtu_size_excluding_header)
        × (s.mtu_size_excluding_header ≤ s'.ss_thresh)
        × (is_in_slow_start floats s' ≡ true)
  unfolding on_resend is_in_slow_start
  on_resend_backs_off s now fits c b big = (ground arith, ground arith, ground arith)

  -- The integers of a controller that do not wrap.
  pub record IsSane (s : SlidingWindow floats) : Type 0 where
    pub mtu_pos : 0 < s.mtu_size_excluding_header
    pub square_fits : s.mtu_size_excluding_header * s.mtu_size_excluding_header < 2 ^ 64
    pub sum_fits : s.cwnd + s.mtu_size_excluding_header < 2 ^ 64
    pub threshold_fits : s.ss_thresh + s.mtu_size_excluding_header < 2 ^ 64

  -- Out of slow start, with sizes that do not wrap, the first acknowledgement of a block while
  -- there is more to send takes a window of more than one packet to less than one packet.
  pub avoidance_collapses :
      (s : SlidingWindow floats) (now rtt : ℕ) (rate : Option ℕ) (acked seq : ℕ)
      → IsSane s
      → is_in_slow_start floats s ≡ false
      → s.next_congestion_control_block < seq
      → s.mtu_size_excluding_header < s.cwnd
      → (on_recv_ack floats s now rtt rate acked seq true).cwnd < s.mtu_size_excluding_header
  unfolding is_in_slow_start acked_cwnd
  avoidance_collapses s now rtt rate acked seq v out new big =
      rw (cwnd-on_recv_ack s now rtt rate acked seq, square s.mtu_size_excluding_header)
        (ground (arith, v, div_square_lt s.mtu_size_excluding_header s.cwnd))
