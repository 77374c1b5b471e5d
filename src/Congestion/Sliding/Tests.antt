-- ===== src/Congestion/Sliding/Tests.antt =====
-- The controller's theorems at concrete inputs, with whole numbers for the floats.
use ruknet.Base.{ℕ, ◌+◌, ◌-◌, ◌*◌, ◌<◌, refl, true, false, none, arith, max}
use ruknet.Congestion.Sliding.{Floats, SlidingWindow, is_in_slow_start, on_recv_ack}
use ruknet.Congestion.Sliding.Laws.{IsSane, avoidance_collapses}

abbrev whole : Floats
whole = record {
  F = ℕ;
  add = λ x y. x + y;
  sub = λ x y. x - y;
  mul = λ x y. x * y;
  max = λ x y. max x y;
  abs = λ x. x;
  to_u64 = λ x. x;
  of_u64 = λ x. x;
  zero_point = 0;
  additional_var = 30;
  u = 2;
  q = 4;
  d = 1;
  initial_rtt = 100;
  initial_deviation = 30;
}

abbrev state : ℕ → ℕ → SlidingWindow whole
state cwnd ss_thresh = record {
  cwnd = cwnd;
  ss_thresh = ss_thresh;
  mtu_size_excluding_header = 1000;
  next_seq = 9;
  last_rtt = 50;
  estimated_rtt = 60;
  deviation_rtt = 5;
  oldest_unsent_ack = 0;
  next_congestion_control_block = 6;
  backoff_this_block = false;
  speedup_this_block = false;
  is_continuous_send = true;
}

abbrev sane :
    (cwnd ss_thresh : ℕ) → cwnd < 9000 → ss_thresh < 9000 → IsSane whole (state cwnd ss_thresh)
sane cwnd ss_thresh c t = record {
  mtu_pos = omega arith;
  square_fits = omega arith;
  sum_fits = omega arith;
  threshold_fits = omega arith;
}

avoidance_collapses_example : (on_recv_ack whole (state 5000 3000) 90 40 none 0 8 true).cwnd < 1000
unfolding is_in_slow_start
avoidance_collapses_example =
    avoidance_collapses whole (state 5000 3000) 90 40 none 0 8
      (sane 5000 3000 (omega arith) (omega arith)) refl (omega arith) (omega arith)
