-- ===== src/Congestion/Udt/Tests.antt =====
-- The controller's theorems at concrete inputs, with whole numbers for the floats.
use ruknet.Base.{
  ℕ, Bool, List, ◌+◌, ◌*◌, ◌-◌, ◌/◌, ◌≡◌, refl, true, false, some, [], ◌∷◌, replicate, ltb, leb,
  arith, if◌then◌else◌,
}
use ruknet.Congestion.Udt.{
  Floats, Udt, less, equal, greater, is_in_slow_start, get_transmission_bandwidth, on_send_packet,
  on_recv_nak,
}
use ruknet.Congestion.Udt.Arrival.{find_kth_element_recursive, parts}
use ruknet.Congestion.Udt.Select.{IsOrdered, IsKth, find_kth_element_recursive_lem}
use ruknet.Congestion.Udt.Laws.{
  sent, nacked, start, then_one, get_transmission_bandwidth_zero, slow_start_over,
}

abbrev whole : Floats
whole = record {
  F = ℕ;
  add = λ x y. x + y;
  mul = λ x y. x * y;
  div = λ x y. x / y;
  sub = λ x y. x - y;
  square = λ x. x * x;
  lt = λ x y. ltb x y;
  le = λ x y. leb x y;
  literal = λ n d. n / d;
  of_u64 = λ x. x;
  to_isize = λ x. x;
  of_bits = λ x. x;
  to_bits = λ x. x;
  compare = λ x y. some (if ltb x y then less else if ltb y x then greater else equal);
}

-- After slow start, with 700 bytes left.
abbrev steady : Udt whole
steady = record {
  cwnd = 512;
  mtu_size_excluding_header = 1000;
  next_seq = 40;
  arrival_rate = some 3;
  snd = 1;
  bytes_can_send_this_tick = 700;
  packet_arrival_history_index = 0;
  packet_arrival_history = replicate 64 0;
  pings_last_interval = [];
  last_packet_arrival_time = 900;
  last_rtt_on_increase_send_rate = 50;
  oldest_unsent_ack = 0;
  next_congestion_control_block = 20;
  had_packet_loss_this_block = false;
  in_slow_start = false;
}

get_transmission_bandwidth_zero_example :
    (get_transmission_bandwidth whole steady 1000 30 true).0 ≡ 0
unfolding is_in_slow_start
get_transmission_bandwidth_zero_example =
    get_transmission_bandwidth_zero whole steady 1000 30 true refl (omega arith)

slow_start_over_example :
    is_in_slow_start whole (on_send_packet whole (on_recv_nak whole steady) 600) ≡ false
unfolding is_in_slow_start
slow_start_over_example =
    slow_start_over whole steady (on_send_packet whole (on_recv_nak whole steady) 600)
      (then_one (then_one start nacked) (sent 600)) refl

median_of_five : find_kth_element_recursive whole 5 (4 ∷ 9 ∷ 1 ∷ 7 ∷ 5 ∷ []) 2 ≡ some 5
unfolding find_kth_element_recursive parts
median_of_five = refl

abbrev is_nan : ℕ → Bool
is_nan n = false

whole-IsOrdered : IsOrdered whole (λ n. n) is_nan
whole-IsOrdered a b h i = ground arith

abbrev rates : List ℕ
rates = 4 ∷ 9 ∷ 1 ∷ 7 ∷ 5 ∷ []

find_kth_element_recursive_lem_example :
    (x : ℕ) × (find_kth_element_recursive whole 5 rates 2 ≡ some x)
    × IsKth whole (λ n. n) is_nan 2 rates x
find_kth_element_recursive_lem_example =
    find_kth_element_recursive_lem whole (λ n. n) is_nan whole-IsOrdered 5 2 rates
      (refl, (refl, (refl, (refl, (refl, tt))))) (omega arith) (omega arith)
