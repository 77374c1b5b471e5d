-- ===== src/Congestion/Udt/Laws.antt =====
-- The UDT controller after slow start.
use ruknet.Base.{
  ℕ, ◌+◌, ◌*◌, ◌^◌, ◌≤◌, ◌<◌, ◌≡◌, refl, ap, ◌∙◌, Bool, false, Option, none, some, arith, ◌==◌,
  if◌then◌else◌,
}
use ruknet.Congestion.Udt.Arrival.{on_send_ack}
use ruknet.Congestion.Udt.{
  Floats, Udt, is_negative, is_in_slow_start, get_seq_and_increment, next_tick,
  get_transmission_bandwidth, on_loss, on_resend, on_recv_nak, on_recv_ack, on_recv_packet,
  on_send_packet, increase_time_between_sends, decrease_time_between_sends, update_window_size_syn,
}

mul_le : (a b c : ℕ) → a ≤ b → a * c ≤ b * c
mul_le a b c h = grind arith

module _ (floats : Floats) where
  -- After slow start the controller allows no byte, whatever is queued, if the bytes that it has left
  -- and those that its rate allows for the time passed are together short of 2^63.
  pub get_transmission_bandwidth_zero :
      (s : Udt floats) (now elapsed : ℕ) (continuous : Bool)
      → is_in_slow_start floats s ≡ false
      → (if is_negative s.bytes_can_send_this_tick then 0 else s.bytes_can_send_this_tick)
          + elapsed * floats.to_isize (floats.div (floats.literal 1 1) s.snd)
        < 2 ^ 63
      → (get_transmission_bandwidth floats s now elapsed continuous).0 ≡ 0
  unfolding get_transmission_bandwidth next_tick is_in_slow_start
  get_transmission_bandwidth_zero s now elapsed continuous slow room =
      let rate = floats.to_isize (floats.div (floats.literal 1 1) s.snd) in
      ground (arith, mul_le 100 elapsed rate)

  -- One call of an operation that changes the controller.
  pub data Step : Udt floats → Udt floats → Type 0 where
    numbered : {s : Udt floats} → Step s (get_seq_and_increment floats s).1
    asked :
        {s : Udt floats} (now elapsed : ℕ) (continuous : Bool)
        → Step s (get_transmission_bandwidth floats s now elapsed continuous).1
    resent : {s : Udt floats} (now : ℕ) → Step s (on_resend floats s now)
    nacked : {s : Udt floats} → Step s (on_recv_nak floats s)
    acked :
        {s t : Udt floats} (now rtt : ℕ) (rate : Option ℕ) (total seq : ℕ) (continuous : Bool)
        → on_recv_ack floats s now rtt rate total seq continuous ≡ some t
        → Step s t
    received :
        {s : Udt floats} (now size : ℕ) (continuous : Bool)
        → Step s (on_recv_packet floats s now size continuous)
    acknowledged :
        {s t : Udt floats} (needs_rate : Bool) (rate rate' : Option ℕ)
        → on_send_ack floats s needs_rate rate ≡ some (rate', t)
        → Step s t
    sent : {s : Udt floats} (size : ℕ) → Step s (on_send_packet floats s size)

  pub data Steps : Udt floats → Udt floats → Type 0 where
    start : {s : Udt floats} → Steps s s
    then_one : {s t u : Udt floats} → Steps s t → Step t u → Steps s u

  faster_same :
      (s : Udt floats) → (decrease_time_between_sends floats s).in_slow_start ≡ s.in_slow_start
  unfolding decrease_time_between_sends
  faster_same s = refl

  slower_same :
      (s : Udt floats) → (increase_time_between_sends floats s).in_slow_start ≡ s.in_slow_start
  unfolding increase_time_between_sends
  slower_same s = ground arith

  syn_same :
      (rtt seq : ℕ) (continuous : Bool) (s : Udt floats)
      → (update_window_size_syn floats rtt seq continuous s).in_slow_start ≡ s.in_slow_start
  unfolding update_window_size_syn increase_time_between_sends decrease_time_between_sends
  syn_same rtt seq continuous s = ground arith

  send_ack_same :
      (s : Udt floats) (needs_rate : Bool) (rate : Option ℕ) {rate' : Option ℕ} {t : Udt floats}
      → on_send_ack floats s needs_rate rate ≡ some (rate', t)
      → t.in_slow_start ≡ s.in_slow_start
  unfolding on_send_ack
  send_ack_same s needs_rate rate e = ground arith

  recv_ack_out :
      (s t : Udt floats) (now rtt : ℕ) (rate : Option ℕ) (total seq : ℕ) (continuous : Bool)
      → s.in_slow_start ≡ false
      → on_recv_ack floats s now rtt rate total seq continuous ≡ some t
      → t.in_slow_start ≡ false
  unfolding on_recv_ack
  recv_ack_out s t now rtt rate total seq continuous h e =
      let given : Udt floats = record s {
        in_slow_start = false;
        arrival_rate = elim rate as (λ _. Option floats.F) [
          | some bits ↦ some (floats.of_bits bits)
          | none ↦ s.arrival_rate
        ];
        oldest_unsent_ack = if s.oldest_unsent_ack == 0 then now else s.oldest_unsent_ack;
      } in
      let result : on_recv_ack floats s now rtt rate total seq continuous
          ≡ some (update_window_size_syn floats rtt seq continuous given) =
        rw h refl in
      let same : t ≡ update_window_size_syn floats rtt seq continuous given = cc in
      ap (λ u. u.in_slow_start) same ∙ syn_same rtt seq continuous given

  step_out : {s t : Udt floats} → Step s t → s.in_slow_start ≡ false → t.in_slow_start ≡ false
  unfolding get_seq_and_increment get_transmission_bandwidth on_resend on_recv_nak on_loss
      on_recv_packet on_send_packet
  step_out numbered h = h
  step_out (asked now elapsed continuous) h = ground arith
  step_out (resent {s = s} now) h = ground (arith, slower_same s)
  step_out (nacked {s = s}) h = ground (arith, slower_same s)
  step_out (acked {s = s} {t = t} now rtt rate total seq continuous e) h =
      recv_ack_out s t now rtt rate total seq continuous h e
  step_out (received now size continuous) h = ground arith
  step_out (acknowledged {s = s} needs_rate rate rate' e) h = send_ack_same s needs_rate rate e ∙ h
  step_out (sent size) h = ground arith

  -- Slow start, once left, is never entered again, whatever the layer asks of the controller.
  pub slow_start_over :
      (s t : Udt floats)
      → Steps s t
      → is_in_slow_start floats s ≡ false
      → is_in_slow_start floats t ≡ false
  unfolding is_in_slow_start
  slow_start_over s t start h = h
  slow_start_over s t (then_one {t = m} steps one) h = step_out one (slow_start_over s m steps h)
