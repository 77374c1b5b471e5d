-- ===== src/Layer/Send/Weights.antt =====
-- The weights of the outgoing queue.
use ruknet.Base.{ℕ, ◌+◌, ◌^◌, ◌≤◌, ◌<◌, ◌≡◌, refl, List, [], ◌∷◌, arith, length, get_or, get_or-set}
use ruknet.Reliability.{Priority, immediate, high, medium, low, priority_index, priority_count}
use ruknet.Datagram.{Fragment}
use ruknet.Window.{sub_u64}
use ruknet.Layer.{Layer, OutgoingFragment}
use ruknet.Layer.Send.{
  priority_factor, weight_after, get_next_weight, init_next_weight, push, push_outgoing, usize,
}

priority_factor-pos : (p : Priority) → 0 < priority_factor (priority_index p + 1)
unfolding priority_factor priority_index
priority_factor-pos immediate = omega arith
priority_factor-pos high = omega arith
priority_factor-pos medium = omega arith
priority_factor-pos low = omega arith

priority_index-lt : (p : Priority) → priority_index p < priority_count
unfolding priority_index
priority_index-lt p = ground arith

weight_after-le :
    (peek : OutgoingFragment) (current p : ℕ)
    → sub_u64 peek.weight (priority_factor (priority_index peek.priority)) + priority_factor p
      < 2 ^ 64
    → current ≤ weight_after peek current p
unfolding weight_after
weight_after-le peek current p room = ground arith

module _ {C : Type 0} where
  next_weight_stored :
      (priority : Priority) (l : Layer C) (peek : OutgoingFragment) (rest : List OutgoingFragment)
      → l.outgoing_queue ≡ peek ∷ rest
      → length l.outgoing_next_weight ≡ priority_count
      → let p = priority_index priority in
        let (weight, l') = get_next_weight priority l in
        get_or l'.outgoing_next_weight p 0 ≡ usize (weight + priority_factor (p + 1))
  unfolding get_next_weight
  next_weight_stored priority l peek rest e n =
      let p = priority_index priority in
      let inside = priority_index-lt priority in
      let weight = weight_after peek (get_or l.outgoing_next_weight p 0) p in
      ground (
        arith,
        get_or-set l.outgoing_next_weight p p (usize (weight + priority_factor (p + 1))) 0
            (omega (arith, inside)),
      )

  -- Of two messages of one priority that are weighed one after the other while something is
  -- queued, the later one gets the greater weight, as long as the weights do not wrap.
  pub get_next_weight-lt :
      (priority : Priority) (l : Layer C) (peek peek' : OutgoingFragment)
      (rest rest' : List OutgoingFragment)
      → l.outgoing_queue ≡ peek ∷ rest
      → length l.outgoing_next_weight ≡ priority_count
      → let p = priority_index priority in
        let (weight, l') = get_next_weight priority l in
        weight + priority_factor (p + 1) < 2 ^ 64
        → sub_u64 peek'.weight (priority_factor (priority_index peek'.priority)) + priority_factor p
          < 2 ^ 64
        → weight < (get_next_weight priority (record l' { outgoing_queue = peek' ∷ rest' })).0
  unfolding get_next_weight
  get_next_weight-lt priority l peek peek' rest rest' e n room room' =
      let p = priority_index priority in
      let weight = (get_next_weight priority l).0 in
      let stored = next_weight_stored priority l peek rest e n in
      let le =
        weight_after-le peek' (get_or (get_next_weight priority l).1.outgoing_next_weight p 0) p
          room' in
      omega (arith, stored, le, priority_factor-pos priority, room)

  -- The first message that is put into an empty queue and the next one of the same priority get
  -- the same weight.
  pub get_next_weight_ties :
      (priority : Priority) (f : Fragment) (l : Layer C)
      → let l0 = record l { outgoing_queue = [] } in
        (get_next_weight priority (push_outgoing priority f l0)).0 ≡ (get_next_weight priority l0).0
  unfolding get_next_weight init_next_weight push weight_after priority_factor priority_index
  get_next_weight_ties immediate f l = refl
  get_next_weight_ties high f l = refl
  get_next_weight_ties medium f l = refl
  get_next_weight_ties low f l = refl
