-- ===== src/Layer/Send.antt =====
-- src/reliability/layer.rs: what the layer does with a message to send, up to the outgoing queue.
pub mod Weights
pub mod Split
pub mod Sequence
pub mod Total
pub mod Wire
use ruknet.Base.{
  ℕ, zero, suc, ◌+◌, ◌-◌, ◌*◌, ◌/◌, ◌%◌, ◌^◌, min, Bool, true, false, Option, none, some, List, [],
  ◌∷◌, ◌++◌, ltb, leb, ◌==◌, if◌then◌else◌, length, set, get_or, take, drop, ok, fault,
}
use ruknet.Reliability.{Reliability, is_sequenced, is_ordered, Priority, priority_index}
use ruknet.Datagram.{Fragment, split_info_size, calc_header_size, calc_full_size}
use ruknet.Window.{add_u32, sub_u64}
use ruknet.Layer.{Layer, Outcome, OutgoingFragment, ordering_channel_size}

abbrev pub usize : ℕ → ℕ
usize n = n % 2 ^ 64

unfoldable pub priority_factor : ℕ → ℕ
priority_factor p = usize (2 ^ p * p) + p

-- `BinaryHeap::push`: behind those of at most its weight.
unfoldable pub push : OutgoingFragment → List OutgoingFragment → List OutgoingFragment
push o [] = o ∷ []
push o (p ∷ rest) =
    let later = push o rest in if ltb o.weight p.weight then o ∷ p ∷ rest else p ∷ later

-- The weight that is due for the priority of index `p`, when `peek` is at the head of the queue.
unfoldable pub weight_after : OutgoingFragment → ℕ → ℕ → ℕ
weight_after peek current p =
    let min_weight = sub_u64 peek.weight (priority_factor (priority_index peek.priority)) in
    if ltb current min_weight then usize (min_weight + priority_factor p) else current

abbrev pub split_size_of : ℕ → ℕ → ℕ
split_size_of len allowed = usize (sub_u64 len 1 / allowed + 1)

module _ {C : Type 0} where
  unfoldable pub init_next_weight : Layer C → Layer C
  init_next_weight l = record l {
    outgoing_next_weight =
        (2 ^ 0 * 0 + 0) ∷ (2 ^ 1 * 1 + 1) ∷ (2 ^ 2 * 2 + 2) ∷ (2 ^ 3 * 3 + 3) ∷ [];
  }

  unfoldable pub get_next_weight : Priority → Layer C → ℕ × Layer C
  get_next_weight priority l =
      let p = priority_index priority in
      elim l.outgoing_queue as (λ _. ℕ × Layer C) [
        | [] ↦ (get_or (init_next_weight l).outgoing_next_weight p 0, init_next_weight l)
        | peek ∷ rest ↦
            let weight = weight_after peek (get_or l.outgoing_next_weight p 0) p in
            (
              weight,
              record l {
                outgoing_next_weight =
                    set l.outgoing_next_weight p (usize (weight + priority_factor (p + 1)));
              },
            )
      ]

  abbrev pub push_outgoing : Priority → Fragment → Layer C → Layer C
  push_outgoing priority f l0 =
      let (weight, l) = get_next_weight priority l0 in
      record l {
        outgoing_queue =
            push (record { weight = weight; priority = priority; fragment = f }) l.outgoing_queue;
      }

  -- The rounds `i` of `size`, of which `left` are to go.
  unfoldable pub split_loop : ℕ → ℕ → ℕ → ℕ → Priority → Fragment → List ℕ → Layer C → Layer C
  split_loop zero i size allowed priority base message l = l
  split_loop (suc left) i size allowed priority base message l =
      let n = min (length message) allowed in
      let piece : Fragment = record base {
        split_info =
            some (record { size = size % 2 ^ 32; id = l.send_split_id; index = i % 2 ^ 32 });
        payload = take n message;
      } in
      split_loop left (i + 1) size allowed priority base (drop n message)
        (push_outgoing priority piece l)

  -- `allowed_size`
  abbrev pub allowed_of : Layer C → Fragment → ℕ
  allowed_of l base =
      sub_u64 (sub_u64 l.max_size_of_packet (calc_header_size (record base { payload = [] })))
        split_info_size

  -- A size of 0 allowed divides by zero, which panics.
  unfoldable pub split_fragment : Priority → Fragment → Layer C → Outcome C (Layer C)
  split_fragment priority base l =
      let allowed = allowed_of l base in
      let size = split_size_of (length base.payload) allowed in
      let l' =
        split_loop size 0 size allowed priority (record base { payload = [] }) base.payload l in
      if allowed == 0
      then fault
      else ok (record l' { send_split_id = (l'.send_split_id + 1) % 2 ^ 16 })

  -- The fragment of a message, with its sequence and ordering indices.
  unfoldable pub stamp : Reliability → ℕ → List ℕ → Layer C → Fragment × Layer C
  stamp reliability channel message l =
      let ordering = get_or l.send_ordering_index channel 0 in
      let plain : Fragment = record {
        reliability = reliability;
        reliable_index = none;
        sequence_index = none;
        ordering_info = none;
        split_info = none;
        payload = message;
      } in
      let ordered : Fragment = record plain {
        ordering_info = some (record { index = ordering; channel = channel });
      } in
      if is_sequenced reliability
      then (
        record ordered { sequence_index = some l.send_sequence_index },
        record l { send_sequence_index = add_u32 l.send_sequence_index 1 },
      )
      else if is_ordered reliability
      then (
        ordered,
        record l {
          send_sequence_index = 0;
          send_ordering_index = set l.send_ordering_index channel (add_u32 ordering 1);
        },
      )
      else (plain, l)

  -- The result of `reliablize`, which the code calls on a fragment to split, is dropped there. A
  -- channel past the arrays of 32 panics, where the reliability has a channel.
  unfoldable pub send : Priority → Reliability → ℕ → List ℕ → Layer C → Outcome C (Layer C)
  send priority reliability channel message l0 =
      let (f, l) = stamp reliability channel message l0 in
      let routed = if is_sequenced reliability then true else is_ordered reliability in
      if (if routed then leb ordering_channel_size channel else false)
      then fault
      else if ltb l.max_size_of_packet (calc_full_size f)
      then split_fragment priority f l
      else ok (push_outgoing priority f l)
