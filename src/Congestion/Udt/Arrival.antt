-- ===== src/Congestion/Udt/Arrival.antt =====
-- src/reliability/congestion_controller/udt.rs: the arrival rate that goes out with an acknowledgement.
-- A panic, or too little fuel, is `none`.
use ruknet.Base.{
  ℕ, zero, suc, ◌+◌, ◌-◌, ◌/◌, Bool, true, false, ◌&&◌, Option, none, some, List, [], ◌∷◌, ltb,
  ◌==◌, if◌then◌else◌, length, get_elem?,
}
use ruknet.Congestion.Udt.{Floats, Udt, less, equal, greater, packet_arrival_history_size}

module _ (floats : Floats) where
  open floats use {F, add, mul, div, lt, le, literal, of_u64, to_bits, compare}

  -- The elements less than, equal to and greater than the pivot; an incomparable one panics.
  unfoldable pub parts : F → List F → Option (List F × List F × List F)
  parts pivot [] = some ([], [], [])
  parts pivot (e ∷ es) = elim (parts pivot es) [
    | some (l, q, g) ↦ elim (compare e pivot) [
      | some less ↦ some (e ∷ l, q, g)
      | some equal ↦ some (l, e ∷ q, g)
      | some greater ↦ some (l, q, e ∷ g)
      | none ↦ none
    ]
    | none ↦ none
  ]

  -- Each round leaves the pivot out, so that as many rounds as there are elements are enough.
  unfoldable pub find_kth_element_recursive : ℕ → List F → ℕ → Option F
  find_kth_element_recursive zero list k = none
  find_kth_element_recursive (suc fuel) list k = elim (length list == 1) [
    | true ↦ get_elem? list 0
    | false ↦ elim (get_elem? list (length list / 2)) [
      | some pivot ↦ elim (parts pivot list) [
        | some (l, q, g) ↦ elim (ltb k (length l)) [
          | true ↦ find_kth_element_recursive fuel l k
          | false ↦ elim (ltb k (length l + length q)) [
            | true ↦ some pivot
            | false ↦ find_kth_element_recursive fuel g (k - length l - length q)
          ]
        ]
        | none ↦ none
      ]
      | none ↦ none
    ]
  ]

  unfoldable pub find_median_arrival_rate : Udt floats → Option F
  find_median_arrival_rate s =
      let history = s.packet_arrival_history in
      find_kth_element_recursive (length history) history (length history / 2)

  -- The sum and the number of the rates from an eighth of the median to below eight times it.
  unfoldable pub near_median : F → List F → F → ℕ → F × ℕ
  near_median median [] sum count = (sum, count)
  near_median median (e ∷ es) sum count =
      let near = le (div median (literal 8 1)) e && lt e (mul median (literal 8 1)) in
      let (sum', count') = if near then (add sum e, count + 1) else (sum, count) in
      near_median median es sum' count'

  unfoldable pub calc_arrival_rate : Udt floats → Option (Option F)
  calc_arrival_rate s = elim (ltb s.packet_arrival_history_index packet_arrival_history_size) [
    | true ↦ some none
    | false ↦ elim (find_median_arrival_rate s) [
      | some median ↦
          let (sum, count) = near_median median s.packet_arrival_history (literal 0 1) 0 in
          some (if ltb 0 count then some (div sum (of_u64 count)) else none)
      | none ↦ none
    ]
  ]

  abbrev bits_of : Option F → Option ℕ
  bits_of none = none
  bits_of (some rate) = some (to_bits rate)

  unfoldable pub on_send_ack : Udt floats → Bool → Option ℕ → Option (Option ℕ × Udt floats)
  on_send_ack s needs_arrival_rate arrival_rate =
      let s' : Udt floats = record s { oldest_unsent_ack = 0 } in
      elim needs_arrival_rate [
        | true ↦ elim (calc_arrival_rate s) [ some rate ↦ some (bits_of rate, s') | none ↦ none ]
        | false ↦ some (arrival_rate, s')
      ]
