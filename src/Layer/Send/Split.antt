-- ===== src/Layer/Send/Split.antt =====
-- Splitting a message: the pieces that reach the outgoing queue.
use mathlib.Core.List.{Perm, perm_append_comm}
use mathlib.Core.List.Perm
use ruknet.Base.{
  perm_swap_front, ℕ, zero, suc, ◌+◌, ◌-◌, ◌*◌, ◌/◌, ◌%◌, ◌^◌, ◌≤◌, ◌<◌, ◌≡◌, refl, subst,
  Bool-cases, inl, inr, ◌∙◌, min, none, some, List, [], ◌∷◌, ◌++◌, append-nil, arith, ltb, length,
  take, drop, take-append-drop, length-take, length-drop, ok,
}
use native.Mathlib.Nat.{div-lt_iff_lt-mul, div-le_self}
use ruknet.Reliability.{Priority}
use ruknet.Datagram.{Fragment, calc_header_size, calc_full_size}
use ruknet.Window.{sub_u64}
use ruknet.Layer.{Layer, OutgoingFragment}
use ruknet.Layer.Send.{
  init_next_weight, push, get_next_weight, push_outgoing, split_loop, allowed_of, split_size_of,
  split_fragment,
}

-- The fragments of a queue.
abbrev pub queued : List OutgoingFragment → List Fragment
queued [] = []
queued (o ∷ rest) = o.fragment ∷ queued rest

-- `left` pieces of a message from the piece `i` on, each of at most `allowed` bytes.
unfoldable pub cut : ℕ → ℕ → ℕ → ℕ → ℕ → Fragment → List ℕ → List Fragment
cut zero i size id allowed base message = []
cut (suc left) i size id allowed base message =
    let n = min (length message) allowed in
    record base {
      split_info = some (record { size = size % 2 ^ 32; id = id; index = i % 2 ^ 32 });
      payload = take n message;
    }
    ∷ cut left (i + 1) size id allowed base (drop n message)

-- The pieces that `split_fragment` cuts a fragment into.
abbrev pub pieces_of : {C : Type 0} → Layer C → Fragment → List Fragment
pieces_of l base =
    let allowed = allowed_of l base in
    let size = split_size_of (length base.payload) allowed in
    cut size 0 size l.send_split_id allowed (record base { payload = [] }) base.payload

abbrev pub payloads : List Fragment → List ℕ
payloads [] = []
payloads (f ∷ fs) = f.payload ++ payloads fs

push-queued :
    (o : OutgoingFragment) (q : List OutgoingFragment)
    → Perm (queued (push o q)) (o.fragment ∷ queued q)
unfolding push
push-queued o [] = Perm.refl _
push-queued o (p ∷ rest) = elim (Bool-cases (ltb o.weight p.weight)) [
  | inl before ↦ rw (before) (Perm.refl _)
  | inr behind ↦ rw (behind) (
      Perm.trans (Perm.append_left (p.fragment ∷ []) (push-queued o rest))
        (Perm.append_right (queued rest) (perm_append_comm (p.fragment ∷ []) (o.fragment ∷ []))))
]

div_up : (len a : ℕ) → 0 < len → 0 < a → len ≤ ((len - 1) / a + 1) * a
div_up len a h pos =
    let q = (len - 1) / a + 1 in
    let below : len - 1 < q * a =
      (div-lt_iff_lt-mul {k = a} {x = len - 1} {y = q} pos).0 (omega arith) in
    omega (arith, below)

split_size-eq : (len a : ℕ) → 0 < len → len < 2 ^ 63 → split_size_of len a ≡ (len - 1) / a + 1
split_size-eq len a h fits =
    let s : sub_u64 len 1 ≡ len - 1 = omega arith in
    let le : (len - 1) / a ≤ len - 1 = div-le_self (len - 1) a in rw (s) (omega (arith, le))

pub split_size-covers : (len a : ℕ) → 0 < len → len < 2 ^ 63 → 0 < a → len ≤ split_size_of len a * a
split_size-covers len a h fits pos = rw (split_size-eq len a h fits) (div_up len a h pos)

pub split_size-many : (len a : ℕ) → 0 < a → a < len → len < 2 ^ 63 → 1 < split_size_of len a
split_size-many len a pos long fits =
    let up = div_up len a (omega arith) pos in
    rw (split_size-eq len a (omega arith) fits) (grind (arith, up))

pub split_size-small : (len a : ℕ) → 0 < a → a < len → len < 2 ^ 32 → split_size_of len a < 2 ^ 32
split_size-small len a pos long fits =
    let le : (len - 1) / a ≤ len - 1 = div-le_self (len - 1) a in
    rw (split_size-eq len a (omega arith) (omega arith)) (omega (arith, le))

payloads-cut :
    (left i size id allowed : ℕ) (base : Fragment) (message : List ℕ)
    → length message ≤ left * allowed
    → payloads (cut left i size id allowed base message) ≡ message
unfolding cut
payloads-cut zero i size id allowed base [] h = refl
payloads-cut zero i size id allowed base (x ∷ message) h = absurd (omega arith)
payloads-cut (suc left) i size id allowed base message h =
    let n = min (length message) allowed in
    let short : length (drop n message) ≤ left * allowed = ground (arith, length-drop n message) in
    rw (payloads-cut left (i + 1) size id allowed base (drop n message) short)
      (take-append-drop n message)

header-empty :
    (base : Fragment) → calc_header_size (record base { payload = [] }) ≡ calc_header_size base
unfolding calc_header_size
header-empty base = refl

-- Each fragment fits into a packet.
abbrev pub AllFit : ℕ → List Fragment → Type 0
AllFit limit [] = Unit {0}
AllFit limit (f ∷ fs) = (calc_full_size f ≤ limit) × AllFit limit fs

cut-AllFit :
    (limit left i size id allowed : ℕ) (base : Fragment) (message : List ℕ)
    → base.split_info ≡ none
    → calc_header_size base + 10 + allowed ≤ limit
    → AllFit limit (cut left i size id allowed base message)
unfolding cut calc_full_size calc_header_size
cut-AllFit limit zero i size id allowed base message e h = tt
cut-AllFit limit (suc left) i size id allowed base message e h =
    let n = min (length message) allowed in
    (
      ground (arith, length-take n message),
      cut-AllFit limit left (i + 1) size id allowed base (drop n message) e h,
    )

module _ {C : Type 0} where
  next_weight-same :
      (priority : Priority) (l : Layer C)
      → let l' = (get_next_weight priority l).1 in
        (l'.outgoing_queue ≡ l.outgoing_queue) × (l'.send_split_id ≡ l.send_split_id)
  unfolding get_next_weight init_next_weight
  next_weight-same priority l = ground arith

  push_outgoing-queued :
      (priority : Priority) (f : Fragment) (l : Layer C)
      → Perm (queued (push_outgoing priority f l).outgoing_queue) (f ∷ queued l.outgoing_queue)
        × ((push_outgoing priority f l).send_split_id ≡ l.send_split_id)
  push_outgoing-queued priority f l =
      let (same, id) = next_weight-same priority l in
      let o : OutgoingFragment = record {
        weight = (get_next_weight priority l).0;
        priority = priority;
        fragment = f;
      } in
      (
        subst
            (λ q.
              Perm (queued (push o (get_next_weight priority l).1.outgoing_queue)) (f ∷ queued q))
            same (push-queued o (get_next_weight priority l).1.outgoing_queue),
        id,
      )

  split_loop-queued :
      (left i size allowed : ℕ) (priority : Priority) (base : Fragment) (message : List ℕ)
      (l : Layer C)
      → let l' = split_loop left i size allowed priority base message l in
        Perm
          (queued l'.outgoing_queue)
          (queued l.outgoing_queue ++ cut left i size l.send_split_id allowed base message)
        × (l'.send_split_id ≡ l.send_split_id)
  unfolding split_loop cut
  split_loop-queued zero i size allowed priority base message l =
      (rw (append-nil (queued l.outgoing_queue)) (Perm.refl _), refl)
  split_loop-queued (suc left) i size allowed priority base message l =
      let n = min (length message) allowed in
      let piece : Fragment = record base {
        split_info =
            some (record { size = size % 2 ^ 32; id = l.send_split_id; index = i % 2 ^ 32 });
        payload = take n message;
      } in
      let l1 = push_outgoing priority piece l in
      let (pushed, id) = push_outgoing-queued priority piece l in
      let (p, id') =
        split_loop-queued left (i + 1) size allowed priority base (drop n message) l1 in
      let pieces = cut left (i + 1) size l.send_split_id allowed base (drop n message) in
      let p' : Perm
          (queued
            (split_loop left (i + 1) size allowed priority base (drop n message) l1).outgoing_queue)
          (queued l1.outgoing_queue ++ pieces) =
        subst
          (λ k.
            Perm
              (queued
                (split_loop left (i + 1) size allowed priority base (drop n message)
                  l1).outgoing_queue)
              (queued l1.outgoing_queue ++ cut left (i + 1) size k allowed base (drop n message)))
          id p in
      (
        Perm.trans p' (
            Perm.trans (Perm.append_right pieces pushed)
              (perm_swap_front (piece ∷ []) (queued l.outgoing_queue) pieces)),
        id' ∙ id,
      )

  -- A non-empty fragment, not yet split and shorter than 2^63, is cut without a panic when a
  -- packet has room for more than its headers. Each piece fits a packet and is queued once, their
  -- payloads in a row are the message, and what was queued stays.
  pub split_fragment-lem :
      (priority : Priority) (base : Fragment) (l : Layer C)
      → base.split_info ≡ none
      → 0 < length base.payload
      → length base.payload < 2 ^ 63
      → calc_header_size base + 10 < l.max_size_of_packet
      → l.max_size_of_packet < 2 ^ 64
      → let pieces = pieces_of l base in
        (l' : Layer C) × (split_fragment priority base l ≡ ok l')
        × Perm (queued l'.outgoing_queue) (queued l.outgoing_queue ++ pieces)
        × (payloads pieces ≡ base.payload)
        × AllFit l.max_size_of_packet pieces
  unfolding split_fragment
  split_fragment-lem priority base l whole some_left fits small limit =
      let allowed = allowed_of l base in
      let a : allowed ≡ l.max_size_of_packet - (calc_header_size base + 10) =
        rw (header-empty base) (omega arith) in
      let size = split_size_of (length base.payload) allowed in
      let empty : Fragment = record base { payload = [] } in
      let l1 = split_loop size 0 size allowed priority empty base.payload l in
      let (p, id) = split_loop-queued size 0 size allowed priority empty base.payload l in
      (
        record l1 { send_split_id = (l1.send_split_id + 1) % 2 ^ 16 },
        ground (arith, a),
        p,
        payloads-cut size 0 size l.send_split_id allowed empty base.payload
            (split_size-covers (length base.payload) allowed some_left fits (omega (arith, a))),
        cut-AllFit l.max_size_of_packet size 0 size l.send_split_id allowed empty base.payload whole
            (rw (header-empty base) (omega (arith, a))),
      )
