-- ===== src/Layer/Receive/Ordering.antt =====
-- The ordering channels: what is delivered, and what is left waiting.
use ruknet.Base.{
  ℕ, zero, suc, ◌+◌, ◌-◌, ◌^◌, ◌≤◌, ◌<◌, ◌≡◌, ◌≢◌, refl, ap, ap₂, map, Option, none, some, List, [],
  ◌∷◌, ◌++◌, ◌∙◌, append_assoc, append-nil, arith, ltb, ◌==◌, if◌then◌else◌, length, set, get_or,
  get_or-set, length-set, length-append, length-replicate, get_or-replicate, Bool-cases, inl, inr,
  replicate, ok, bind,
}
use native.Mathlib.Numerals.{unary_clauses}
use ruknet.Datagram.{Fragment}
use ruknet.Window.{add_u32}
use ruknet.Reliability.{reliable_ordered}
use ruknet.Layer.{Layer, Outcome, Pieces, ordering_channel_size}
use ruknet.Layer.Receive.{drain, enqueue, deliver_current, deliver_ordered, deliver}

-- A queue of which nothing can be delivered: it is empty, or its first message has not come.
abbrev pub IsBlocked : Pieces → Type 0
IsBlocked [] = Unit {0}
IsBlocked (none ∷ rest) = Unit {0}
IsBlocked (some d ∷ rest) = ⊥

pub drain-blocked :
    (q : Pieces) (i : ℕ) (out : List (List ℕ)) → IsBlocked q → drain q i out ≡ (q, i, out)
unfolding drain
drain-blocked [] i out h = refl
drain-blocked (none ∷ rest) i out h = refl
drain-blocked (some _ ∷ rest) i out h = elim h [ ]

drain-ready :
    (ds : List (List ℕ)) (q : Pieces) (i : ℕ) (out : List (List ℕ))
    → IsBlocked q
    → i + length ds < 2 ^ 32
    → drain (map some ds ++ q) i out ≡ (q, i + length ds, out ++ ds)
unfolding drain
drain-ready [] q i out h b = simp (drain-blocked q i out h, append-nil, unary_clauses)
drain-ready (d ∷ ds) q i out h b =
    let e : add_u32 i 1 ≡ i + 1 = omega arith in
    let n : i + 1 + length ds ≡ i + suc (length ds) = omega arith in
    ap (λ k. drain (map some ds ++ q) k (out ++ d ∷ [])) e
    ∙ drain-ready ds q (i + 1) (out ++ d ∷ []) h (omega arith)
    ∙ ap₂ (λ k o. (q, k, o)) n (append_assoc out (d ∷ []) ds)

-- The layer has its 32 channels.
pub record HasChannels {C : Type 0} (l : Layer C) : Type 0 where
  pub ordered : length l.ordered_fragments ≡ ordering_channel_size
  pub ordering : length l.recv_ordering_index ≡ ordering_channel_size
  pub sequence : length l.recv_sequence_index ≡ ordering_channel_size

module _ {C : Type 0} where
  -- The layer once `channel` waits for `index`, with the queue `q`.
  abbrev pub advanced : Layer C → ℕ → ℕ → Pieces → List (List ℕ) → Layer C
  advanced l channel index q output = record l {
    ordered_fragments = set l.ordered_fragments channel q;
    recv_ordering_index = set l.recv_ordering_index channel index;
    recv_sequence_index = set l.recv_sequence_index channel 0;
    output_queue = output;
  }

  advanced-HasChannels :
      (l : Layer C) (channel index : ℕ) (q : Pieces) (output : List (List ℕ))
      → HasChannels l
      → HasChannels (advanced l channel index q output)
  advanced-HasChannels l channel index q output v = record {
    ordered = length-set _ _ _ ∙ v.ordered;
    ordering = length-set _ _ _ ∙ v.ordering;
    sequence = length-set _ _ _ ∙ v.sequence;
  }

  pub deliver-eq :
      (l : Layer C) (f : Fragment) (channel index : ℕ) (ds : List (List ℕ)) (q : Pieces)
      → channel < ordering_channel_size
      → f.ordering_info ≡ some (record { index = index; channel = channel })
      → f.sequence_index ≡ none
      → get_or l.recv_ordering_index channel 0 ≡ index
      → get_or l.ordered_fragments channel [] ≡ map some ds ++ q
      → IsBlocked q
      → index + 1 + length ds < 2 ^ 32
      → deliver f l
        ≡ ok (advanced l channel (index + 1 + length ds) q (l.output_queue ++ f.payload ∷ ds))
  unfolding deliver deliver_ordered deliver_current
  deliver-eq l f channel index ds q c info seq cur queue b room =
      let next : add_u32 index 1 ≡ index + 1 = omega arith in
      let drained = drain-ready ds q (index + 1) (l.output_queue ++ f.payload ∷ []) b room in
      let out = append_assoc l.output_queue (f.payload ∷ []) ds in
      ground (arith, next, drained, out)

  -- When the message that a channel waits for comes and has no sequence index, it is delivered,
  -- and after it, in order, all that came ahead of the first one missing, for which the channel
  -- then waits, its sequence begun anew. Other channels stay. The indices are short of 2^32.
  pub deliver-ready :
      (l : Layer C) (f : Fragment) (channel index : ℕ) (ds : List (List ℕ)) (q : Pieces) (other : ℕ)
      → HasChannels l
      → channel < ordering_channel_size
      → f.ordering_info ≡ some (record { index = index; channel = channel })
      → f.sequence_index ≡ none
      → get_or l.recv_ordering_index channel 0 ≡ index
      → get_or l.ordered_fragments channel [] ≡ map some ds ++ q
      → IsBlocked q
      → index + 1 + length ds < 2 ^ 32
      → channel ≢ other
      → (l' : Layer C) × (deliver f l ≡ ok l')
        × (l'.output_queue ≡ l.output_queue ++ f.payload ∷ ds)
        × (get_or l'.recv_ordering_index channel 0 ≡ index + 1 + length ds)
        × (get_or l'.recv_sequence_index channel 0 ≡ 0)
        × (get_or l'.ordered_fragments channel [] ≡ q)
        × (get_or l'.recv_ordering_index other 0 ≡ get_or l.recv_ordering_index other 0)
        × (get_or l'.recv_sequence_index other 0 ≡ get_or l.recv_sequence_index other 0)
        × (get_or l'.ordered_fragments other [] ≡ get_or l.ordered_fragments other [])
        × HasChannels l'
  unfolding deliver deliver_ordered deliver_current
  deliver-ready l f channel index ds q other v c info seq cur queue b room ne = (
    advanced l channel (index + 1 + length ds) q (l.output_queue ++ f.payload ∷ ds),
    deliver-eq l f channel index ds q c info seq cur queue b room,
    refl,
    ground (
      arith,
      get_or-set l.recv_ordering_index channel channel (index + 1 + length ds) 0 (omega arith),
    ),
    ground (arith, get_or-set l.recv_sequence_index channel channel 0 0 (omega arith)),
    ground (arith, get_or-set l.ordered_fragments channel channel q [] (omega arith)),
    ground (
      arith,
      get_or-set l.recv_ordering_index channel other (index + 1 + length ds) 0 (omega arith),
    ),
    ground (arith, get_or-set l.recv_sequence_index channel other 0 0 (omega arith)),
    ground (arith, get_or-set l.ordered_fragments channel other q [] (omega arith)),
    advanced-HasChannels l channel (index + 1 + length ds) q _ v,
  )

get_or-append :
    (xs ys : Pieces) (j : ℕ)
    → get_or (xs ++ ys) j none
      ≡ (if ltb j (length xs) then get_or xs j none else get_or ys (j - length xs) none)
get_or-append [] ys j = ground arith
get_or-append (x ∷ xs) ys zero = ground arith
get_or-append (x ∷ xs) ys (suc j) = ground (arith, get_or-append xs ys j)

get_or-beyond : (xs : Pieces) (j : ℕ) → length xs ≤ j → get_or xs j none ≡ none
get_or-beyond [] j h = refl
get_or-beyond (x ∷ xs) zero h = absurd (omega arith)
get_or-beyond (x ∷ xs) (suc j) h = get_or-beyond xs j (omega arith)

get_or-enqueue :
    (q : Pieces) (distance j : ℕ) (message : List ℕ)
    → get_or (enqueue q distance message) j none
      ≡ (if distance == j then some message else get_or q j none)
unfolding enqueue
get_or-enqueue q distance j message =
    let pad : Pieces = replicate (distance + 1 - length q) none in
    let sized : length (q ++ pad) ≡ length q + (distance + 1 - length q) =
      length-append q pad
      ∙ ap (λ k. length q + k) (length-replicate (distance + 1 - length q) none) in
    elim (Bool-cases (ltb distance (length q))) [
      | inl inside ↦ ground (arith, get_or-set q distance j (some message) none (ground arith))
      | inr beyond ↦
          let e = get_or-set (q ++ pad) distance j (some message) none (ground (arith, sized)) in
          let f = get_or-append q pad j in
          let g =
            get_or-replicate {A = Option (List ℕ)} (distance + 1 - length q) (j - length q) none in
          rw (beyond) (ground (arith, e, f, g, get_or-beyond q j))
    ]

-- The fragments in a row.
unfoldable pub deliver_each : {C : Type 0} → List Fragment → Layer C → Outcome C (Layer C)
deliver_each [] l = ok l
deliver_each (f ∷ fs) l = bind (deliver f l) (deliver_each fs)

-- Ordered fragments of the channel, with the indices from `index` on.
unfoldable pub in_order : ℕ → ℕ → List (List ℕ) → List Fragment
in_order channel index [] = []
in_order channel index (d ∷ ds) =
    record {
      reliability = reliable_ordered;
      reliable_index = none;
      sequence_index = none;
      ordering_info = some (record { index = index; channel = channel });
      split_info = none;
      payload = d;
    }
    ∷ in_order channel (index + 1) ds

module _ {C : Type 0} where
  -- A message on a channel below 32, ahead of the one that the channel waits for, is kept at its
  -- place in the channel's queue. Nothing is delivered, and the queue's other places and the
  -- indices waited for stay.
  pub deliver-early :
      (l : Layer C) (f : Fragment) (channel index j : ℕ)
      → HasChannels l
      → channel < ordering_channel_size
      → f.ordering_info ≡ some (record { index = index; channel = channel })
      → get_or l.recv_ordering_index channel 0 < index
      → (l' : Layer C) × (deliver f l ≡ ok l')
        × (l'.output_queue ≡ l.output_queue)
        × (l'.recv_ordering_index ≡ l.recv_ordering_index)
        × (get_or (get_or l'.ordered_fragments channel []) j none ≡ (
            if get_or l.recv_ordering_index channel 0 + 1 + j == index
            then some f.payload
            else get_or (get_or l.ordered_fragments channel []) j none))
  unfolding deliver deliver_ordered
  deliver-early l f channel index j v c info early =
      let current = get_or l.recv_ordering_index channel 0 in
      let queue = enqueue (get_or l.ordered_fragments channel []) (index - current - 1) f.payload in
      (
        record l { ordered_fragments = set l.ordered_fragments channel queue },
        ground arith,
        refl,
        refl,
        ground (
          arith,
          get_or-set l.ordered_fragments channel channel queue [] (omega arith),
          get_or-enqueue (get_or l.ordered_fragments channel []) (index - current - 1) j f.payload,
        ),
      )

  -- A channel whose queue is empty or begins with a message that has not come delivers each
  -- message of a run from the index waited for on, short of 2^32, as it comes, and keeps its
  -- queue: what lies behind the missing message is not delivered, though the run may pass its
  -- index.
  pub deliver_each-in_order :
      (l : Layer C) (channel index : ℕ) (ds : List (List ℕ)) (q : Pieces)
      → HasChannels l
      → channel < ordering_channel_size
      → get_or l.recv_ordering_index channel 0 ≡ index
      → get_or l.ordered_fragments channel [] ≡ q
      → IsBlocked q
      → index + length ds < 2 ^ 32
      → (l' : Layer C) × (deliver_each (in_order channel index ds) l ≡ ok l')
        × (l'.output_queue ≡ l.output_queue ++ ds)
        × (get_or l'.recv_ordering_index channel 0 ≡ index + length ds)
        × (get_or l'.ordered_fragments channel [] ≡ q)
  unfolding deliver_each in_order
  deliver_each-in_order l channel index [] q v c cur queue b room =
      (l, refl, rw (append-nil l.output_queue) refl, omega arith, queue)
  deliver_each-in_order l channel index (d ∷ ds) q v c cur queue b room =
      let l1 = advanced l channel (index + 1) q (l.output_queue ++ d ∷ []) in
      let f : Fragment = record {
        reliability = reliable_ordered;
        reliable_index = none;
        sequence_index = none;
        ordering_info = some (record { index = index; channel = channel });
        split_info = none;
        payload = d;
      } in
      let first : deliver f l ≡ ok l1 =
        deliver-eq l f channel index [] q c refl refl cur queue b (omega arith)
        ∙ ap (λ k. ok (advanced l channel k q (l.output_queue ++ d ∷ []))) (omega arith) in
      let at_index : get_or l1.recv_ordering_index channel 0 ≡ index + 1 =
        ground
          (arith, get_or-set l.recv_ordering_index channel channel (index + 1) 0 (omega arith)) in
      let at_queue : get_or l1.ordered_fragments channel [] ≡ q =
        ground (arith, get_or-set l.ordered_fragments channel channel q [] (omega arith)) in
      let (l', e, out, i, kept) =
        deliver_each-in_order l1 channel (index + 1) ds q
          (advanced-HasChannels l channel (index + 1) q _ v) c at_index at_queue b (omega arith) in
      (
        l',
        ap (λ r. bind r (deliver_each (in_order channel (index + 1) ds))) first ∙ e,
        out ∙ append_assoc l.output_queue (d ∷ []) ds,
        omega (arith, i),
        kept,
      )
