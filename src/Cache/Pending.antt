-- ===== src/Cache/Pending.antt =====
-- The fragments that are still to be acknowledged or sent again: no operation of the cache loses one.
use mathlib.Core.List.{Perm}
use mathlib.Core.List.Perm
use ruknet.Base.{
  perm_swap_front, ℕ, zero, suc, ◌+◌, ◌≡◌, ◌<◌, refl, ap, ◌∙◌, true, inl, inr, Bool-cases, Option,
  none, some, List, [], ◌∷◌, ◌++◌, append_assoc, append-nil, arith, get_or, set, ok, length,
  length-set, subst, ◌⊎◌,
}
use ruknet.Base.Bits.{bit_and_mask}
use ruknet.Datagram.{Fragment}
use ruknet.Window.{add_u32}
use ruknet.Cache.{
  PacketHistory, valid, invalid, used, RetransmitCache, relative_index, history, is_invalid,
  is_used, is_empty, insert, mark_as_used, shift_loop, shift, retransmit_loop,
  get_retransmit_fragments, packet_history_size, Sweep,
}

-- The fragments of a history that nobody has acknowledged.
abbrev pub held : PacketHistory → List Fragment
held (valid fragments time_sent) = fragments
held invalid = []
held used = []

unfoldable pub stored : List PacketHistory → List Fragment
stored [] = []
stored (h ∷ hs) = held h ++ stored hs

-- What the cache is still to deliver: the queue, and what is stored.
unfoldable pub pending : RetransmitCache → List Fragment
pending c = c.retransmit_fragments ++ stored c.histories

-- A slot that is overwritten gives back what it held, and takes up what is written.
stored-set :
    (hs : List PacketHistory) (i : ℕ) (h : PacketHistory)
    → i < length hs
    → Perm (held (get_or hs i invalid) ++ stored (set hs i h)) (held h ++ stored hs)
unfolding stored
stored-set [] i h lt = absurd (omega arith)
stored-set (x ∷ hs) zero h lt = perm_swap_front (held x) (held h) (stored hs)
stored-set (x ∷ hs) (suc i) h lt =
    Perm.trans (perm_swap_front (held (get_or hs i invalid)) (held x) (stored (set hs i h))) (
      Perm.trans (Perm.append_left (held x) (stored-set hs i h (omega arith)))
        (perm_swap_front (held x) (held h) (stored hs)))

-- All 128 slots are there, so each sequence number has one.
abbrev pub IsSized : List PacketHistory → Type 0
IsSized hs = length hs ≡ packet_history_size

pub relative_index-lt :
    (hs : List PacketHistory) (seq : ℕ) → IsSized hs → relative_index seq < length hs
unfolding relative_index
relative_index-lt hs seq h = rw (bit_and_mask 7 seq) (omega arith)

-- Clearing a slot whose history holds `fs`.
stored-clear :
    (hs : List PacketHistory) (seq : ℕ) (h : PacketHistory) (fs : List Fragment)
    → IsSized hs
    → held (history hs seq) ≡ fs
    → held h ≡ []
    → Perm (fs ++ stored (set hs (relative_index seq) h)) (stored hs)
stored-clear hs seq h fs n e e' =
    subst (λ t. Perm (t ++ stored (set hs (relative_index seq) h)) (stored hs)) e
      (subst
        (λ t.
          Perm (held (history hs seq) ++ stored (set hs (relative_index seq) h)) (t ++ stored hs))
        e' (stored-set hs (relative_index seq) h (relative_index-lt hs seq n)))

set-IsSized :
    (hs : List PacketHistory) (i : ℕ) (h : PacketHistory) → IsSized hs → IsSized (set hs i h)
set-IsSized hs i h n = length-set hs i h ∙ n

shift_loop-stored :
    (left start i : ℕ) (hs : List PacketHistory)
    → IsSized hs
    → Perm (stored (shift_loop left start i hs).1) (stored hs)
      × IsSized (shift_loop left start i hs).1
unfolding shift_loop
shift_loop-stored zero start i hs n = (Perm.refl _, n)
shift_loop-stored (suc left) start i hs n =
    elim (Bool-cases (is_used (history hs (add_u32 start i)))) [
      | inr stop ↦ rw (stop, shift_loop) (Perm.refl _, n)
      | inl more ↦
          let seq = add_u32 start i in
          let hs' = set hs (relative_index seq) invalid in
          let (p, n') = shift_loop-stored left start (i + 1) hs' (set-IsSized hs _ invalid n) in
          rw (more, shift_loop)
            (Perm.trans p (stored-clear hs seq invalid [] n (ground arith) refl), n')
    ]

-- The queue and the histories together, as the sweep goes on.
abbrev swept : Sweep → List Fragment
swept (count, hs, queue) = queue ++ stored hs

retransmit_loop-step :
    (left now rto start i : ℕ) (hs : List PacketHistory) (queue : List Fragment)
    → let seq = add_u32 start i in
      let next = retransmit_loop left now rto start (i + 1) (set hs (relative_index seq) invalid) in
      let out = retransmit_loop (suc left) now rto start i hs queue in
      (out ≡ next (queue ++ held (history hs seq))) ⊎ (out ≡ (i, hs, queue))
unfolding retransmit_loop
retransmit_loop-step left now rto start i hs queue = ground (arith, append-nil queue)

retransmit_loop-stored :
    (left now rto start i : ℕ) (hs : List PacketHistory) (queue : List Fragment)
    → IsSized hs
    → Perm (swept (retransmit_loop left now rto start i hs queue)) (queue ++ stored hs)
      × IsSized (retransmit_loop left now rto start i hs queue).1
retransmit_loop-stored zero now rto start i hs queue n = unfold retransmit_loop in (Perm.refl _, n)
retransmit_loop-stored (suc left) now rto start i hs queue n =
    elim (retransmit_loop-step left now rto start i hs queue) [
      | inr stop ↦ rw stop (Perm.refl _, n)
      | inl more ↦
          let seq = add_u32 start i in
          let hs' = set hs (relative_index seq) invalid in
          let fs = held (history hs seq) in
          let (p, n') =
            retransmit_loop-stored left now rto start (i + 1) hs' (queue ++ fs)
              (set-IsSized hs _ invalid n) in
          rw more (
            Perm.trans p (
                rw (append_assoc queue fs (stored hs'))
                  (Perm.append_left queue (stored-clear hs seq invalid fs n refl refl))),
            n',
          )
    ]

insert-pending_stored :
    (hs : List PacketHistory) (seq time_sent : ℕ) (fs : List Fragment)
    → IsSized hs
    → is_invalid (history hs seq) ≡ true
    → Perm (stored (set hs (relative_index seq) (valid fs time_sent))) (fs ++ stored hs)
insert-pending_stored hs seq time_sent fs n e =
    let empty : held (history hs seq) ≡ [] = ground arith in
    subst
      (λ t. Perm (t ++ stored (set hs (relative_index seq) (valid fs time_sent))) (fs ++ stored hs))
      empty (stored-set hs (relative_index seq) (valid fs time_sent) (relative_index-lt hs seq n))

-- Sweeping a cache of 128 slots for the packets that have timed out loses no pending fragment and
-- makes none up, and keeps the 128 slots.
pub get_retransmit_fragments-pending :
    (now rto : ℕ) (c : RetransmitCache)
    → IsSized c.histories
    → Perm (pending (get_retransmit_fragments now rto c)) (pending c)
      × IsSized (get_retransmit_fragments now rto c).histories
unfolding pending get_retransmit_fragments
get_retransmit_fragments-pending now rto c n = elim (Bool-cases (is_empty c)) [
  | inl empty ↦ rw (empty) (Perm.refl _, n)
  | inr some_left ↦ rw some_left (
      retransmit_loop-stored packet_history_size now rto c.start_seq 0 c.histories
        c.retransmit_fragments n)
]

-- Shifting a cache of 128 slots keeps every fragment that is pending, and the 128 slots.
pub shift-pending :
    (c : RetransmitCache)
    → IsSized c.histories
    → Perm (pending (shift c).1) (pending c) × IsSized (shift c).1.histories
unfolding pending shift
shift-pending c n =
    let (p, n') = shift_loop-stored packet_history_size c.start_seq 0 c.histories n in
    (Perm.append_left c.retransmit_fragments p, n')

-- Storing a packet whose number is below the end of the window in a free slot of a cache of 128
-- slots succeeds, adds its fragments to those pending, and keeps the 128 slots.
pub insert-pending :
    (seq time_sent : ℕ) (fs : List Fragment) (c : RetransmitCache)
    → IsSized c.histories
    → is_invalid (history c.histories seq) ≡ true
    → seq < add_u32 c.start_seq packet_history_size
    → (c' : RetransmitCache) × (insert seq fs time_sent c ≡ ok c')
      × Perm (pending c') (fs ++ pending c)
      × IsSized c'.histories
unfolding pending insert
insert-pending seq time_sent fs c n free inside = (
  record c { histories = set c.histories (relative_index seq) (valid fs time_sent) },
  ground arith,
  Perm.trans
      (Perm.append_left c.retransmit_fragments
        (insert-pending_stored c.histories seq time_sent fs n free))
      (perm_swap_front c.retransmit_fragments fs (stored c.histories)),
  set-IsSized c.histories _ _ n,
)

-- What an acknowledged packet gives back, nothing if there is none.
abbrev pub taken : Option (List Fragment × ℕ) → List Fragment
taken none = []
taken (some (fs, time_sent)) = fs

mark-go :
    (seq : ℕ) (c : RetransmitCache) (h : PacketHistory)
    → history c.histories seq ≡ h
    → IsSized c.histories
    → Perm (taken (mark_as_used seq c).0 ++ pending (mark_as_used seq c).1) (pending c)
      × IsSized (mark_as_used seq c).1.histories
unfolding pending mark_as_used
mark-go seq c (valid fs t) e n =
    rw (e, mark_as_used)
      (
        Perm.trans (perm_swap_front fs c.retransmit_fragments _) (
            Perm.append_left c.retransmit_fragments
              (stored-clear c.histories seq used fs n (ap held e) refl)),
        set-IsSized c.histories _ _ n,
      )
mark-go seq c invalid e n = rw (e, mark_as_used) (Perm.refl _, n)
mark-go seq c used e n = rw (e, mark_as_used) (Perm.refl _, n)

-- Marking a packet in a cache of 128 slots takes out exactly the fragments that are handed to the
-- caller, and keeps the 128 slots.
pub mark_as_used-pending :
    (seq : ℕ) (c : RetransmitCache)
    → IsSized c.histories
    → Perm (taken (mark_as_used seq c).0 ++ pending (mark_as_used seq c).1) (pending c)
      × IsSized (mark_as_used seq c).1.histories
mark_as_used-pending seq c n = mark-go seq c (history c.histories seq) refl n
