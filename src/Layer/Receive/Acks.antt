-- ===== src/Layer/Receive/Acks.antt =====
-- Acknowledgements and negative acknowledgements in the layer.
use mathlib.Core.List.{Perm, perm_append_comm}
use mathlib.Core.List.Perm
use ruknet.Base.{
  ℕ, ◌+◌, ◌%◌, ◌^◌, ◌≡◌, refl, Option, none, some, List, [], ◌∷◌, ◌++◌, append_assoc, arith,
}
use ruknet.Datagram.{Fragment}
use ruknet.Cache.{RetransmitCache, mark_as_used, extend_retransmit_fragments}
use ruknet.Cache.Pending.{IsSized, pending, stored, taken, mark_as_used-pending, shift-pending}
use ruknet.Congestion.{CongestionController}
use ruknet.Layer.{Layer}
use ruknet.Layer.Receive.{total_size, ack_one, ack_all, handle_ack, nak_one, nak_all, hanlde_nak}

-- The fragments that the acknowledgements of `seqs` take out of a cache, and what is left of it.
unfoldable pub acked_fragments : List ℕ → RetransmitCache → List Fragment
acked_fragments [] c = []
acked_fragments (seq ∷ seqs) c =
    let (found, c') = mark_as_used seq c in taken found ++ acked_fragments seqs c'

total_size-append : (xs ys : List Fragment) → total_size (xs ++ ys) ≡ total_size xs + total_size ys
total_size-append [] ys = omega arith
total_size-append (x ∷ xs) ys = omega (arith, total_size-append xs ys)

extend-pending :
    (fs : List Fragment) (c : RetransmitCache)
    → Perm (pending (extend_retransmit_fragments fs c)) (fs ++ pending c)
unfolding pending extend_retransmit_fragments
extend-pending fs c =
    rw (← append_assoc fs c.retransmit_fragments (stored c.histories))
      (Perm.append_right (stored c.histories) (perm_append_comm c.retransmit_fragments fs))

module _ {C : Type 0} (controller : CongestionController C) where
  nak_one-go :
      (seq : ℕ) (l : Layer C) (found : Option (List Fragment × ℕ))
      → (mark_as_used seq l.retransmit_cache).0 ≡ found
      → let c' = (mark_as_used seq l.retransmit_cache).1 in
        Perm (taken found ++ pending c') (pending l.retransmit_cache) × IsSized c'.histories
        → Perm (pending (nak_one controller seq l).retransmit_cache) (pending l.retransmit_cache)
          × IsSized (nak_one controller seq l).retransmit_cache.histories
  unfolding nak_one
  nak_one-go seq l none e (p, n) = rw (e, nak_one) (p, n)
  nak_one-go seq l (some (fs, t)) e (p, n) =
      rw (e, nak_one)
        (
          Perm.trans (extend-pending fs (mark_as_used seq l.retransmit_cache).1) p,
          unfold extend_retransmit_fragments in n,
        )

  nak_all-pending :
      (seqs : List ℕ) (l : Layer C)
      → IsSized l.retransmit_cache.histories
      → Perm (pending (nak_all controller seqs l).retransmit_cache) (pending l.retransmit_cache)
        × IsSized (nak_all controller seqs l).retransmit_cache.histories
  unfolding nak_all
  nak_all-pending [] l n = (Perm.refl _, n)
  nak_all-pending (seq ∷ seqs) l n =
      let (p, n') =
        nak_one-go seq l (mark_as_used seq l.retransmit_cache).0 refl
          (mark_as_used-pending seq l.retransmit_cache n) in
      let (p', n'') = nak_all-pending seqs (nak_one controller seq l) n' in (Perm.trans p' p, n'')

  -- Whatever numbers a negative acknowledgement names, the fragments that a cache of 128 slots
  -- holds or queues to be sent again stay the same ones, none lost, repeated or made up, and the
  -- slots stay 128.
  pub hanlde_nak-pending :
      (seqs : List ℕ) (l : Layer C)
      → IsSized l.retransmit_cache.histories
      → Perm (pending (hanlde_nak controller seqs l).retransmit_cache) (pending l.retransmit_cache)
        × IsSized (hanlde_nak controller seqs l).retransmit_cache.histories
  unfolding hanlde_nak
  hanlde_nak-pending seqs l n =
      let (p, n') = nak_all-pending seqs l n in
      let (p', n'') = shift-pending (nak_all controller seqs l).retransmit_cache n' in
      (Perm.trans p' p, n'')

  ack_one-go :
      (now : ℕ) (rate : Option ℕ) (seq : ℕ) (l : Layer C) (found : Option (List Fragment × ℕ))
      → (mark_as_used seq l.retransmit_cache).0 ≡ found
      → let l' = ack_one controller now rate seq l in
        (l'.retransmit_cache ≡ (mark_as_used seq l.retransmit_cache).1)
        × (l'.total_bytes_acked % 2 ^ 64
            ≡ (l.total_bytes_acked + total_size (taken found)) % 2 ^ 64)
  unfolding ack_one
  ack_one-go now rate seq l none e = rw (e, ack_one) (refl, omega arith)
  ack_one-go now rate seq l (some (fs, t)) e = rw (e, ack_one) (refl, omega arith)

  ack_all-pending :
      (now : ℕ) (rate : Option ℕ) (seqs : List ℕ) (l : Layer C)
      → IsSized l.retransmit_cache.histories
      → let l' = ack_all controller now rate seqs l in
        let gone = acked_fragments seqs l.retransmit_cache in
        Perm (gone ++ pending l'.retransmit_cache) (pending l.retransmit_cache)
        × IsSized l'.retransmit_cache.histories
        × (l'.total_bytes_acked % 2 ^ 64 ≡ (l.total_bytes_acked + total_size gone) % 2 ^ 64)
  unfolding ack_all acked_fragments ack_one
  ack_all-pending now rate [] l n = (Perm.refl _, n, omega arith)
  ack_all-pending now rate (seq ∷ seqs) l n =
      let found = (mark_as_used seq l.retransmit_cache).0 in
      let c' = (mark_as_used seq l.retransmit_cache).1 in
      let (p, n') = mark_as_used-pending seq l.retransmit_cache n in
      let (same, t) = ack_one-go now rate seq l found refl in
      let l' = ack_one controller now rate seq l in
      let (q, n'', t') = ack_all-pending now rate seqs l' (rw same n') in
      let q' = rw same at q in
      let t'' = rw same at t' in
      (
        rw (append_assoc (taken found) (acked_fragments seqs c'))
            (Perm.trans (Perm.append_left (taken found) q') p),
        n'',
        rw (total_size-append (taken found) (acked_fragments seqs c')) (omega (arith, t, t'')),
      )

  -- With a cache of 128 slots, an acknowledgement takes out exactly the fragments that marking
  -- its numbers gives, all others stay pending, and it adds their sizes to the bytes
  -- acknowledged, modulo 2^64.
  pub handle_ack-pending :
      (now : ℕ) (rate : Option ℕ) (seqs : List ℕ) (l : Layer C)
      → IsSized l.retransmit_cache.histories
      → let l' = handle_ack controller now rate seqs l in
        let gone = acked_fragments seqs l.retransmit_cache in
        Perm (gone ++ pending l'.retransmit_cache) (pending l.retransmit_cache)
        × IsSized l'.retransmit_cache.histories
        × (l'.total_bytes_acked % 2 ^ 64 ≡ (l.total_bytes_acked + total_size gone) % 2 ^ 64)
  unfolding handle_ack
  handle_ack-pending now rate seqs l n =
      let (p, n', t) = ack_all-pending now rate seqs l n in
      let (p', n'') = shift-pending (ack_all controller now rate seqs l).retransmit_cache n' in
      (Perm.trans (Perm.append_left (acked_fragments seqs l.retransmit_cache) p') p, n'', t)
