-- ===== src/Peer/Api/Laws.antt =====
-- src/peer.rs: what the application gets from the calls of a peer.
use ruknet.Base.{
  ℕ, zero, suc, ◌*◌, ◌^◌, ◌≡◌, refl, true, false, not, ◌&&◌, none, some, List, [], ◌∷◌, arith, take,
  drop, ltb, leb, if◌then◌else◌, Bool-cases, inl, inr,
}
use ruknet.Cache.{is_nil}
use ruknet.App.{RukMessage}
use ruknet.Peer.{Peer}
use ruknet.Peer.Api.{recv, recv_loop, recv_many}

module _ {C : Type 0} where
  recv_loop_lem :
      (n : ℕ) (messages : List RukMessage) (p : Peer C)
      → p.message_queue ≡ messages
      → recv_loop n p ≡ (take n messages, record p { message_queue = drop n messages })
  unfolding recv_loop recv
  recv_loop_lem zero messages p e = rw (← e) refl
  recv_loop_lem (suc n) [] p e = ground arith
  recv_loop_lem (suc n) (message ∷ messages) p e =
      ground (arith, recv_loop_lem n messages (record p { message_queue = messages }) refl)

  recv_many_queue :
      (size n : ℕ) (messages : List RukMessage) (p : Peer C)
      → p.message_queue ≡ messages
      → recv_many size n p ≡ (
          if not (is_nil messages) && leb (2 ^ 63) (n * size)
          then none
          else some (take n messages, record p { message_queue = drop n messages }))
  unfolding recv_many
  recv_many_queue size zero [] p e = rw (e, recv_many) (ground arith)
  recv_many_queue size (suc n) [] p e = rw (e, recv_many) (ground arith)
  recv_many_queue size n (message ∷ messages) p e =
      let all = recv_loop_lem n (message ∷ messages) p e in
      elim (Bool-cases (ltb (n * size) (2 ^ 63))) [
        | inl fits ↦
            let small : leb (2 ^ 63) (n * size) ≡ false = ground arith in
            rw (e, recv_many, fits, small, all) refl
        | inr large ↦
            let big : leb (2 ^ 63) (n * size) ≡ true = ground arith in
            rw (e, recv_many, large, big) refl
      ]

  -- `recv_many` gives the first messages of the queue in their order, as many as asked for or as there
  -- are, and leaves the others in theirs, unless the queue has some and the number asked for, times
  -- the size of a message, is 2^63 or more: then it panics.
  pub recv_many_lem :
      (size n : ℕ) (p : Peer C)
      → recv_many size n p ≡ (
          if not (is_nil p.message_queue) && leb (2 ^ 63) (n * size)
          then none
          else some (take n p.message_queue, record p { message_queue = drop n p.message_queue }))
  recv_many_lem size n p = recv_many_queue size n p.message_queue p refl
