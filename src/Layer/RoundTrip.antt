-- ===== src/Layer/RoundTrip.antt =====
-- A message that one layer splits, and the other puts together.
use ruknet.Base.{
  ℕ, zero, suc, ◌+◌, ◌*◌, ◌%◌, ◌^◌, ◌≤◌, ◌<◌, ◌≡◌, refl, sym, ap, ◌∙◌, min, true, Option, none,
  some, List, [], ◌∷◌, ◌++◌, append_assoc, append-nil, arith, ◌&&◌, length, length-append, set,
  take, drop, replicate, ok, bind, length-drop, take-append-drop,
}
use ruknet.Datagram.{Fragment, SplitInfo}
use ruknet.Layer.{Layer, Outcome, Pieces}
use ruknet.Layer.Reassembly.{find, remove, put, all_some, join, build_split_fragment}
use ruknet.Layer.Reassembly.Laws.{find-remove, find-put}
use ruknet.Layer.Send.{allowed_of, split_size_of}
use ruknet.Layer.Send.Split.{cut, pieces_of, split_size-covers, split_size-many, split_size-small}

module _ {C : Type 0} where
  -- The fragments in a row, and what the last of them gives.
  unfoldable pub build_each :
      List Fragment → Option Fragment × Layer C → Outcome C (Option Fragment × Layer C)
  build_each [] (r, l) = ok (r, l)
  build_each (f ∷ fs) (r, l) = elim f.split_info [
    | some info ↦ bind (build_split_fragment info f l) (build_each fs)
    | none ↦ ok (some f, l)
  ]

all_some-append : (ps qs : Pieces) → all_some (ps ++ qs) ≡ (all_some ps && all_some qs)
all_some-append [] qs = refl
all_some-append (none ∷ ps) qs = refl
all_some-append (some p ∷ ps) qs = all_some-append ps qs

join-append : (ps qs : Pieces) → join (ps ++ qs) ≡ join ps ++ join qs
join-append [] qs = refl
join-append (none ∷ ps) qs = join-append ps qs
join-append (some p ∷ ps) qs =
    ap (λ t. p ++ t) (join-append ps qs) ∙ sym (append_assoc p (join ps) (join qs))

set-append :
    (ps qs : Pieces) (q : Option (List ℕ)) (v : Option (List ℕ))
    → set (ps ++ q ∷ qs) (length ps) v ≡ ps ++ v ∷ qs
set-append [] qs q v = refl
set-append (p ∷ ps) qs q v = ap (λ t. p ∷ t) (set-append ps qs q v)

take-all : {A : Type 0} (n : ℕ) (xs : List A) → length xs ≤ n → take n xs ≡ xs
take-all zero [] h = refl
take-all zero (x ∷ xs) h = absurd (omega arith)
take-all (suc n) [] h = refl
take-all (suc n) (x ∷ xs) h = ap (λ t. x ∷ t) (take-all n xs (omega arith))

module _ {C : Type 0} where
  -- One piece, when those before it are there and no others.
  last_piece :
      (info : SplitInfo) (f : Fragment) (l : Layer C) (front : Pieces)
      → info.index < info.size
      → length front ≡ info.index
      → all_some front ≡ true
      → find info.id l.split_fragments ≡ some (front ++ none ∷ [])
      → build_split_fragment info f l
        ≡ ok (
          some (record f { payload = join front ++ f.payload }),
          record l { split_fragments = remove info.id l.split_fragments },
        )
  unfolding build_split_fragment
  last_piece info f l front inside n full e =
      let s = set-append front [] none (some f.payload) in
      let a = all_some-append front (some f.payload ∷ []) in
      let j : join (front ++ some f.payload ∷ []) ≡ join front ++ f.payload =
        join-append front (some f.payload ∷ [])
        ∙ ap (λ t. join front ++ t) (append-nil f.payload) in
      let len = length-append front (none ∷ []) in rw (e, ← n, s, a, j, full) (ground (arith, len))

  next_piece :
      (info : SplitInfo) (f : Fragment) (l : Layer C) (front : Pieces) (left : ℕ)
      → info.index < info.size
      → length front ≡ info.index
      → find info.id l.split_fragments ≡ some (front ++ replicate (suc (suc left)) none)
      → build_split_fragment info f l
        ≡ ok (
          none,
          record l {
            split_fragments =
                put info.id (front ++ some f.payload ∷ replicate (suc left) none) l.split_fragments;
          },
        )
  unfolding build_split_fragment
  next_piece info f l front left inside n e =
      let s = set-append front (replicate (suc left) none) none (some f.payload) in
      let a = all_some-append front (some f.payload ∷ replicate (suc left) none) in
      let len = length-append front (replicate (suc (suc left)) none) in
      rw (e, ← n, s, a) (ground (arith, len))

  first_piece :
      (info : SplitInfo) (f : Fragment) (l : Layer C) (k : ℕ)
      → info.size ≡ suc (suc k)
      → info.index ≡ 0
      → find info.id l.split_fragments ≡ none
      → build_split_fragment info f l
        ≡ ok (
          none,
          record l {
            split_fragments =
                put info.id (some f.payload ∷ replicate (suc k) none) l.split_fragments;
          },
        )
  unfolding build_split_fragment
  first_piece info f l k size index e = rw (e, size, index) (ground arith)

  build_rest :
      (left i size id allowed : ℕ) (base : Fragment) (message : List ℕ) (front : Pieces)
      (r : Option Fragment) (l : Layer C)
      → i + suc left ≡ size
      → size < 2 ^ 32
      → length front ≡ i
      → all_some front ≡ true
      → length message ≤ suc left * allowed
      → find id l.split_fragments ≡ some (front ++ replicate (suc left) none)
      → (f : Fragment) × (l' : Layer C) × (build_each
            (cut (suc left) i size id allowed base message)
            (r, l)
          ≡ ok (some f, l'))
        × (record f { split_info = none }
            ≡ record base { split_info = none; payload = join front ++ message })
        × (find id l'.split_fragments ≡ none)
  unfolding cut build_each
  build_rest zero i size id allowed base message front r l count small n full enough e =
      let info : SplitInfo = record { size = size % 2 ^ 32; id = id; index = i % 2 ^ 32 } in
      let piece : Fragment = record base {
        split_info = some info;
        payload = take (min (length message) allowed) message;
      } in
      let built : Fragment = record piece { payload = join front ++ piece.payload } in
      let l' : Layer C = record l { split_fragments = remove id l.split_fragments } in
      let step : build_split_fragment info piece l ≡ ok (some built, l') =
        last_piece info piece l front (omega arith) (omega arith) full e in
      let all : take (min (length message) allowed) message ≡ message =
        take-all (min (length message) allowed) message (omega arith) in
      (
        built,
        l',
        ap (λ k. bind k (build_each [])) step,
        ap (λ t. record base { split_info = none; payload = join front ++ t }) all,
        find-remove id l.split_fragments,
      )
  build_rest (suc left) i size id allowed base message front r l count small n full enough e =
      let k = min (length message) allowed in
      let info : SplitInfo = record { size = size % 2 ^ 32; id = id; index = i % 2 ^ 32 } in
      let piece : Fragment = record base { split_info = some info; payload = take k message } in
      let front' : Pieces = front ++ some (take k message) ∷ [] in
      let table =
        put id (front ++ some (take k message) ∷ replicate (suc left) none) l.split_fragments in
      let l1 : Layer C = record l { split_fragments = table } in
      let step : build_split_fragment info piece l ≡ ok (none, l1) =
        next_piece info piece l front left (omega arith) (omega arith) e in
      let found : find id table ≡ some (front' ++ replicate (suc left) none) =
        find-put id (front ++ some (take k message) ∷ replicate (suc left) none) l.split_fragments
        ∙ ap some
            (sym (append_assoc front (some (take k message) ∷ []) (replicate (suc left) none))) in
      let whole : join front' ++ drop k message ≡ join front ++ message =
        ap (λ t. t ++ drop k message)
          (join-append front (some (take k message) ∷ [])
            ∙ ap (λ t. join front ++ t) (append-nil (take k message)))
        ∙ append_assoc (join front) (take k message) (drop k message)
        ∙ ap (λ t. join front ++ t) (take-append-drop k message) in
      let (f, l', run, same, free) =
        build_rest left (i + 1) size id allowed base (drop k message) front' none l1 (omega arith)
          small (omega (arith, length-append front (some (take k message) ∷ []), n))
          (all_some-append front (some (take k message) ∷ []) ∙ rw (full) refl)
          (ground (arith, length-drop k message)) found in
      (
        f,
        l',
        ap (λ o. bind o (build_each (cut (suc left) (i + 1) size id allowed base (drop k message))))
              step
            ∙ run,
        same ∙ ap (λ t. record base { split_info = none; payload = t }) whole,
        free,
      )

  build_pieces :
      (k id allowed : ℕ) (base : Fragment) (message : List ℕ) (l : Layer C)
      → suc (suc k) < 2 ^ 32
      → length message ≤ suc (suc k) * allowed
      → find id l.split_fragments ≡ none
      → (f : Fragment) × (l' : Layer C) × (build_each
            (cut (suc (suc k)) 0 (suc (suc k)) id allowed base message)
            (none, l)
          ≡ ok (some f, l'))
        × (record f { split_info = none } ≡ record base { split_info = none; payload = message })
        × (find id l'.split_fragments ≡ none)
  unfolding cut build_each build_split_fragment
  build_pieces k id allowed base message l small enough e =
      let n = min (length message) allowed in
      let size = suc (suc k) in
      let piece : Fragment = record base {
        split_info = some (record { size = size % 2 ^ 32; id = id; index = 0 });
        payload = take n message;
      } in
      let first : Pieces = some (take n message) ∷ [] in
      let l1 : Layer C = record l {
        split_fragments = put id (first ++ replicate (suc k) none) l.split_fragments;
      } in
      let step : build_split_fragment (record { size = size % 2 ^ 32; id = id; index = 0 }) piece l
          ≡ ok (none, l1) =
        first_piece (record { size = size % 2 ^ 32; id = id; index = 0 }) piece l k (omega arith)
          refl e in
      let (f, l', run, same, free) =
        build_rest k 1 size id allowed base (drop n message) first none l1 (omega arith) small refl
          refl (ground (arith, length-drop n message))
          (find-put id (first ++ replicate (suc k) none) l.split_fragments) in
      (
        f,
        l',
        ap (λ o. bind o (build_each (cut (suc k) 1 size id allowed base (drop n message)))) step
            ∙ run,
        same
            ∙ ap (λ t. record base { split_info = none; payload = t })
                (ap (λ t. t ++ drop n message) (append-nil (take n message))
                  ∙ take-append-drop n message),
        free,
      )

  build_cut :
      (size id allowed : ℕ) (base : Fragment) (message : List ℕ) (l : Layer C)
      → 1 < size
      → size < 2 ^ 32
      → length message ≤ size * allowed
      → find id l.split_fragments ≡ none
      → (f : Fragment) × (l' : Layer C) × (build_each
            (cut size 0 size id allowed base message)
            (none, l)
          ≡ ok (some f, l'))
        × (record f { split_info = none } ≡ record base { split_info = none; payload = message })
        × (find id l'.split_fragments ≡ none)
  build_cut zero id allowed base message l big small enough e = absurd (omega arith)
  build_cut (suc zero) id allowed base message l big small enough e = absurd (omega arith)
  build_cut (suc (suc k)) id allowed base message l big small enough e =
      build_pieces k id allowed base message l small enough e

  -- The pieces that a sender cuts a fragment into that is longer than the size allowed (and
  -- shorter than 2^32), taken in their order by a receiver with nothing under their id, give back
  -- the fragment, apart from its split information; then nothing is left under the id.
  pub build_each-pieces_of :
      (base : Fragment) (sender receiver : Layer C)
      → base.split_info ≡ none
      → 0 < allowed_of sender base
      → allowed_of sender base < length base.payload
      → length base.payload < 2 ^ 32
      → find sender.send_split_id receiver.split_fragments ≡ none
      → (f : Fragment) × (receiver' : Layer C) × (build_each
            (pieces_of sender base)
            (none, receiver)
          ≡ ok (some f, receiver'))
        × (record f { split_info = none } ≡ base)
        × (find sender.send_split_id receiver'.split_fragments ≡ none)
  build_each-pieces_of base sender receiver whole pos long fits e =
      let allowed = allowed_of sender base in
      let size = split_size_of (length base.payload) allowed in
      let (f, l', run, same, free) =
        build_cut size sender.send_split_id allowed (record base { payload = [] }) base.payload
          receiver (split_size-many (length base.payload) allowed pos long (omega arith))
          (split_size-small (length base.payload) allowed pos long (omega arith))
          (split_size-covers (length base.payload) allowed (omega arith) (omega arith) pos) e in
      (f, l', run, same ∙ ap (λ i. record base { split_info = i }) (sym whole), free)
