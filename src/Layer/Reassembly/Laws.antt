-- ===== src/Layer/Reassembly/Laws.antt =====
-- The reassembly of split messages: the pieces that are kept, and the message that they give.
use ruknet.Base.{
  ℕ, zero, suc, ◌<◌, ◌≡◌, refl, ap, inl, inr, Bool-cases, true, none, some, List, [], ◌∷◌, ◌++◌,
  arith, if◌then◌else◌, length, get_elem?, set, replicate, ok,
}
use ruknet.Datagram.{Fragment, SplitInfo}
use ruknet.Layer.{Layer, Pieces}
use ruknet.Layer.Reassembly.{find, remove, put, all_some, join, build_split_fragment}

abbrev pub concat : List (List ℕ) → List ℕ
concat [] = []
concat (d ∷ ds) = d ++ concat ds

-- As many pieces as the message has, and each that has come is the right one.
abbrev pub Agrees : Pieces → List (List ℕ) → Type 0
Agrees [] [] = Unit {0}
Agrees [] (d ∷ ds) = ⊥
Agrees (p ∷ ps) [] = ⊥
Agrees (none ∷ ps) (d ∷ ds) = Agrees ps ds
Agrees (some p ∷ ps) (d ∷ ds) = (p ≡ d) × Agrees ps ds

pub Agrees-replicate : (ds : List (List ℕ)) → Agrees (replicate (length ds) none) ds
Agrees-replicate [] = tt
Agrees-replicate (d ∷ ds) = Agrees-replicate ds

length-Agrees : (ps : Pieces) (ds : List (List ℕ)) → Agrees ps ds → length ps ≡ length ds
length-Agrees [] [] h = refl
length-Agrees [] (d ∷ ds) h = elim h [ ]
length-Agrees (p ∷ ps) [] h = elim h [ ]
length-Agrees (none ∷ ps) (d ∷ ds) h = ap suc (length-Agrees ps ds h)
length-Agrees (some p ∷ ps) (d ∷ ds) (_, h) = ap suc (length-Agrees ps ds h)

pub set-Agrees :
    (ps : Pieces) (ds : List (List ℕ)) (i : ℕ) (d : List ℕ)
    → Agrees ps ds
    → get_elem? ds i ≡ some d
    → Agrees (set ps i (some d)) ds
set-Agrees [] ds i d h e = h
set-Agrees (p ∷ ps) [] i d h e = elim h [ ]
set-Agrees (none ∷ ps) (x ∷ ds) zero d h e = (ground arith, h)
set-Agrees (some p ∷ ps) (x ∷ ds) zero d (_, h) e = (ground arith, h)
set-Agrees (none ∷ ps) (x ∷ ds) (suc i) d h e = set-Agrees ps ds i d h e
set-Agrees (some p ∷ ps) (x ∷ ds) (suc i) d (s, h) e = (s, set-Agrees ps ds i d h e)

join-Agrees :
    (ps : Pieces) (ds : List (List ℕ)) → Agrees ps ds → all_some ps ≡ true → join ps ≡ concat ds
join-Agrees [] [] h a = refl
join-Agrees [] (d ∷ ds) h a = elim h [ ]
join-Agrees (p ∷ ps) [] h a = elim h [ ]
join-Agrees (none ∷ ps) (d ∷ ds) h a = absurd (ground arith)
join-Agrees (some p ∷ ps) (d ∷ ds) (s, h) a = rw (s, join-Agrees ps ds h a) refl

pub find-remove : (id : ℕ) (m : List (ℕ × Pieces)) → find id (remove id m) ≡ none
find-remove id [] = refl
find-remove id ((k, v) ∷ rest) = ground (arith, find-remove id rest)

pub find-put : (id : ℕ) (ps : Pieces) (m : List (ℕ × Pieces)) → find id (put id ps m) ≡ some ps
find-put id ps m = ground arith

index-inside : (ds : List (List ℕ)) (i : ℕ) (d : List ℕ) → get_elem? ds i ≡ some d → i < length ds
index-inside [] i d e = absurd (ground arith)
index-inside (x ∷ ds) zero d e = omega arith
index-inside (x ∷ ds) (suc i) d e = omega (arith, index-inside ds i d e)

module _ {C : Type 0} where
  -- When the pieces kept under an id are pieces of a message, each at its place, one more piece
  -- of it, new or not, is put at its own. If then none is missing, the fragment with the whole
  -- message is returned and the id is free; if not, nothing is returned.
  pub build_split_fragment-Agrees :
      (info : SplitInfo) (f : Fragment) (l : Layer C) (ps : Pieces) (ds : List (List ℕ))
      → find info.id l.split_fragments ≡ some ps
      → Agrees ps ds
      → info.size ≡ length ds
      → get_elem? ds info.index ≡ some f.payload
      → let ps' = set ps info.index (some f.payload) in
        Agrees ps' ds
        × ((l' : Layer C) × (build_split_fragment info f l
              ≡ ok ((if all_some ps' then some (record f { payload = concat ds }) else none), l'))
            × (find info.id l'.split_fragments ≡ (if all_some ps' then none else some ps')))
  unfolding build_split_fragment
  build_split_fragment-Agrees info f l ps ds e h size at_index =
      let ps' = set ps info.index (some f.payload) in
      let inside = index-inside ds info.index f.payload at_index in
      let same = length-Agrees ps ds h in
      let h' = set-Agrees ps ds info.index f.payload h at_index in
      (
        h',
        elim (Bool-cases (all_some ps')) [
          | inl all ↦ (
            record l { split_fragments = remove info.id l.split_fragments },
            rw (e) (ground (arith, join-Agrees ps' ds h' all)),
            ground (arith, find-remove info.id l.split_fragments),
          )
          | inr missing ↦ (
            record l { split_fragments = put info.id ps' l.split_fragments },
            rw (e) (ground arith),
            ground (arith, find-put info.id ps' l.split_fragments),
          )
        ],
      )

  -- The first piece under an id returns nothing and opens as many places as the message has
  -- pieces, with pieces of the message in them at most.
  pub build_split_fragment-first :
      (info : SplitInfo) (f : Fragment) (l : Layer C) (ds : List (List ℕ))
      → find info.id l.split_fragments ≡ none
      → info.size ≡ length ds
      → get_elem? ds info.index ≡ some f.payload
      → (l' : Layer C) × (ps : Pieces) × (build_split_fragment info f l ≡ ok (none, l'))
        × (find info.id l'.split_fragments ≡ some ps)
        × Agrees ps ds
  unfolding build_split_fragment
  build_split_fragment-first info f l ds e size at_index =
      let ps = set (replicate info.size none) info.index (some f.payload) in
      let inside = index-inside ds info.index f.payload at_index in
      (
        record l { split_fragments = put info.id ps l.split_fragments },
        ps,
        rw (e) (ground arith),
        find-put info.id ps l.split_fragments,
        set-Agrees (replicate info.size none) ds info.index f.payload
            (rw (size) (Agrees-replicate ds)) at_index,
      )
