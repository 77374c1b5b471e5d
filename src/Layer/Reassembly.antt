-- ===== src/Layer/Reassembly.antt =====
-- src/reliability/layer.rs, `build_split_fragment`: the pieces of a split message, put together.
pub mod Laws
use ruknet.Base.{
  ℕ, Bool, true, false, ◌&&◌, Option, none, some, List, [], ◌∷◌, ◌++◌, leb, ◌==◌, if◌then◌else◌,
  length, set, replicate, is_some, Result, ok, fault,
}
use ruknet.Datagram.{Fragment, SplitInfo}
use ruknet.Layer.{Layer, Outcome, Pieces}

-- The hash map: an entry that is written hides an older one until it is removed.
abbrev pub find : ℕ → List (ℕ × Pieces) → Option Pieces
find id [] = none
find id ((k, v) ∷ rest) = if k == id then some v else find id rest

abbrev pub remove : ℕ → List (ℕ × Pieces) → List (ℕ × Pieces)
remove id [] = []
remove id ((k, v) ∷ rest) =
    let others = remove id rest in if k == id then others else (k, v) ∷ others

abbrev pub put : ℕ → Pieces → List (ℕ × Pieces) → List (ℕ × Pieces)
put id pieces m = (id, pieces) ∷ remove id m

abbrev pub all_some : Pieces → Bool
all_some [] = true
all_some (p ∷ ps) = is_some p && all_some ps

abbrev pub join : Pieces → List ℕ
join [] = []
join (none ∷ ps) = join ps
join (some d ∷ ps) = d ++ join ps

module _ {C : Type 0} where
  abbrev pub store_piece :
      Pieces → SplitInfo → Fragment → Layer C → Outcome C (Option Fragment × Layer C)
  store_piece pieces info f l =
      let pieces' = set pieces info.index (some f.payload) in
      let built : Fragment = record f { payload = join pieces' } in
      if leb (length pieces) info.index
      then fault
      else if all_some pieces'
      then ok (some built, record l { split_fragments = remove info.id l.split_fragments })
      else ok (none, record l { split_fragments = put info.id pieces' l.split_fragments })

  -- `info` is the fragment's `split_info`. A piece whose index lies outside the pieces that are kept
  -- under its id panics.
  unfoldable pub build_split_fragment :
      SplitInfo → Fragment → Layer C → Outcome C (Option Fragment × Layer C)
  build_split_fragment info f l =
      let fresh = set (replicate info.size none) info.index (some f.payload) in
      let stored =
        elim (find info.id l.split_fragments) as (λ _. Outcome C (Option Fragment × Layer C)) [
          | some pieces ↦ store_piece pieces info f l
          | none ↦ ok (none, record l { split_fragments = put info.id fresh l.split_fragments })
        ] in
      if leb info.size info.index then ok (none, l) else stored
