-- ===== src/Window/Insert.antt =====
-- `insert`: what the window has afterwards, and what it does to an index that it has passed.
use ruknet.Base.{
  ℕ, ◌%◌, ◌⊎◌, ◌+◌, ◌^◌, ◌≤◌, ◌<◌, ◌≡◌, refl, true, false, not, inl, inr, Bool-cases, Option, some,
  arith, leb, ◌==◌, ◌||◌, ok, err, if◌then◌else◌, length-set, set,
}
use native.Mathlib.Decide.{dec_lt, ℕ_discrete}
use ruknet.Base.Bits.{two-pow-pos}
use ruknet.Error.{overflowed}
use ruknet.Window.{Window, further, insert}
use ruknet.Window.Slots.{slot-set, relative_index-mod}
use ruknet.Window.Inv.{received, IsValid, Within, has}

further-Within :
    (o : Option ℕ) (index i : ℕ) → (Within o i) ⊎ (i ≡ index) → Within (further o index) i
further-Within o index i h = ground arith

module _ {T : Type 0} (k : ℕ) where
  abbrev pub inserted : ℕ → T → Window T → Window T
  inserted index value w = record w {
    buf = set w.buf (index % 2 ^ k) (some value);
    furthest_index = further w.furthest_index index;
  }

  insert-eq :
      (index : ℕ) (value : T) (w : Window T)
      → insert (2 ^ k) index value w ≡ (
          if leb (w.start_index + 2 ^ k) index
          then err overflowed
          else if has (2 ^ k) w index
          then ok (false, w)
          else ok (true, inserted index value w))
  unfolding insert
  insert-eq index value w = rw (relative_index-mod k index) refl

  has-inserted :
      (index i : ℕ) (value : T) (w : Window T)
      → IsValid (2 ^ k) w
      → w.start_index ≤ index
      → index < w.start_index + 2 ^ k
      → w.start_index ≤ i
      → i < w.start_index + 2 ^ k
      → has (2 ^ k) (inserted index value w) i ≡ (index == i || has (2 ^ k) w i)
  has-inserted index i value w v lo hi a b = ground (
    arith,
    slot-set (2 ^ k) (two-pow-pos k) w.buf w.start_index index i (some value) v.slots lo hi a b,
  )

  inserted-IsValid :
      (index : ℕ) (value : T) (w : Window T)
      → IsValid (2 ^ k) w
      → w.start_index ≤ index
      → index < w.start_index + 2 ^ k
      → IsValid (2 ^ k) (inserted index value w)
  inserted-IsValid index value w v lo hi = record {
    slots = ground (arith, length-set w.buf (index % 2 ^ k) (some value), v.slots);
    no_wrap = v.no_wrap;
    fits = ground (arith, v.fits);
    ahead = λ i a b h.
        further-Within w.furthest_index index i
          (ground (arith, has-inserted index i value w v lo hi a b, v.ahead i a b));
  }

  -- Inserting an index of a well-formed window of 2^k slots says whether it was new. Afterwards,
  -- up to the window's end, that index and those received before are received; the start is the
  -- same, and the window is well formed.
  pub insert_lem :
      (index i : ℕ) (value : T) (w : Window T)
      → IsValid (2 ^ k) w
      → w.start_index ≤ index
      → index < w.start_index + 2 ^ k
      → i < w.start_index + 2 ^ k
      → (w' : Window T) × (insert (2 ^ k) index value w ≡ ok (not (received (2 ^ k) w index), w'))
        × IsValid (2 ^ k) w'
        × (w'.start_index ≡ w.start_index)
        × (received (2 ^ k) w' i ≡ (index == i || received (2 ^ k) w i))
  unfolding received
  insert_lem index i value w v lo hi b = elim (Bool-cases (has (2 ^ k) w index)) [
    | inl old ↦ (
      w,
      ground (arith, insert-eq index value w),
      v,
      refl,
      elim (ℕ_discrete index i) [ yes e ↦ rw (← e) (ground (arith, old)) | no ne ↦ ground arith ],
    )
    | inr fresh ↦ (
      inserted index value w,
      ground (arith, insert-eq index value w),
      inserted-IsValid index value w v lo hi,
      refl,
      elim (dec_lt i w.start_index) [
        | yes before ↦ ground arith
        | no within ↦ ground (arith, has-inserted index i value w v lo hi (omega arith) b)
      ],
    )
  ]

  -- What `insert` does with an index that the window has passed, if its slot is free.
  pub insert_stale :
      (index : ℕ) (value : T) (w : Window T)
      → index < w.start_index
      → has (2 ^ k) w index ≡ false
      → insert (2 ^ k) index value w ≡ ok (true, inserted index value w)
  insert_stale index value w h e = ground (arith, insert-eq index value w)
