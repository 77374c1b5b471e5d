-- ===== src/Window/Inv.antt =====
-- The invariant of a window, and what it knows: which indices it has.
use ruknet.Base.{
  ℕ, ◌+◌, ◌^◌, ◌≤◌, ◌<◌, ◌≡◌, ◌%◌, Bool, true, Option, none, some, arith, ltb, ◌||◌, length,
  length-replicate, get_or-replicate, is_some,
}
use ruknet.Window.{Window, new}
use ruknet.Window.Slots.{slot}

-- Nothing lies behind the furthest index.
abbrev pub Within : Option ℕ → ℕ → Type 0
Within none index = ⊥
Within (some f) index = index ≤ f

-- The furthest index lies in the window, or just before it.
abbrev pub FurthestFits : ℕ → Option ℕ → ℕ → Type 0
FurthestFits n none start = Unit {0}
FurthestFits n (some f) start = (start ≤ f + 1) × (f < start + n)

abbrev pub has : {T : Type 0} → ℕ → Window T → ℕ → Bool
has n w index = is_some (slot n w.buf index)

-- The set that a window stands for: the indices before its start, and those that it has.
unfoldable pub received : {T : Type 0} → ℕ → Window T → ℕ → Bool
received n w index = ltb index w.start_index || has n w index

-- A window of `n` slots, the indices short of wrapping.
pub record IsValid {T : Type 0} (n : ℕ) (w : Window T) : Type 0 where
  pub slots : length w.buf ≡ n
  pub no_wrap : w.start_index + n ≤ 2 ^ 32
  pub fits : FurthestFits n w.furthest_index w.start_index
  pub ahead :
      (i : ℕ)
      → w.start_index ≤ i
      → i < w.start_index + n
      → has n w i ≡ true
      → Within w.furthest_index i

pub new-IsValid : {T : Type 0} (n : ℕ) → n ≤ 2 ^ 32 → IsValid n (new {T = T} n)
unfolding new
new-IsValid {T} n h = record {
  slots = length-replicate n none;
  no_wrap = omega arith;
  fits = tt;
  ahead = λ i _ _ here. ground (arith, get_or-replicate {A = Option T} n (i % n) none);
}
