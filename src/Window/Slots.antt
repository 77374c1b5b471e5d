-- ===== src/Window/Slots.antt =====
-- Slots of the buffer, by the distance from an index: each has a slot of its own within `n`.
use ruknet.Base.{
  ℕ, ◌+◌, ◌%◌, ◌^◌, ◌≤◌, ◌<◌, ◌≡◌, Option, none, List, arith, ◌==◌, if◌then◌else◌, length, get_or,
  get_or-set, set,
}
use ruknet.Base.Bits.{mod_injective, bit_and_mask}
use native.Mathlib.Nat.{mod-lt}
use ruknet.Window.{relative_index}

-- The slot of an index in a buffer of `n` slots.
abbrev pub slot : {T : Type 0} → ℕ → List (Option T) → ℕ → Option T
slot n buf index = get_or buf (index % n) none

pub relative_index-mod : (k i : ℕ) → relative_index (2 ^ k) i ≡ i % 2 ^ k
unfolding relative_index
relative_index-mod k i = bit_and_mask k i

module _ {T : Type 0} (n : ℕ) (pos : 0 < n) where
  -- A write at one index of a window is seen at that index of the window, and at no other.
  pub slot-set :
      (buf : List (Option T)) (s a b : ℕ) (v : Option T)
      → length buf ≡ n
      → s ≤ a
      → a < s + n
      → s ≤ b
      → b < s + n
      → slot n (set buf (a % n) v) b ≡ (if a == b then v else slot n buf b)
  slot-set buf s a b v len la ha lb hb = ground (
    arith,
    get_or-set buf (a % n) (b % n) v none (omega (arith, mod-lt a pos)),
    mod_injective n a b pos,
    mod_injective n b a pos,
  )
