-- ===== src/Window/Stale.antt =====
-- An index that the window has just passed, inserted once more.
use ruknet.Base.{ℕ, ◌+◌, ◌^◌, ◌≤◌, ◌<◌, ◌≡◌, true, arith, ok}
use ruknet.Window.{Window, insert, shift}
use ruknet.Window.Inv.{IsValid, received}
use ruknet.Window.Insert.{inserted, insert_stale}
use ruknet.Window.Shift.{shift-eq, slot_behind, moved}

module _ {T : Type 0} (k : ℕ) where
  -- A well-formed window of 2^k slots, two windows short of 2^32, counts an index that it has
  -- just shifted past as received, and still takes that index for a new one when it comes again.
  pub stale_accepted :
      (index : ℕ) (value : T) (w : Window T)
      → IsValid (2 ^ k) w
      → w.start_index + 2 ^ k + 2 ^ k ≤ 2 ^ 32
      → w.start_index ≤ index
      → index < (shift (2 ^ k) w).1.start_index
      → let w' = (shift (2 ^ k) w).1 in
        (received (2 ^ k) w' index ≡ true)
        × ((w'' : Window T) × (insert (2 ^ k) index value w' ≡ ok (true, w'')))
  unfolding received
  stale_accepted index value w v room a h =
      let passed : index < (moved k w v room).start_index = rw (shift-eq k w v room) at h in
      rw (shift-eq k w v room) (
        ground arith,
        (
          inserted k index value (moved k w v room),
          insert_stale k index value (moved k w v room) passed
              (ground (arith, slot_behind k w v room index a passed)),
        ),
      )
