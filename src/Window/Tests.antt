-- ===== src/Window/Tests.antt =====
-- Runs of the window, and its theorems at concrete inputs.
use ruknet.Base.{
  ◌≤◌, ◌-◌, ◌&&◌, ◌⊎◌, ltb, if◌then◌else◌, ℕ, ◌+◌, ◌^◌, ◌<◌, ◌≡◌, refl, true, false, not, ◌||◌,
  none, some, [], ◌∷◌, arith, ok, ◌==◌,
}
use ruknet.Window.Slots.{slot}
use ruknet.Window.Missing.{contains, IsLate, collect_missing_lem}
use ruknet.Window.{collect_missing, Window, insert, shift, shift_loop, relative_index}
use ruknet.Window.Inv.{has, IsValid, received}
use ruknet.Window.Insert.{insert_lem}
use ruknet.Window.Shift.{shift_lem}
use ruknet.Window.Stale.{stale_accepted}

-- Indices 0, 1 and 3 have come, 2 is missing.
abbrev gap : Window ℕ
gap = record {
  buf = some 7 ∷ some 8 ∷ none ∷ some 9 ∷ [];
  start_index = 0;
  furthest_index = some 3;
}

gap-IsValid : IsValid (2 ^ 2) gap
gap-IsValid = record {
  slots = refl;
  no_wrap = omega arith;
  fits = omega arith;
  ahead = λ i _ hi _. omega arith;
}

insert_lem_example :
    (w' : Window ℕ) × (insert (2 ^ 2) 2 5 gap ≡ ok (not (received (2 ^ 2) gap 2), w'))
    × IsValid (2 ^ 2) w'
    × (w'.start_index ≡ 0)
    × (received (2 ^ 2) w' 3 ≡ (2 == 3 || received (2 ^ 2) gap 3))
insert_lem_example = insert_lem 2 2 3 5 gap gap-IsValid (omega arith) (omega arith) (omega arith)

shift_lem_example :
    let (count, w') = shift (2 ^ 2) gap in
    IsValid (2 ^ 2) w'
    × (w'.start_index ≡ 0 + count)
    × (received (2 ^ 2) w' w'.start_index ≡ false)
    × (received (2 ^ 2) w' 3 ≡ received (2 ^ 2) gap 3)
shift_lem_example = shift_lem 2 3 gap gap-IsValid (omega arith) (omega arith)

shift-gap : (shift (2 ^ 2) gap).0 ≡ 2
unfolding shift shift_loop relative_index
shift-gap = refl

passed : 1 < (shift (2 ^ 2) gap).1.start_index
unfolding shift shift_loop relative_index
passed = omega arith

stale_accepted_example :
    let w' = (shift (2 ^ 2) gap).1 in
    (received (2 ^ 2) w' 1 ≡ true) × ((w'' : Window ℕ) × (insert (2 ^ 2) 1 6 w' ≡ ok (true, w'')))
stale_accepted_example = stale_accepted 2 1 6 gap gap-IsValid (omega arith) (omega arith) passed

collect_missing_lem_example :
    let (missing, w') = collect_missing (2 ^ 2) 500 100 gap in
    (0 ≤ w'.start_index)
    × (contains 2 missing ≡ (ltb 2 w'.start_index && not (has (2 ^ 2) gap 2)))
    × (slot (2 ^ 2) w'.buf 2 ≡ (if ltb 2 w'.start_index then none else slot (2 ^ 2) gap.buf 2))
    × ((w'.start_index ≡ 0) ⊎ IsLate 500 100 (slot (2 ^ 2) gap.buf (w'.start_index - 1)))
collect_missing_lem_example =
    collect_missing_lem 2 500 100 gap 2 gap-IsValid (omega arith) (omega arith) (omega arith)
