-- ===== src/Window.antt =====
-- src/reliability/window.rs: the window of received indices. `n` is the const parameter
-- `BUFFER_SIZE`; the program uses the powers of two 128 and 512. The 32-bit and 64-bit operations
-- wrap, as in a release build.
mod Slots
mod Loop
pub mod Inv
pub mod Insert
pub mod Shift
pub mod Stale
pub mod Missing
mod Tests
use ruknet.Base.{
  ℕ, zero, suc, ◌+◌, ◌-◌, ◌%◌, ◌^◌, bit_and, Bool, true, false, ◌&&◌, Option, none, some, List, [],
  ◌∷◌, ◌++◌, ltb, leb, ◌==◌, if◌then◌else◌, get_or, set, replicate, is_some, is_none, Result, ok,
  err,
}
use ruknet.Error.{BufferOverflowError, overflowed}

pub record Window (T : Type 0) : Type 0 where
  pub buf : List (Option T)
  pub start_index : ℕ
  pub furthest_index : Option ℕ

abbrev pub add_u32 : ℕ → ℕ → ℕ
add_u32 a b = (a + b) % 2 ^ 32

abbrev pub sub_u32 : ℕ → ℕ → ℕ
sub_u32 a b = (a + 2 ^ 32 - b) % 2 ^ 32

abbrev pub sub_u64 : ℕ → ℕ → ℕ
sub_u64 a b = (a + 2 ^ 64 - b) % 2 ^ 64

-- `index as usize & (BUFFER_SIZE - 1)`
unfoldable pub relative_index : ℕ → ℕ → ℕ
relative_index n index = bit_and index (n - 1)

-- The furthest index once `index` is in.
abbrev pub further : Option ℕ → ℕ → Option ℕ
further none index = some index
further (some f) index = if ltb f index then some index else some f

-- The rounds of the loops, from `start_index` up to the furthest index.
abbrev pub range_of : ℕ → Option ℕ → ℕ → ℕ
range_of n none start = n
range_of n (some f) start = add_u32 (sub_u32 f start) 1

-- The furthest index is forgotten when the shift has passed it.
abbrev pub forget_passed : Option ℕ → ℕ → ℕ → Option ℕ
forget_passed none count start = none
forget_passed (some f) count start =
    if ltb 0 count && (sub_u32 (add_u32 start count) 1 == f) then none else some f

module _ {T : Type 0} (n : ℕ) where
  unfoldable pub new : Window T
  new = record { buf = replicate n none; start_index = 0; furthest_index = none }

  unfoldable pub insert : ℕ → T → Window T → Result BufferOverflowError (Bool × Window T)
  insert index value w =
      let slot = relative_index n index in
      let w' : Window T = record w {
        buf = set w.buf slot (some value);
        furthest_index = further w.furthest_index index;
      } in
      if leb (w.start_index + n) index
      then err overflowed
      else if is_some (get_or w.buf slot none)
      then ok (false, w)
      else ok (true, w')

  -- `left` rounds are to go; `i` rounds are done, and that is also the `count` of the source.
  unfoldable pub shift_loop : ℕ → ℕ → ℕ → List (Option T) → ℕ × List (Option T)
  shift_loop zero start i buf = (i, buf)
  shift_loop (suc left) start i buf =
      let slot = relative_index n (add_u32 start i) in
      elim (is_none (get_or buf slot none)) [
        | true ↦ (i, buf)
        | false ↦ shift_loop left start (i + 1) (set buf slot none)
      ]

  unfoldable pub shift : Window T → ℕ × Window T
  shift w =
      let range = range_of n w.furthest_index w.start_index in
      let (count, buf') = shift_loop range w.start_index 0 w.buf in
      (
        count,
        record {
          buf = buf';
          start_index = add_u32 w.start_index count;
          furthest_index = forget_passed w.furthest_index count w.start_index;
        },
      )

-- One round of `collect_missing`, at the distance `i` from the start: the slots, the indices found
-- missing so far, and the distance of the latest index that has timed out.
abbrev pub Sweep : Type 0
Sweep = List (Option ℕ) × List ℕ × Option ℕ

abbrev pub sweep_some : ℕ → ℕ → ℕ → ℕ → ℕ → Sweep → Sweep
sweep_some now rto slot i time (buf, missing, none) =
    if ltb rto (sub_u64 now time)
    then (set buf slot none, missing, some i)
    else (buf, missing, none)
sweep_some now rto slot i time (buf, missing, some t) = (set buf slot none, missing, some t)

abbrev pub sweep_none : ℕ → Sweep → Sweep
sweep_none index (buf, missing, none) = (buf, missing, none)
sweep_none index (buf, missing, some t) = (buf, missing ++ index ∷ [], some t)

module _ (n : ℕ) where
  unfoldable pub sweep_step : ℕ → ℕ → ℕ → ℕ → Sweep → Sweep
  sweep_step now rto start i (buf, missing, timeout) =
      let slot = relative_index n (add_u32 start i) in
      elim (get_or buf slot none) [
        | some time ↦ sweep_some now rto slot i time (buf, missing, timeout)
        | none ↦ sweep_none (add_u32 start i) (buf, missing, timeout)
      ]

  -- `for i in (0..range).rev()`
  unfoldable pub sweep : ℕ → ℕ → ℕ → ℕ → Sweep → Sweep
  sweep zero now rto start s = s
  sweep (suc i) now rto start s = sweep i now rto start (sweep_step now rto start i s)

  abbrev pub start_after : Option ℕ → ℕ → ℕ
  start_after none start = start
  start_after (some t) start = add_u32 start (t + 1)

  unfoldable pub collect_missing : ℕ → ℕ → Window ℕ → List ℕ × Window ℕ
  collect_missing now rto w =
      let range = range_of n w.furthest_index w.start_index in
      let (buf', missing, timeout) = sweep range now rto w.start_index (w.buf, [], none) in
      (missing, record w { buf = buf'; start_index = start_after timeout w.start_index })
