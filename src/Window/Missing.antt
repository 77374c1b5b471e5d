-- ===== src/Window/Missing.antt =====
-- `collect_missing`: the window moves past the latest index that timed out, and the indices that it
-- passes without having them are reported.
use ruknet.Base.{
  ℕ, zero, suc, ◌+◌, ◌-◌, ◌%◌, ◌^◌, ◌≤◌, ◌<◌, ◌≡◌, ◌⊎◌, refl, sym, ap, ap₂, get_or, ◌∙◌, Bool, true,
  false, not, ◌&&◌, ◌||◌, inl, inr, Bool-cases, Option, none, some, List, [], ◌∷◌, ◌++◌, arith, ltb,
  leb, ◌==◌, if◌then◌else◌, length, length-set, is_some, is_none, set,
}
use ruknet.Base.Bits.{two-pow-pos}
use ruknet.Window.{
  Window, Sweep, relative_index, add_u32, sub_u64, range_of, sweep_some, sweep_none, sweep_step,
  sweep, start_after, collect_missing,
}
use ruknet.Window.Slots.{slot, slot-set, relative_index-mod}
use ruknet.Window.Inv.{IsValid, has}

abbrev pub contains : ℕ → List ℕ → Bool
contains x [] = false
contains x (y ∷ ys) = (x == y) || contains x ys

contains-snoc :
    (x : ℕ) (ys : List ℕ) (y : ℕ) → contains x (ys ++ y ∷ []) ≡ (contains x ys || (x == y))
contains-snoc x [] y = ground arith
contains-snoc x (z ∷ ys) y = ground (arith, contains-snoc x ys y)

-- Something received longer than `rto` ago.
abbrev pub IsLate : ℕ → ℕ → Option ℕ → Type 0
IsLate now rto none = ⊥
IsLate now rto (some time) = ltb rto (sub_u64 now time) ≡ true

is_some-late : (now rto : ℕ) (cell : Option ℕ) → IsLate now rto cell → is_some cell ≡ true
is_some-late now rto none h = elim h [ ]
is_some-late now rto (some time) h = refl

module _ (k now rto start : ℕ) (buf : List (Option ℕ)) where
  -- The distances from `i` on are swept, and `t` is the latest that timed out.
  record Passed (i t : ℕ) (buf' : List (Option ℕ)) (missing : List ℕ) : Type 0 where
    reached : i ≤ t
    bound : t < 2 ^ k
    slots : length buf' ≡ 2 ^ k
    cleared :
        (j : ℕ)
        → j < 2 ^ k
        → slot (2 ^ k) buf' (start + j)
          ≡ (if leb i j && leb j t then none else slot (2 ^ k) buf (start + j))
    listed :
        (x : ℕ)
        → contains x missing
          ≡ (leb (start + i) x && ltb x (start + t) && is_none (slot (2 ^ k) buf x))
    late : IsLate now rto (slot (2 ^ k) buf (start + t))

  abbrev Swept : ℕ → Sweep → Type 0
  Swept i (buf', missing, none) = (buf' ≡ buf) × (missing ≡ [])
  Swept i (buf', missing, some t) = Passed i t buf' missing

  sweep_step-eq :
      (i : ℕ) (buf' : List (Option ℕ)) (missing : List ℕ) (timeout : Option ℕ)
      → start + i < 2 ^ 32
      → sweep_step (2 ^ k) now rto start i (buf', missing, timeout)
        ≡ elim (slot (2 ^ k) buf' (start + i)) as (λ _. Sweep) [
          | some time ↦ sweep_some now rto ((start + i) % 2 ^ k) i time (buf', missing, timeout)
          | none ↦ sweep_none (start + i) (buf', missing, timeout)
        ]
  unfolding sweep_step
  sweep_step-eq i buf' missing timeout h =
      let e : add_u32 start i ≡ start + i = omega arith in
      let r : relative_index (2 ^ k) (add_u32 start i) ≡ (start + i) % 2 ^ k =
        ap (λ j. relative_index (2 ^ k) j) e ∙ relative_index-mod k (start + i) in
      ap₂
        (λ r j. elim (get_or buf' r none) as (λ _. Sweep) [
          | some time ↦ sweep_some now rto r i time (buf', missing, timeout)
          | none ↦ sweep_none j (buf', missing, timeout)
        ])
        r e

  set-slot :
      (buf' : List (Option ℕ)) (i j : ℕ)
      → length buf' ≡ 2 ^ k
      → i < 2 ^ k
      → j < 2 ^ k
      → slot (2 ^ k) (set buf' ((start + i) % 2 ^ k) none) (start + j)
        ≡ (if i == j then none else slot (2 ^ k) buf' (start + j))
  set-slot buf' i j len a b = ground (
    arith,
    slot-set (2 ^ k) (two-pow-pos k) buf' start (start + i) (start + j) none len (omega arith)
        (omega arith) (omega arith) (omega arith),
  )

  -- A value that comes first after those that did not time out.
  first_late :
      (i time : ℕ)
      → length buf ≡ 2 ^ k
      → i < 2 ^ k
      → slot (2 ^ k) buf (start + i) ≡ some time
      → ltb rto (sub_u64 now time) ≡ true
      → Passed i i (set buf ((start + i) % 2 ^ k) none) []
  first_late i time len a e late = record {
    reached = omega arith;
    bound = a;
    slots = length-set buf _ none ∙ len;
    cleared = λ j b. ground (arith, set-slot buf i j len a b);
    listed = λ x. ground arith;
    late = rw (e) late;
  }

  next_some :
      (i t time : ℕ) (buf' : List (Option ℕ)) (missing : List ℕ)
      → i < 2 ^ k
      → slot (2 ^ k) buf' (start + i) ≡ some time
      → Passed (suc i) t buf' missing
      → Passed i t (set buf' ((start + i) % 2 ^ k) none) missing
  next_some i t time buf' missing a e p = record {
    reached = omega (arith, p.reached);
    bound = p.bound;
    slots = length-set buf' _ none ∙ p.slots;
    cleared = λ j b. ground (arith, p.reached, set-slot buf' i j p.slots a b, p.cleared j b);
    listed = λ x. elim (Bool-cases (x == start + i)) [
      | inl here ↦ ground (arith, p.listed x, p.cleared i a)
      | inr there ↦ ground (arith, p.listed x)
    ];
    late = p.late;
  }

  next_none :
      (i t : ℕ) (buf' : List (Option ℕ)) (missing : List ℕ)
      → i < 2 ^ k
      → slot (2 ^ k) buf' (start + i) ≡ none
      → Passed (suc i) t buf' missing
      → Passed i t buf' (missing ++ (start + i) ∷ [])
  next_none i t buf' missing a e p = record {
    reached = omega (arith, p.reached);
    bound = p.bound;
    slots = p.slots;
    cleared = λ j b. elim (Bool-cases (i == j)) [
      | inl here ↦
          let same : i ≡ j = ground arith in ground (arith, p.reached, p.cleared j b, e, same)
      | inr there ↦ ground (arith, p.reached, p.cleared j b)
    ];
    listed = λ x. elim (Bool-cases (x == start + i)) [
      | inl here ↦
          ground (arith, p.reached, p.listed x, p.cleared i a, contains-snoc x missing (start + i))
      | inr there ↦ ground (arith, p.listed x, contains-snoc x missing (start + i))
    ];
    late = p.late;
  }

  step-Swept :
      (i : ℕ) (s : Sweep) (cell : Option ℕ)
      → length buf ≡ 2 ^ k
      → start + 2 ^ k ≤ 2 ^ 32
      → i < 2 ^ k
      → slot (2 ^ k) s.0 (start + i) ≡ cell
      → Swept (suc i) s
      → Swept i (sweep_step (2 ^ k) now rto start i s)
  step-Swept i (buf', missing, none) none len room a e (same, empty) =
      rw (sweep_step-eq i buf' missing none (omega arith), e) (same, empty)
  step-Swept i (buf', missing, some t) none len room a e p =
      rw (sweep_step-eq i buf' missing (some t) (omega arith), e) (next_none i t buf' missing a e p)
  step-Swept i (buf', missing, some t) (some time) len room a e p =
      rw (sweep_step-eq i buf' missing (some t) (omega arith), e)
        (next_some i t time buf' missing a e p)
  step-Swept i (buf', missing, none) (some time) len room a e (same, empty) =
      elim (Bool-cases (ltb rto (sub_u64 now time))) [
        | inl late ↦
            rw (sweep_step-eq i buf' missing none (omega arith), e, late, empty, same)
              (first_late i time len a (ap (λ b. slot (2 ^ k) b (start + i)) (sym same) ∙ e) late)
        | inr early ↦ rw (sweep_step-eq i buf' missing none (omega arith), e, early) (same, empty)
      ]

  sweep-Swept :
      (i : ℕ) (s : Sweep)
      → length buf ≡ 2 ^ k
      → start + 2 ^ k ≤ 2 ^ 32
      → i ≤ 2 ^ k
      → Swept i s
      → Swept 0 (sweep (2 ^ k) i now rto start s)
  unfolding sweep
  sweep-Swept zero s len room a p = p
  sweep-Swept (suc i) s len room a p =
      sweep-Swept i (sweep_step (2 ^ k) now rto start i s) len room (omega arith)
        (step-Swept i s (slot (2 ^ k) s.0 (start + i)) len room (omega arith) refl p)

module _ (k now rto : ℕ) (w : Window ℕ) (x : ℕ) where
  outcome :
      (s : Sweep)
      → w.start_index + 2 ^ k < 2 ^ 32
      → w.start_index ≤ x
      → x < w.start_index + 2 ^ k
      → Swept k now rto w.start_index w.buf 0 s
      → let after = start_after (2 ^ k) s.2 w.start_index in
        (w.start_index ≤ after)
        × (contains x s.1 ≡ (ltb x after && not (has (2 ^ k) w x)))
        × (slot (2 ^ k) s.0 x ≡ (if ltb x after then none else slot (2 ^ k) w.buf x))
        × ((after ≡ w.start_index) ⊎ IsLate now rto (slot (2 ^ k) w.buf (after - 1)))
  outcome (buf', missing, none) room lo hi (same, empty) = rw (same, empty) (ground arith)
  outcome (buf', missing, some t) room lo hi p =
      let e : add_u32 w.start_index (t + 1) ≡ w.start_index + t + 1 = omega (arith, p.bound) in
      let x_at : w.start_index + (x - w.start_index) ≡ x = omega arith in
      let last : w.start_index + t + 1 - 1 ≡ w.start_index + t = omega arith in
      let cleared = rw x_at at (p.cleared (x - w.start_index) (omega arith)) in
      rw (e, last)
        (
          omega arith,
          elim (Bool-cases (x == w.start_index + t)) [
            | inl here ↦
                let at_t : x ≡ w.start_index + t = ground arith in
                let full = is_some-late now rto (slot (2 ^ k) w.buf (w.start_index + t)) p.late in
                ground (arith, p.listed x, full, at_t)
            | inr there ↦ ground (arith, p.listed x)
          ],
          ground (arith, cleared),
          inr p.late,
        )

  -- Searching a well-formed window, short of 2^32, for missing indices moves its start, if at all,
  -- just past something that came too long ago. Of the window's indices exactly those passed that it
  -- did not have are reported; the slots of those passed are empty then, and the others stay.
  pub collect_missing_lem :
      IsValid (2 ^ k) w
      → w.start_index + 2 ^ k < 2 ^ 32
      → w.start_index ≤ x
      → x < w.start_index + 2 ^ k
      → let (missing, w') = collect_missing (2 ^ k) now rto w in
        (w.start_index ≤ w'.start_index)
        × (contains x missing ≡ (ltb x w'.start_index && not (has (2 ^ k) w x)))
        × (slot (2 ^ k) w'.buf x ≡ (if ltb x w'.start_index then none else slot (2 ^ k) w.buf x))
        × ((w'.start_index ≡ w.start_index)
            ⊎ IsLate now rto (slot (2 ^ k) w.buf (w'.start_index - 1)))
  unfolding collect_missing
  collect_missing_lem v room lo hi =
      let range = range_of (2 ^ k) w.furthest_index w.start_index in
      let le : range ≤ 2 ^ k = ground (arith, v.fits) in
      outcome (sweep (2 ^ k) range now rto w.start_index (w.buf, [], none)) room lo hi (
        sweep-Swept k now rto w.start_index w.buf range (w.buf, [], none) v.slots v.no_wrap le
          (refl, refl))
