-- ===== src/Congestion/Udt/Select.antt =====
-- src/reliability/congestion_controller/udt.rs: `find_kth_element_recursive` selects by rank.
use ruknet.Base.{
  ℕ, zero, suc, ◌+◌, ◌-◌, ◌/◌, ◌≤◌, ◌<◌, ◌≡◌, refl, ◌∙◌, ap, Bool, true, false, some, List, [], ◌∷◌,
  ltb, ◌==◌, if◌then◌else◌, length, get_elem?, arith, Bool-cases, inl, inr,
}
use ruknet.Congestion.Udt.{Floats, Comparison, less, equal, greater}
use ruknet.Congestion.Udt.Arrival.{parts, find_kth_element_recursive}

abbrev pub order : ℕ → ℕ → Comparison
order a b = if ltb a b then less else if a == b then equal else greater

module _ (floats : Floats) (key : floats.F → ℕ) (is_nan : floats.F → Bool) where
  open floats use {F, compare}

  -- How many elements lie below a key, and how many have it.
  abbrev pub below : ℕ → List F → ℕ
  below k [] = 0
  below k (e ∷ es) = (if ltb (key e) k then 1 else 0) + below k es

  abbrev pub same : ℕ → List F → ℕ
  same k [] = 0
  same k (e ∷ es) = (if key e == k then 1 else 0) + same k es

  -- An element that stands at place `n` when the list is sorted.
  abbrev pub IsKth : ℕ → List F → F → Type 0
  IsKth n list x = (below (key x) list ≤ n) × (n < below (key x) list + same (key x) list)

  abbrev pub HasNoNan : List F → Type 0
  HasNoNan [] = Unit {0}
  HasNoNan (e ∷ es) = (is_nan e ≡ false) × HasNoNan es

  -- `partial_cmp` orders the floats other than NaN, as a key does.
  abbrev pub IsOrdered : Type 0
  IsOrdered =
      (a b : F) → is_nan a ≡ false → is_nan b ≡ false → compare a b ≡ some (order (key a) (key b))

  record Parted (m : ℕ) (xs l q g : List F) : Type 0 where
    l_numbers : HasNoNan l
    g_numbers : HasNoNan g
    l_below : length l ≡ below m xs
    q_same : length q ≡ same m xs
    sizes : length l + length q + length g ≡ length xs
    low : (k : ℕ) → k < m → (below k l ≡ below k xs) × (same k l ≡ same k xs)
    high : (k : ℕ) → m < k → (length l + length q + below k g ≡ below k xs) × (same k g ≡ same k xs)
    low_out : (k : ℕ) → m ≤ k → same k l ≡ 0
    high_out : (k : ℕ) → k ≤ m → same k g ≡ 0

  Parted-less :
      (m : ℕ) (e : F) (xs l q g : List F)
      → is_nan e ≡ false
      → key e < m
      → Parted m xs l q g
      → Parted m (e ∷ xs) (e ∷ l) q g
  Parted-less m e xs l q g number h p = record {
    l_numbers = (number, p.l_numbers);
    g_numbers = p.g_numbers;
    l_below = ground (arith, p.l_below);
    q_same = ground (arith, p.q_same);
    sizes = ground (arith, p.sizes);
    low = λ k i. (
      ap (λ n. (if ltb (key e) k then 1 else 0) + n) (p.low k i).0,
      ap (λ n. (if key e == k then 1 else 0) + n) (p.low k i).1,
    );
    high = λ k i. (ground (arith, (p.high k i).0), ground (arith, (p.high k i).1));
    low_out = λ k i. ground (arith, p.low_out k i);
    high_out = p.high_out;
  }

  Parted-equal :
      (m : ℕ) (e : F) (xs l q g : List F)
      → key e ≡ m
      → Parted m xs l q g
      → Parted m (e ∷ xs) l (e ∷ q) g
  Parted-equal m e xs l q g h p = record {
    l_numbers = p.l_numbers;
    g_numbers = p.g_numbers;
    l_below = ground (arith, p.l_below);
    q_same = ground (arith, p.q_same);
    sizes = ground (arith, p.sizes);
    low = λ k i. (ground (arith, (p.low k i).0), ground (arith, (p.low k i).1));
    high = λ k i. (ground (arith, (p.high k i).0), ground (arith, (p.high k i).1));
    low_out = p.low_out;
    high_out = p.high_out;
  }

  Parted-greater :
      (m : ℕ) (e : F) (xs l q g : List F)
      → is_nan e ≡ false
      → m < key e
      → Parted m xs l q g
      → Parted m (e ∷ xs) l q (e ∷ g)
  Parted-greater m e xs l q g number h p = record {
    l_numbers = p.l_numbers;
    g_numbers = (number, p.g_numbers);
    l_below = ground (arith, p.l_below);
    q_same = ground (arith, p.q_same);
    sizes = ground (arith, p.sizes);
    low = λ k i. (ground (arith, (p.low k i).0), ground (arith, (p.low k i).1));
    high = λ k i. (ground (arith, (p.high k i).0), ground (arith, (p.high k i).1));
    low_out = p.low_out;
    high_out = λ k i. ground (arith, p.high_out k i);
  }

  module _ (ordered : IsOrdered) where
    -- The three parts of a list without NaN, and which element goes to which.
    parts-Parted :
        (pivot : F) (xs : List F)
        → is_nan pivot ≡ false
        → HasNoNan xs
        → (l q g : List F) × (parts floats pivot xs ≡ some (l, q, g)) × Parted (key pivot) xs l q g
    unfolding parts
    parts-Parted pivot [] number numbers = (
      [],
      [],
      [],
      refl,
      record {
        l_numbers = tt;
        g_numbers = tt;
        l_below = refl;
        q_same = refl;
        sizes = refl;
        low = λ k i. (refl, refl);
        high = λ k i. (refl, refl);
        low_out = λ k i. refl;
        high_out = λ k i. refl;
      },
    )
    parts-Parted pivot (e ∷ es) number (first, numbers) =
        let (l, q, g, split, p) = parts-Parted pivot es number numbers in
        let compares = ordered e pivot first number in
        elim (Bool-cases (ltb (key e) (key pivot))) [
          | inl lower ↦ (
            e ∷ l,
            q,
            g,
            rw (split, compares, lower) refl,
            Parted-less (key pivot) e es l q g first (ground arith) p,
          )
          | inr not_lower ↦ elim (Bool-cases (key e == key pivot)) [
            | inl is_same ↦ (
              l,
              e ∷ q,
              g,
              rw (split, compares, not_lower, is_same) refl,
              Parted-equal (key pivot) e es l q g (ground arith) p,
            )
            | inr not_same ↦ (
              l,
              q,
              e ∷ g,
              rw (split, compares, not_lower, not_same) refl,
              Parted-greater (key pivot) e es l q g first (ground arith) p,
            )
          ]
        ]

    same_le : (k : ℕ) (xs : List F) → below k xs + same k xs ≤ length xs
    same_le k [] = omega arith
    same_le k (e ∷ es) = ground (arith, same_le k es)

    -- A place of the list has an element, which is no NaN and counts as one of its key.
    get_elem?-lem :
        (xs : List F) (i : ℕ)
        → i < length xs
        → HasNoNan xs
        → (x : F) × (get_elem? xs i ≡ some x) × (is_nan x ≡ false) × (0 < same (key x) xs)
    get_elem?-lem [] i h numbers = elim h [ ]
    get_elem?-lem (e ∷ es) zero h numbers = (e, refl, numbers.0, ground arith)
    get_elem?-lem (e ∷ es) (suc i) h numbers =
        let (x, found, number, counted) = get_elem?-lem es i (omega arith) numbers.1 in
        (x, found, number, ground arith)

    abbrev Selects : ℕ → List F → ℕ → Type 0
    Selects fuel list k =
        (x : F) × (find_kth_element_recursive floats fuel list k ≡ some x) × IsKth k list x

    select_single :
        (fuel : ℕ) (xs : List F) (k : ℕ) → length xs ≡ 1 → k < length xs → Selects (suc fuel) xs k
    unfolding find_kth_element_recursive
    select_single fuel [] k one h = elim h [ ]
    select_single fuel (x ∷ []) k one h = (x, refl, (ground arith, ground arith))
    select_single fuel (x ∷ y ∷ ys) k one h = absurd (omega arith)

    IsKth-low :
        (m k : ℕ) (xs l q g : List F) (x : F) → Parted m xs l q g → IsKth k l x → IsKth k xs x
    IsKth-low m k xs l q g x p h = elim (Bool-cases (ltb (key x) m)) [
      | inl lower ↦
          (let low = p.low (key x) (ground arith) in
            (omega (arith, low.0, h.0), omega (arith, low.0, low.1, h.1)))
      | inr not_lower ↦ absurd (ground (arith, p.low_out (key x) (ground arith)))
    ]

    IsKth-high :
        (m k : ℕ) (xs l q g : List F) (x : F)
        → Parted m xs l q g
        → length l + length q ≤ k
        → IsKth (k - length l - length q) g x
        → IsKth k xs x
    IsKth-high m k xs l q g x p i h = elim (Bool-cases (ltb m (key x))) [
      | inl higher ↦
          (let high = p.high (key x) (ground arith) in
            (omega (arith, high.0, h.0), omega (arith, high.0, high.1, h.1)))
      | inr not_higher ↦ absurd (ground (arith, p.high_out (key x) (ground arith)))
    ]

    -- What a round does with the parts of its list.
    module _ (fuel k : ℕ) (list l q g : List F) (pivot : F) (many : (length list == 1) ≡ false)
        (found : get_elem? list (length list / 2) ≡ some pivot)
        (split : parts floats pivot list ≡ some (l, q, g)) where
      round_low :
          ltb k (length l) ≡ true
          → find_kth_element_recursive floats (suc fuel) list k
            ≡ find_kth_element_recursive floats fuel l k
      unfolding find_kth_element_recursive
      round_low lower = rw (many, found, split, lower, find_kth_element_recursive) refl

      round_inside :
          ltb k (length l) ≡ false
          → ltb k (length l + length q) ≡ true
          → find_kth_element_recursive floats (suc fuel) list k ≡ some pivot
      unfolding find_kth_element_recursive
      round_inside not_lower inside =
          rw (many, found, split, not_lower, inside, find_kth_element_recursive) refl

      round_high :
          ltb k (length l) ≡ false
          → ltb k (length l + length q) ≡ false
          → find_kth_element_recursive floats (suc fuel) list k
            ≡ find_kth_element_recursive floats fuel g (k - length l - length q)
      unfolding find_kth_element_recursive
      round_high not_lower outside =
          rw (many, found, split, not_lower, outside, find_kth_element_recursive) refl

      -- The round selects if the rounds that follow do.
      select_round :
          Parted (key pivot) list l q g
          → 0 < same (key pivot) list
          → k < length list
          → length list ≤ suc fuel
          → ((k' : ℕ) (list' : List F)
              → HasNoNan list'
              → k' < length list'
              → length list' ≤ fuel
              → Selects fuel list' k')
          → Selects (suc fuel) list k
      select_round p counted h enough rounds =
          let all = same_le (key pivot) list in
          elim (Bool-cases (ltb k (length l))) [
            | inl lower ↦
                let (x, e, kth) =
                  rounds k l p.l_numbers (ground arith) (omega (arith, p.l_below)) in
                (x, round_low lower ∙ e, IsKth-low (key pivot) k list l q g x p kth)
            | inr not_lower ↦ elim (Bool-cases (ltb k (length l + length q))) [
              | inl inside ↦ (
                pivot,
                round_inside not_lower inside,
                (ground (arith, p.l_below), ground (arith, p.l_below, p.q_same)),
              )
              | inr outside ↦
                  let (x, e, kth) =
                    rounds (k - length l - length q) g p.g_numbers (ground (arith, p.sizes))
                      (omega (arith, p.sizes, p.q_same)) in
                  (
                    x,
                    round_high not_lower outside ∙ e,
                    IsKth-high (key pivot) k list l q g x p (ground arith) kth,
                  )
            ]
          ]

    -- Of a list of floats that are not NaN, `find_kth_element_recursive` gives an element for every
    -- place, one that stands there in sorted order, with as much fuel as the list has elements.
    -- `partial_cmp` is to order such floats as some key does.
    pub find_kth_element_recursive_lem :
        (fuel k : ℕ) (list : List F)
        → HasNoNan list
        → k < length list
        → length list ≤ fuel
        → (x : F) × (find_kth_element_recursive floats fuel list k ≡ some x) × IsKth k list x
    find_kth_element_recursive_lem zero k list numbers h enough = absurd (omega arith)
    find_kth_element_recursive_lem (suc fuel) k list numbers h enough =
        elim (Bool-cases (length list == 1)) [
          | inl one ↦ select_single fuel list k (ground arith) h
          | inr many ↦
              let (pivot, found, number, counted) =
                get_elem?-lem list (length list / 2) (omega arith) numbers in
              let (l, q, g, split, p) = parts-Parted pivot list number numbers in
              select_round fuel k list l q g pivot many found split p counted h enough
                λ k' list' n i e. find_kth_element_recursive_lem fuel k' list' n i e
        ]
