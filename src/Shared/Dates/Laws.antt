-- ===== src/Shared/Dates/Laws.antt =====
-- The search for a working day ends, and counts right.
use radif.Prelude.{
  if◌then◌else◌, Bool-cases, Text, ℕ, zero, suc, ◌+◌, ◌-◌, ◌*◌, ◌≤◌, ◌<◌, ◌≡◌, refl, ◌∙◌, ap, subst,
  ◌⊎◌, inl, inr, true, false, some, arith,
}
use radif.Shared.Dates.{weekday, is_holiday, is_working_day, add_working_days}

module _ (jalali : ℕ → Text) where
  -- How many of the days `day + 1` to `day + n` are working days.
  abbrev pub working_days : ℕ → ℕ → ℕ
  working_days day zero = 0
  working_days day (suc n) =
      (if is_working_day jalali (day + 1) then 1 else 0) + working_days (day + 1) n

  -- The search from a day for a number of working days ends at the last of them.
  abbrev pub Found : ℕ → ℕ → ℕ → Type 0
  Found fuel day remaining =
      (n : ℕ) × (add_working_days jalali fuel day remaining ≡ some (day + n))
      × (working_days day n ≡ remaining)
      × ((n ≡ 0) ⊎ (is_working_day jalali (day + n) ≡ true))

  Found-now : (fuel day : ℕ) → Found fuel day 0
  unfolding add_working_days
  Found-now zero day = (0, ap some (omega arith), refl, inl refl)
  Found-now (suc fuel) day = (0, ap some (omega arith), refl, inl refl)

  last_shifted :
      (day n : ℕ)
      → (n ≡ 0) ⊎ (is_working_day jalali (day + 1 + n) ≡ true)
      → (n ≡ 0 → is_working_day jalali (day + 1) ≡ true)
      → is_working_day jalali (day + suc n) ≡ true
  last_shifted day n (inl e) first =
      subst (λ d. is_working_day jalali d ≡ true) (omega (arith, e)) (first e)
  last_shifted day n (inr h) first = subst (λ d. is_working_day jalali d ≡ true) (omega arith) h

  none_yet : (n day remaining : ℕ) → n ≡ 0 → working_days day n ≡ suc remaining → ⊥
  none_yet zero day remaining z c = omega (arith, c)
  none_yet (suc n) day remaining z c = omega (arith, z)

  Found-after_working :
      (fuel day remaining : ℕ)
      → is_working_day jalali (day + 1) ≡ true
      → Found fuel (day + 1) remaining
      → Found (suc fuel) day (suc remaining)
  unfolding add_working_days
  Found-after_working fuel day remaining w (n, e, c, last) = (
    suc n,
    rw (w, add_working_days) (e ∙ ap some (omega arith)),
    rw w (omega (arith, c)),
    inr (last_shifted day n last (λ _. w)),
  )

  Found-after_free :
      (fuel day remaining : ℕ)
      → is_working_day jalali (day + 1) ≡ false
      → Found fuel (day + 1) (suc remaining)
      → Found (suc fuel) day (suc remaining)
  unfolding add_working_days
  Found-after_free fuel day remaining w (n, e, c, last) = (
    suc n,
    rw (w, add_working_days) (e ∙ ap some (omega arith)),
    rw w (omega (arith, c)),
    inr (last_shifted day n last (λ z. absurd (none_yet n _ _ z c))),
  )

  Found-next :
      (fuel day remaining : ℕ)
      → Found fuel (day + 1) remaining
      → (is_working_day jalali (day + 1) ≡ false → Found fuel (day + 1) (suc remaining))
      → Found (suc fuel) day (suc remaining)
  Found-next fuel day remaining on off = elim (Bool-cases (is_working_day jalali (day + 1))) [
    | inl w ↦ Found-after_working fuel day remaining w on
    | inr w ↦ Found-after_free fuel day remaining w (off w)
  ]

  -- Of three days in a row that are no holidays, one is neither a Thursday nor a Friday.
  working_soon :
      (day : ℕ)
      → is_holiday jalali (day + 1) ≡ false
      → is_holiday jalali (day + 1 + 1) ≡ false
      → is_holiday jalali (day + 1 + 1 + 1) ≡ false
      → is_working_day jalali (day + 1) ≡ false
      → is_working_day jalali (day + 1 + 1) ≡ false
      → is_working_day jalali (day + 1 + 1 + 1) ≡ true
  unfolding is_working_day weekday
  working_soon day a b c u v = ground arith

  module _ (last : ℕ) (no_holiday : (day : ℕ) → last < day → is_holiday jalali day ≡ false) where
    Found-past :
        (remaining fuel day : ℕ) → last ≤ day → 3 * remaining ≤ fuel → Found fuel day remaining
    Found-past zero fuel day h k = Found-now fuel day
    Found-past (suc remaining) (suc (suc (suc fuel))) day h k =
        let later : (more d : ℕ) → last ≤ d → fuel ≤ more → Found more d remaining =
          λ more d i j. Found-past remaining more d i (omega (arith, i, j, k)) in
        Found-next _ day remaining (later _ _ (omega arith) (omega arith)) (λ u.
          Found-next _ (day + 1) remaining (later _ _ (omega arith) (omega arith)) (λ v.
            Found-after_working _ (day + 1 + 1) remaining
              (working_soon day (no_holiday _ (omega arith)) (no_holiday _ (omega arith))
                (no_holiday _ (omega arith)) u v)
              (later _ _ (omega arith) (omega arith))))
    Found-past (suc remaining) fuel day h k = absurd (omega arith)

    Found-before :
        (ahead remaining fuel day : ℕ)
        → last ≤ day + ahead
        → ahead + 3 * remaining ≤ fuel
        → Found fuel day remaining
    Found-before zero remaining fuel day h k =
        Found-past remaining fuel day (omega arith) (omega arith)
    Found-before (suc ahead) zero fuel day h k = Found-now fuel day
    Found-before (suc ahead) (suc remaining) (suc fuel) day h k =
        Found-next fuel day remaining
          (Found-before ahead remaining fuel (day + 1) (omega arith) (omega arith))
          (λ _. Found-before ahead (suc remaining) fuel (day + 1) (omega arith) (omega arith))
    Found-before (suc ahead) (suc remaining) zero day h k = absurd (omega arith)

    -- Where the list names no holiday after the day `last`, as many rounds as there are days up
    -- to it and three more for every day that is asked for are enough: the search ends at a day
    -- up to which there are as many working days as were asked for, and which is one itself
    -- unless none was asked for.
    pub add_working_days_ends : (day count : ℕ) → Found ((last - day) + 3 * count) day count
    add_working_days_ends day count =
        Found-before (last - day) count ((last - day) + 3 * count) day (omega arith) (omega arith)
