-- ===== src/Grants/Spending.antt =====
-- The daily budget is kept, however the statements of concurrent requests are interleaved.
use odatano.Base.{
  ℕ, suc, ◌-◌, ◌≤◌, ◌<◌, ◌≡◌, refl, sym, subst, ap, ◌∙◌, Bool, true, false, Option, none, some,
  List, [], ◌∷◌, ◌&&◌, ltb, ◌==◌, is_id, same_id, arith, if_ind, inl, inr, Bool-cases,
  if◌then◌else◌,
}
use odatano.Grants.{Grant}
use odatano.Grants.Budget.{
  Statement, resets, increments, refunds, Account, reset_window, increment_used,
  refund_daily_budget, execute, execute_all, day_of, IsIssued, AreInOrder,
}

-- The row's counter is that of its day, and no later day has charges.
abbrev IsCounted : ℕ → Option ℕ → ℕ → (ℕ → ℕ) → Type 0
IsCounted day none used c = (w : ℕ) → c w ≡ 0
IsCounted day (some v) used c = (v ≤ day) × (c v ≡ used) × ((w : ℕ) → v < w → c w ≡ 0)

module _ (max : ℕ) (positive : 1 ≤ max) where
  abbrev IsKept : ℕ → Account → Type 0
  IsKept day a =
      IsCounted day a.grant.budget_window a.grant.jobs_used_today a.charged
      × ((w : ℕ) → a.charged w ≤ max)

  unused :
      (day today : ℕ) (seen window : Option ℕ) (used : ℕ) (c : ℕ → ℕ)
      → is_id seen today ≡ false
      → same_id window seen ≡ true
      → day ≤ today
      → IsCounted day window used c
      → (w : ℕ) → today ≤ w
      → c w ≡ 0
  unused day today seen none used c e f le h w later = h w
  unused day today none (some v) used c e f le h w later = ground arith
  unused day today (some u) (some v) used c e f le h w later =
      h.2 w (ground (arith, e, f, le, later, h.0))

  later_day :
      (day today used : ℕ) (window : Option ℕ) (c : ℕ → ℕ)
      → day ≤ today
      → IsCounted day window used c
      → IsCounted today window used c
  later_day day today used none c le h = h
  later_day day today used (some v) c le h = (ground (arith, le, h.0), h.1, h.2)

  -- One charge more on the day.
  charge : ℕ → (ℕ → ℕ) → ℕ → ℕ
  charge day c w = if true && day == w then suc (c w) else c w

  charge_day : (day : ℕ) (c : ℕ → ℕ) → charge day c day ≡ suc (c day)
  unfolding charge
  charge_day day c = ground (arith)

  charge_later : (day : ℕ) (c : ℕ → ℕ) (w : ℕ) → day < w → charge day c w ≡ c w
  unfolding charge
  charge_later day c w h = ground (arith, h)

  charge_bounded :
      (day : ℕ) (c : ℕ → ℕ) → c day < max → ((w : ℕ) → c w ≤ max) → (w : ℕ) → charge day c w ≤ max
  unfolding charge
  charge_bounded day c room h w = elim (Bool-cases (day == w)) [
    | inl same ↦
        let at : day ≡ w = ground arith in
        let here : c w < max = subst (λ w. c w < max) at room in ground (arith, here)
    | inr other ↦ ground (arith, h w)
  ]

  reset_lem :
      (day today : ℕ) (seen : Option ℕ) (a : Account)
      → is_id seen today ≡ false
      → day ≤ today
      → IsKept day a
      → IsKept today (execute max (resets seen today) a)
  unfolding execute reset_window charge
  reset_lem day today seen a e le h =
      if_ind
        (λ (p : Bool × Grant). IsKept today (record {
          grant = p.1;
          charged = λ w. if p.0 && today == w then suc (a.charged w) else a.charged w;
        }))
        (same_id a.grant.budget_window seen)
        (λ same.
          let zero_from : (w : ℕ) → today ≤ w → a.charged w ≡ 0 =
            unused day today seen a.grant.budget_window a.grant.jobs_used_today a.charged e same le
              h.0 in
          let zero_now : a.charged today ≡ 0 = zero_from today (omega arith) in
          (
            (
              omega arith,
              charge_day today a.charged ∙ ap suc zero_now,
              λ w later. charge_later today a.charged w later ∙ zero_from w (ground (arith, later)),
            ),
            charge_bounded today a.charged (ground (arith, zero_now, positive)) h.1,
          ))
        (λ other.
          (later_day day today a.grant.jobs_used_today a.grant.budget_window a.charged le h.0, h.1))

  counted_day :
      (day today used : ℕ) (window : Option ℕ) (c : ℕ → ℕ)
      → is_id window today ≡ true
      → IsCounted day window used c
      → (c today ≡ used) × ((w : ℕ) → today < w → c w ≡ 0)
  counted_day day today used none c e h = ground arith
  counted_day day today used (some v) c e h =
      let at : v ≡ today = ground arith in
      (subst (λ v. c v ≡ used) at h.1, λ w later. h.2 w (ground (arith, at, later)))

  charged_again :
      (day today used : ℕ) (window : Option ℕ) (c : ℕ → ℕ)
      → is_id window today ≡ true
      → IsCounted day window used c
      → day ≤ today
      → IsCounted today window (suc used) (charge today c)
  charged_again day today used none c e h le = ground arith
  charged_again day today used (some v) c e h le =
      let at : today ≡ v = ground arith in
      (
        ground (arith, h.0, le),
        subst (λ v. charge today c v ≡ suc used) at
            (charge_day today c ∙ ap suc (subst (λ v. c v ≡ used) (sym at) h.1)),
        λ w later. charge_later today c w (ground (arith, at, later)) ∙ h.2 w later,
      )

  increment_lem :
      (day today : ℕ) (a : Account)
      → day ≤ today
      → IsKept day a
      → IsKept today (execute max (increments today) a)
  unfolding execute increment_used charge
  increment_lem day today a le h =
      if_ind
        (λ (p : Bool × Grant). IsKept today (record {
          grant = p.1;
          charged = λ w. if p.0 && today == w then suc (a.charged w) else a.charged w;
        }))
        (is_id a.grant.budget_window today && ltb a.grant.jobs_used_today max)
        (λ may.
          let now : is_id a.grant.budget_window today ≡ true = ground (arith, may) in
          let room : a.grant.jobs_used_today < max = ground (arith, may) in
          let (same, later) =
            counted_day day today a.grant.jobs_used_today a.grant.budget_window a.charged now h.0 in
          (
            charged_again day today a.grant.jobs_used_today a.grant.budget_window a.charged now h.0
                le,
            charge_bounded today a.charged (ground (arith, same, room)) h.1,
          ))
        (λ other.
          (later_day day today a.grant.jobs_used_today a.grant.budget_window a.charged le h.0, h.1))

  refunded : ℕ → (ℕ → ℕ) → ℕ → ℕ
  refunded window c w = if window == w then c w - 1 else c w

  refunded_zero : (window : ℕ) (c : ℕ → ℕ) (w : ℕ) → c w ≡ 0 → refunded window c w ≡ 0
  unfolding refunded
  refunded_zero window c w h = ground (arith, h)

  refunded_bounded : (window : ℕ) (c : ℕ → ℕ) (w : ℕ) → c w ≤ max → refunded window c w ≤ max
  unfolding refunded
  refunded_bounded window c w h = ground (arith, h)

  refunded_now :
      (window v used : ℕ) (c : ℕ → ℕ)
      → c v ≡ used
      → refunded window c v ≡ (if v == window && ltb 0 used then used - 1 else used)
  unfolding refunded
  refunded_now window v used c h = elim (Bool-cases (v == window)) [
    | inl same ↦ let at : window == v ≡ true = ground arith in ground (arith, h, same, at)
    | inr other ↦ let off : window == v ≡ false = ground arith in ground (arith, h, other, off)
  ]

  IsCounted-refund :
      (day window : ℕ) (bw : Option ℕ) (used : ℕ) (c : ℕ → ℕ)
      → IsCounted day bw used c
      → IsCounted day bw
          (if is_id bw window && ltb 0 used then used - 1 else used)
          (refunded window c)
  IsCounted-refund day window none used c h = λ w. refunded_zero window c w (h w)
  IsCounted-refund day window (some v) used c h =
      (h.0, refunded_now window v used c h.1, λ w later. refunded_zero window c w (h.2 w later))

  refund_lem :
      (day window : ℕ) (a : Account) → IsKept day a → IsKept day (execute max (refunds window) a)
  unfolding execute refund_daily_budget refunded
  refund_lem day window a h =
      let counts : Bool → Type 0 = λ b.
        IsCounted day a.grant.budget_window
          (if b then a.grant.jobs_used_today - 1 else a.grant.jobs_used_today)
          (refunded window a.charged) in
      let still =
        IsCounted-refund day window a.grant.budget_window a.grant.jobs_used_today a.charged h.0 in
      let bounded : (w : ℕ) → refunded window a.charged w ≤ max =
        λ w. refunded_bounded window a.charged w (h.1 w) in
      if_ind (λ (g : Grant). IsKept day (record { grant = g; charged = refunded window a.charged }))
        (is_id a.grant.budget_window window && ltb 0 a.grant.jobs_used_today)
        (λ e. (subst counts e still, bounded)) (λ e. (subst counts e still, bounded))

  statement_lem :
      (s : Statement) (day : ℕ) (a : Account)
      → IsIssued s
      → day ≤ day_of s day
      → IsKept day a
      → IsKept (day_of s day) (execute max s a)
  statement_lem (resets seen today) day a issued le h = reset_lem day today seen a issued le h
  statement_lem (increments today) day a issued le h = increment_lem day today a le h
  statement_lem (refunds window) day a issued le h = refund_lem day window a h

  statements_lem :
      (ss : List Statement) (day : ℕ) (a : Account)
      → AreInOrder day ss
      → IsKept day a
      → (w : ℕ) → (execute_all max ss a).charged w ≤ max
  statements_lem [] day a ordered h w = h.1 w
  statements_lem (s ∷ ss) day a ordered h w =
      statements_lem ss (day_of s day) (execute max s a) ordered.2
        (statement_lem s day a ordered.0 ordered.1 h) w

  -- The daily budget is kept: from a grant without a charge, in any interleaving of the statements of
  -- requests whose days do not go back, each as the code issues it, the charges of a day that were told
  -- to be consumed, less the refunded ones, are never more than a positive daily maximum.
  pub charged_within_budget :
      (g : Grant) (ss : List Statement) (day : ℕ)
      → g.budget_window ≡ none
      → AreInOrder day ss
      → (w : ℕ) → (execute_all max ss (record { grant = g; charged = λ v. 0 })).charged w ≤ max
  charged_within_budget g ss day fresh ordered w =
      statements_lem ss day (record { grant = g; charged = λ v. 0 }) ordered
        (
          subst (λ b. IsCounted day b g.jobs_used_today (λ v. 0)) (sym fresh) (λ w. refl),
          λ w. omega arith,
        )
        w
