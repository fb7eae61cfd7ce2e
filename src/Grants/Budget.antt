-- ===== src/Grants/Budget.antt =====
-- srv/utils/agent-grants.ts: the daily budget of one grant. A charge is at most two conditional UPDATEs,
-- and a refund one; statements of other requests may stand between any two of them. A UTC day is its
-- number.
use odatano.Base.{
  ℕ, suc, ◌-◌, ◌≤◌, ◌≡◌, Bool, true, false, Option, some, List, [], ◌∷◌, ◌&&◌, ltb, ◌==◌, is_id,
  same_id, if◌then◌else◌,
}
use odatano.Grants.{Grant}

-- `UPDATE … WHERE budgetWindow = <seen>`: the first charge of a day
unfoldable pub reset_window : Option ℕ → ℕ → Grant → Bool × Grant
reset_window seen today g =
    if same_id g.budget_window seen
    then (true, record g { budget_window = some today; jobs_used_today = 1 })
    else (false, g)

-- `UPDATE … WHERE budgetWindow = <today> AND jobsUsedToday < <max>`
unfoldable pub increment_used : ℕ → ℕ → Grant → Bool × Grant
increment_used today max g =
    if is_id g.budget_window today && ltb g.jobs_used_today max
    then (true, record g { jobs_used_today = suc g.jobs_used_today })
    else (false, g)

-- `refundDailyBudget`
unfoldable pub refund_daily_budget : ℕ → Grant → Grant
refund_daily_budget window g =
    if is_id g.budget_window window && ltb 0 g.jobs_used_today
    then record g { jobs_used_today = g.jobs_used_today - 1 }
    else g

-- `consumeDailyBudget`: `seen` is the window in the row that the request has; `between` is what other
-- requests do between the two statements.
unfoldable pub consume_daily_budget : Option ℕ → ℕ → ℕ → (Grant → Grant) → Grant → Bool × Grant
unfolding reset_window increment_used
consume_daily_budget seen today max between g =
    if is_id seen today
    then increment_used today max g
    else let (reset, g') = reset_window seen today g in
      (if reset then (true, g') else increment_used today max (between g'))

-- A statement on the row, as a request issues it.
pub data Statement : Type 0 where
  -- the window that the request has seen, and its day
  resets : Option ℕ → ℕ → Statement
  increments : ℕ → Statement
  refunds : ℕ → Statement

-- The row with the charges that are neither refunded nor of an earlier day.
pub record Account : Type 0 where
  pub grant : Grant
  pub charged : ℕ → ℕ

module _ (max : ℕ) where
  abbrev bump : ℕ → Bool → (ℕ → ℕ) → ℕ → ℕ
  bump day done c w = if done && day == w then suc (c w) else c w

  abbrev drop : ℕ → (ℕ → ℕ) → ℕ → ℕ
  drop day c w = if day == w then c w - 1 else c w

  -- One statement; `charged` counts, for each day, the charges that were told to have been consumed, less
  -- those that were refunded.
  unfoldable pub execute : Statement → Account → Account
  unfolding reset_window increment_used refund_daily_budget
  execute (resets seen today) a =
      let (done, g) = reset_window seen today a.grant in
      record { grant = g; charged = bump today done a.charged }
  execute (increments today) a =
      let (done, g) = increment_used today max a.grant in
      record { grant = g; charged = bump today done a.charged }
  execute (refunds window) a = record {
    grant = refund_daily_budget window a.grant;
    charged = drop window a.charged;
  }

  abbrev pub execute_all : List Statement → Account → Account
  execute_all [] a = a
  execute_all (s ∷ ss) a = execute_all ss (execute s a)

-- The day of a statement that charges.
abbrev pub day_of : Statement → ℕ → ℕ
day_of (resets seen today) day = today
day_of (increments today) day = today
day_of (refunds window) day = day

-- The code tries the reset only if the window that it has seen is not the day.
abbrev pub IsIssued : Statement → Type 0
IsIssued (resets seen today) = is_id seen today ≡ false
IsIssued _ = Unit

-- Days do not go back: each charge is of the day of the charge before it, or of a later one.
abbrev pub AreInOrder : ℕ → List Statement → Type 0
AreInOrder day [] = Unit
AreInOrder day (s ∷ ss) = IsIssued s × (day ≤ day_of s day) × AreInOrder (day_of s day) ss
