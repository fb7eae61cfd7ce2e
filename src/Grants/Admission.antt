-- ===== src/Grants/Admission.antt =====
-- What a request has that the hook of Enforcement.antt admits: the grant permits it, and it is paid for.
use odatano.Base.{
  ℕ, suc, ◌<◌, ◌≡◌, ◌⊎◌, Bool, true, false, Option, none, some, is_some, is_id, arith,
  if◌then◌else◌,
}
use odatano.Grants.{
  AgentEvent, submit_wallet_job, get_grant_usage, Grant, is_always_allowed, is_wallet_action,
  is_expired,
}
use odatano.Grants.Enforcement.{
  CallData, Call, grant_asked, Verdict, admitted, allows, kind_allowed,
}

abbrev pub is_submit_job : AgentEvent → Bool
is_submit_job submit_wallet_job = true
is_submit_job _ = false

abbrev pub is_usage : AgentEvent → Bool
is_usage get_grant_usage = true
is_usage _ = false

-- What a grant permits; `wallet` is the `walletId` that the handler sees.
abbrev pub IsPermitted : Grant → Call → ℕ → Option ℕ → Type 0
IsPermitted g c now wallet =
    (g.is_active ≡ true)
    × (is_expired g now ≡ false)
    × (((is_always_allowed c.event ≡ true)
          × (is_usage c.event ≡ true → is_id (grant_asked c.data_of) g.id ≡ true))
        ⊎ ((allows g c.event ≡ true)
            × (is_wallet_action c.event ≡ true → is_some g.wallet_id ≡ true)
            × (is_submit_job c.event ≡ true
                → (d : CallData) → c.data_of ≡ some d
                → (wallet ≡ g.wallet_id) × (kind_allowed g d.kind ≡ true))))

some_injective : (m n : ℕ) → some m ≡ some n → m ≡ n
some_injective m n h = ground arith

-- The grant's row after the charge is the row with one unit more. `between` is what others do between the
-- two UPDATEs.
abbrev pub HasPaid : Grant → ℕ → (Grant → Grant) → Grant → Option ℕ → Grant → Type 0
HasPaid g today between row none after = after ≡ row
HasPaid g today between row (some max) after =
    ((is_id g.budget_window today ≡ false)
      × (row.budget_window ≡ g.budget_window)
      × (after ≡ record row { budget_window = some today; jobs_used_today = 1 }))
    ⊎ ((q : Grant) × (q ≡ (if is_id g.budget_window today then row else between row))
        × (q.budget_window ≡ some today)
        × (q.jobs_used_today < max)
        × (after ≡ record q { jobs_used_today = suc q.jobs_used_today }))

abbrev pub IsCharged : Grant → Call → ℕ → (Grant → Grant) → Grant → Grant → Type 0
IsCharged g c today between row after =
    (is_always_allowed c.event ≡ true → after ≡ row)
    × (is_always_allowed c.event ≡ false → HasPaid g today between row g.max_jobs_per_day after)

module _ (g : Grant) (c : Call) (now today : ℕ) (between : Grant → Grant) (row : Grant)
    (wallet : Option ℕ) where
  abbrev Leads : Verdict × Grant → Type 0
  Leads p = p.0 ≡ admitted wallet → IsPermitted g c now wallet × IsCharged g c today between row p.1
