-- ===== src/Grants/Enforcement.antt =====
-- srv/utils/agent-grants.ts: the hook before every event of a service. The usage counters and the time of
-- the last use, which no check reads, are not modelled; the refund of a refused request is
-- `refund_daily_budget` of Budget.antt. What an admitted request has is in Admission.antt.
use odatano.Base.{ℕ, Bool, false, Option, none, some, ◌||◌, not, any, is_id, ◌==◌, if◌then◌else◌}
use odatano.Grants.{
  AgentEvent, submit_wallet_job, cancel_job, get_grant_usage, KindName, Grant, is_always_allowed,
  event_eq, kind_name_eq, is_expired, has_any,
}
use odatano.Grants.Budget.{consume_daily_budget}

-- What the checks read of a request's data: the `walletId` if it is a non-empty one, the `kind`, and the
-- `grantId` if it is a non-empty one.
pub record CallData : Type 0 where
  pub wallet : Option ℕ
  pub kind : KindName
  pub asked : Option ℕ

-- A request of an agent: its event, and its data if they are an object.
pub record Call : Type 0 where
  pub event : AgentEvent
  pub data_of : Option CallData

abbrev pub wallet_asked : Option CallData → Option ℕ
wallet_asked none = none
wallet_asked (some d) = d.wallet

abbrev pub grant_asked : Option CallData → Option ℕ
grant_asked none = none
grant_asked (some d) = d.asked

pub data Verdict : Type 0 where
  -- with the HTTP status
  rejected : ℕ → Verdict
  -- with the data's `walletId` as the handler sees it
  admitted : Option ℕ → Verdict

abbrev pub allows : Grant → AgentEvent → Bool
allows g e = any (λ a. event_eq a e) g.allowed_actions

abbrev pub kind_allowed : Grant → KindName → Bool
kind_allowed g k =
    not (has_any g.allowed_job_kinds) || any (λ j. kind_name_eq j k) g.allowed_job_kinds

-- `data.walletId !== undefined, null, ''` and not the grant's
abbrev pub is_foreign_wallet : Option ℕ → ℕ → Bool
is_foreign_wallet none own = false
is_foreign_wallet (some w) own = not (w == own)

-- Without data there is nothing to check and nothing to set.
abbrev pub bind_wallet : Grant → Option CallData → ℕ → Verdict
bind_wallet g none own = admitted none
bind_wallet g (some d) own =
    if is_foreign_wallet d.wallet own
    then rejected 403
    else if not (kind_allowed g d.kind)
    then rejected 403
    else admitted (some own)

abbrev pub check_binding : Grant → Call → AgentEvent → Option ℕ → Verdict
check_binding g c submit_wallet_job none = rejected 403
check_binding g c submit_wallet_job (some own) = bind_wallet g c.data_of own
check_binding g c cancel_job none = rejected 403
check_binding g c cancel_job (some own) = admitted (wallet_asked c.data_of)
check_binding g c _ own = admitted (wallet_asked c.data_of)

abbrev pub check_allowed : Grant → Call → Verdict
check_allowed g c =
    if not (allows g c.event) then rejected 403 else check_binding g c c.event g.wallet_id

abbrev pub check_always : Grant → Call → AgentEvent → Verdict
check_always g c get_grant_usage =
    if is_id (grant_asked c.data_of) g.id then admitted (wallet_asked c.data_of) else rejected 404
check_always g c _ = admitted (wallet_asked c.data_of)

-- `row` is the grant in the database, `between` what other requests do between the two UPDATEs.
abbrev pub after_charge : ℕ → Option ℕ → Bool × Grant → Verdict × Grant
after_charge max wallet (consumed, row) = (if consumed then admitted wallet else rejected 429, row)

abbrev pub charge_for : Grant → ℕ → (Grant → Grant) → Option ℕ → Option ℕ → Grant → Verdict × Grant
charge_for g today between none wallet row = (admitted wallet, row)
charge_for g today between (some max) wallet row =
    after_charge max wallet (consume_daily_budget g.budget_window today max between row)

abbrev pub charge : Grant → ℕ → (Grant → Grant) → Verdict → Grant → Verdict × Grant
charge g today between (rejected status) row = (rejected status, row)
charge g today between (admitted wallet) row =
    charge_for g today between g.max_jobs_per_day wallet row

-- `enforceAgentGrant`, for a request under the grant `g`
unfoldable pub enforce_agent_grant :
    Grant → Call → ℕ → ℕ → (Grant → Grant) → Grant → Verdict × Grant
unfolding consume_daily_budget
enforce_agent_grant g c now today between row =
    if not g.is_active
    then (rejected 401, row)
    else if is_expired g now
    then (rejected 410, row)
    else if is_always_allowed c.event
    then (check_always g c c.event, row)
    else charge g today between (check_allowed g c) row
