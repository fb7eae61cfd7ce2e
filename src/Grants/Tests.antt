-- ===== src/Grants/Tests.antt =====
-- A grant at work, and the theorems at concrete inputs.
use odatano.Base.{ℕ, ◌≤◌, ◌≡◌, refl, true, Option, none, some, List, [], ◌∷◌, arith, All}
use odatano.Jobs.{simple_ada}
use odatano.Grants.{
  submit_wallet_job, submit_transaction, Grant, known_kind, revoke_agent_grant, rotate_agent_grant,
  issue_agent_grant, update_agent_grant, valid, GrantEdit, GrantInput, untouched, cleared, given,
}
use odatano.Grants.Propriety.{IsProper, IsProper-update_agent_grant}
use odatano.Grants.Budget.{Statement, resets, increments, refunds, execute_all}
use odatano.Grants.Spending.{charged_within_budget}
use odatano.Grants.Tokens.{accepted}
use odatano.Grants.Instances.{Instance, Step, begins, reads, ends, invalidates, steps}
use odatano.Grants.Revocation.{NotAccepted, revoked_token_is_refused}
use odatano.Grants.Uncommitted.{latest, early, serving, revoked_token_is_accepted}
use odatano.Grants.Enforcement.{Call}

abbrev grant : Grant
grant = record {
  id = 5;
  user_id = 1;
  agent_label = none;
  token_hash = 77;
  allowed_actions = submit_transaction ∷ submit_wallet_job ∷ [];
  wallet_id = some 3;
  allowed_job_kinds = known_kind simple_ada ∷ [];
  max_jobs_per_day = some 2;
  jobs_used_today = 0;
  budget_window = none;
  valid_until = some 900;
  is_active = true;
  revoked_at = none;
  created_at = 0;
  last_used_at = none;
}

-- Two requests race for the first charge of the day, a third is too many, and one is refunded.
abbrev requests : List Statement
requests =
    resets none 10
    ∷ resets none 10
    ∷ increments 10
    ∷ increments 10
    ∷ refunds 10
    ∷ increments 10
    ∷ resets (some 10) 11
    ∷ []

charged_within_budget_example :
    (execute_all 2 requests (record { grant = grant; charged = λ v. 0 })).charged 10 ≤ 2
charged_within_budget_example =
    charged_within_budget 2 (omega arith) grant requests 10 refl (ground arith) 10

abbrev busy : Instance
busy = record {
  table = (revoke_agent_grant 5 100 (grant ∷ [])).1;
  cache = record {
    tokens = record { hash = 77; grant = grant; until = 500 } ∷ [];
    hashes = (5, 77) ∷ [];
    current = 4;
  };
  flights = record { key = 77; generation = 4; row = some (some grant) } ∷ [];
  answered = [];
}

-- The lookup that was in flight ends, and two requests come.
abbrev after : List Step
after = ends 0 101 ∷ begins 77 102 ∷ reads 0 ∷ ends 0 103 ∷ begins 77 104 ∷ []

revoked_token_is_refused_example :
    All (λ p. 5 ≤ p.0 → NotAccepted 5 5 p.1) (steps 60 (invalidates 5 ∷ after) busy).answered
revoked_token_is_refused_example =
    revoked_token_is_refused 60 5 100 (grant ∷ []) busy after refl ((λ e. refl), tt)
      (omega arith, tt) refl (ground arith)

revoked_token_is_accepted_example :
    latest (steps 60 (early grant 100 130) (serving grant 4)) ≡ some (accepted grant)
revoked_token_is_accepted_example =
    revoked_token_is_accepted 60 100 130 4 grant refl refl refl (omega arith)

abbrev call : Call
call = record {
  event = submit_wallet_job;
  data_of = some (record { wallet = none; kind = known_kind simple_ada; asked = none });
}

-- The edit allows one action only, and clears the budget.
abbrev narrower : GrantEdit
narrower = record {
  label_edit = untouched;
  actions_edit = given (submit_transaction ∷ []);
  kinds_edit = cleared;
  max_edit = cleared;
  until_edit = untouched;
}

abbrev wish : GrantInput
wish = record {
  allowed_actions = some (submit_wallet_job ∷ []);
  wallet_id = some 4;
  allowed_job_kinds = none;
  max_jobs_per_day = some 1;
  valid_until = some 700;
  agent_label = none;
}

abbrev trim : ℕ → Option ℕ
trim t = some t

abbrev width : ℕ → ℕ
width t = t

grant-IsProper : All IsProper (grant ∷ [])
grant-IsProper = ((refl, refl, (λ e. refl), λ n e. ground arith), tt)

IsProper-update_agent_grant_example :
    ((hs : List Grant)
      → issue_agent_grant trim width wish (some 1) 6 88 50 (grant ∷ []) ≡ valid hs
      → All IsProper hs)
    × All IsProper (update_agent_grant trim width 5 narrower 50 (some grant) (grant ∷ [])).1
    × All IsProper (revoke_agent_grant 6 50 (grant ∷ [])).1
    × All IsProper (rotate_agent_grant 6 88 (grant ∷ [])).1
IsProper-update_agent_grant_example =
    IsProper-update_agent_grant trim width (grant ∷ []) wish (some 1) 6 88 50 narrower grant
      grant-IsProper ((λ e. refl), tt)
