-- ===== src/Grants.antt =====
-- srv/utils/agent-grants.ts: scoped, budgeted tokens for agents. A grant's row, the checks of its input,
-- and the statements that issue, revoke, rotate and edit it. Texts, timestamps and UTC days are numbers;
-- the JSON columns are lists (`parseGrantList` is JSON). The services' handlers are not modelled.
pub mod Tokens
pub mod Instances
pub mod Revocation
pub mod Uncommitted
pub mod Budget
pub mod Spending
pub mod Enforcement
pub mod Admission
pub mod Propriety
mod Tests
use odatano.Base.{
  ℕ, ◌+◌, Bool, true, false, Option, none, some, List, [], ◌∷◌, ◌&&◌, ◌||◌, not, any, all, keep,
  ltb, leb, length, is_some, ◌==◌, if◌then◌else◌,
}
use odatano.Base.Table.{select_one, update_where, affected}
use odatano.Jobs.{JobKind, kind_eq}

-- The events of the services, as far as the code tells them apart.
pub data AgentEvent : Type 0 where
  build_simple_ada_transaction build_transaction_with_metadata build_multi_asset_transaction :
      AgentEvent
  build_mint_transaction build_plutus_spend_transaction build_plutus_transaction : AgentEvent
  set_collateral create_signing_request verify_signature submit_transaction : AgentEvent
  submit_signed_transaction submit_verified_transaction check_submission_status : AgentEvent
  submit_wallet_job cancel_job : AgentEvent
  get_grant_usage : AgentEvent
  -- the other events of `AGENT_ALWAYS_ALLOWED_EVENTS`, and those on neither list
  always_allowed_event unlisted_event : ℕ → AgentEvent

-- `AGENT_ALLOWLISTABLE_ACTIONS`, each by its place on the list
abbrev pub place_of : AgentEvent → Option ℕ
place_of build_simple_ada_transaction = some 0
place_of build_transaction_with_metadata = some 1
place_of build_multi_asset_transaction = some 2
place_of build_mint_transaction = some 3
place_of build_plutus_spend_transaction = some 4
place_of build_plutus_transaction = some 5
place_of set_collateral = some 6
place_of create_signing_request = some 7
place_of verify_signature = some 8
place_of submit_transaction = some 9
place_of submit_signed_transaction = some 10
place_of submit_verified_transaction = some 11
place_of check_submission_status = some 12
place_of submit_wallet_job = some 13
place_of cancel_job = some 14
place_of _ = none

abbrev pub is_allowlistable : AgentEvent → Bool
is_allowlistable e = is_some (place_of e)

-- `AGENT_ALWAYS_ALLOWED_EVENTS`
abbrev pub is_always_allowed : AgentEvent → Bool
is_always_allowed get_grant_usage = true
is_always_allowed (always_allowed_event n) = true
is_always_allowed _ = false

-- `AGENT_WALLET_ACTIONS`
abbrev pub is_wallet_action : AgentEvent → Bool
is_wallet_action submit_wallet_job = true
is_wallet_action cancel_job = true
is_wallet_action _ = false

abbrev same_place : Option ℕ → Option ℕ → Bool
same_place (some m) (some n) = m == n
same_place _ _ = false

-- Equality of the names of two events, as it is used on allow-listable actions.
abbrev pub event_eq : AgentEvent → AgentEvent → Bool
event_eq (always_allowed_event m) (always_allowed_event n) = m == n
event_eq (unlisted_event m) (unlisted_event n) = m == n
event_eq get_grant_usage get_grant_usage = true
event_eq a b = same_place (place_of a) (place_of b)

pub data KindName : Type 0 where
  known_kind : JobKind → KindName
  unknown_kind : ℕ → KindName

pub record Grant : Type 0 where
  pub id : ℕ
  pub user_id : ℕ
  pub agent_label : Option ℕ
  pub token_hash : ℕ
  pub allowed_actions : List AgentEvent
  pub wallet_id : Option ℕ
  pub allowed_job_kinds : List KindName
  pub max_jobs_per_day : Option ℕ
  pub jobs_used_today : ℕ
  pub budget_window : Option ℕ
  pub valid_until : Option ℕ
  pub is_active : Bool
  pub revoked_at : Option ℕ
  pub created_at : ℕ
  pub last_used_at : Option ℕ

abbrev pub is_expired : Grant → ℕ → Bool
is_expired g now = elim g.valid_until [ none ↦ false | some t ↦ ltb t now ]

-- The input of `validateGrantInput`; `maxJobsPerDay` is a natural number if it is given.
pub record GrantInput : Type 0 where
  pub allowed_actions : Option (List AgentEvent)
  pub wallet_id : Option ℕ
  pub allowed_job_kinds : Option (List KindName)
  pub max_jobs_per_day : Option ℕ
  pub valid_until : Option ℕ
  pub agent_label : Option ℕ

pub record NormalizedInput : Type 0 where
  pub actions : List AgentEvent
  pub wallet : Option ℕ
  pub job_kinds : List KindName
  pub max_jobs : Option ℕ
  pub until : Option ℕ
  pub label : Option ℕ

-- The field that an `AgentGrantInputError` names.
pub data InputField : Type 0 where
  -- the last is for an error that names no field
  actions_field wallet_field job_kinds_field max_jobs_field valid_until_field label_field no_field :
      InputField

pub data Checked (A : Type 0) : Type 0 where
  valid : A → Checked A
  refused : InputField → Checked A

infixl 5 ◌>>=◌
abbrev pub ◌>>=◌ : {A B : Type 0} → Checked A → (A → Checked B) → Checked B
valid a >>= f = f a
refused e >>= f = refused e

abbrev pub is_known_kind : KindName → Bool
is_known_kind (known_kind k) = true
is_known_kind (unknown_kind n) = false

abbrev pub kind_name_eq : KindName → KindName → Bool
kind_name_eq (known_kind j) (known_kind k) = kind_eq j k
kind_name_eq (unknown_kind m) (unknown_kind n) = m == n
kind_name_eq _ _ = false

-- `[...new Set(xs)]`
abbrev pub distinct {ℓ} : {A : Type ℓ} → (A → A → Bool) → List A → List A
distinct eq [] = []
distinct eq (x ∷ xs) = x ∷ keep (λ y. not (eq y x)) (distinct eq xs)

abbrev pub has_any {ℓ} : {A : Type ℓ} → List A → Bool
has_any [] = false
has_any (x ∷ xs) = true

-- `trimmed` gives the text without outer spaces, if any is left, and `width` its length.
module _ (trimmed : ℕ → Option ℕ) (width : ℕ → ℕ) where
  abbrev pub trim_text : Option ℕ → Option ℕ
  trim_text none = none
  trim_text (some t) = trimmed t

  abbrev pub is_wider : ℕ → Option ℕ → Bool
  is_wider n none = false
  is_wider n (some t) = ltb n (width t)

  abbrev pub check_actions : Option (List AgentEvent) → Checked (List AgentEvent)
  check_actions none = refused actions_field
  check_actions (some actions) =
      if not (has_any actions) || not (all is_allowlistable actions)
      then refused actions_field
      else valid (distinct event_eq actions)

  abbrev pub check_wallet : Bool → Option ℕ → Checked (Option ℕ)
  check_wallet wants wallet =
      if (wants && not (is_some wallet)) || is_wider 50 wallet
      then refused wallet_field
      else valid wallet

  abbrev pub check_kinds : Bool → Option (List KindName) → Checked (List KindName)
  check_kinds wants none = valid []
  check_kinds wants (some ks) =
      if not (all is_known_kind ks) || (has_any ks && not wants)
      then refused job_kinds_field
      else valid (distinct kind_name_eq ks)

  abbrev pub check_max : Option ℕ → Checked (Option ℕ)
  check_max none = valid none
  check_max (some n) = if ltb n 1 then refused max_jobs_field else valid (some n)

  abbrev pub check_until : ℕ → Option ℕ → Checked (Option ℕ)
  check_until now none = valid none
  check_until now (some t) = if leb t now then refused valid_until_field else valid (some t)

  abbrev pub check_label : Option ℕ → Checked (Option ℕ)
  check_label label = if is_wider 100 label then refused label_field else valid label

  -- `validateGrantInput`
  unfoldable pub validate_grant_input : GrantInput → ℕ → Checked NormalizedInput
  validate_grant_input input now = do
    actions ← check_actions input.allowed_actions
    wallet ← check_wallet (any is_wallet_action actions) (trim_text input.wallet_id)
    job_kinds ← check_kinds (any is_wallet_action actions) input.allowed_job_kinds
    max_jobs ← check_max input.max_jobs_per_day
    until ← check_until now input.valid_until
    label ← check_label (trim_text input.agent_label)
    valid (record {
      actions = actions;
      wallet = wallet;
      job_kinds = job_kinds;
      max_jobs = max_jobs;
      until = until;
      label = label;
    })

  -- The row of a new grant.
  abbrev pub new_grant : ℕ → ℕ → ℕ → ℕ → NormalizedInput → Grant
  new_grant id operator hash now n = record {
    id = id;
    user_id = operator;
    agent_label = n.label;
    token_hash = hash;
    allowed_actions = n.actions;
    wallet_id = n.wallet;
    allowed_job_kinds = n.job_kinds;
    max_jobs_per_day = n.max_jobs;
    jobs_used_today = 0;
    budget_window = none;
    valid_until = n.until;
    is_active = true;
    revoked_at = none;
    created_at = now;
    last_used_at = none;
  }

  -- `issueAgentGrant`, with the random ID and the hash of the random token; no operator stands for an
  -- empty operator ID
  unfoldable pub issue_agent_grant :
      GrantInput → Option ℕ → ℕ → ℕ → ℕ → List Grant → Checked (List Grant)
  unfolding validate_grant_input
  issue_agent_grant input none id hash now gs = refused no_field
  issue_agent_grant input (some operator) id hash now gs = do
    n ← validate_grant_input input now
    valid (new_grant id operator hash now n ∷ gs)

abbrev pub is_live_grant : ℕ → Grant → Bool
is_live_grant id g = g.id == id && g.is_active

-- The UPDATE of `revokeAgentGrantById`, with the number of affected rows
unfoldable pub revoke_agent_grant : ℕ → ℕ → List Grant → ℕ × List Grant
revoke_agent_grant id now gs = (
  affected (is_live_grant id) gs,
  update_where (is_live_grant id) (λ g. record g { is_active = false; revoked_at = some now }) gs,
)

-- The UPDATE of `rotateAgentGrantToken`
unfoldable pub rotate_agent_grant : ℕ → ℕ → List Grant → ℕ × List Grant
rotate_agent_grant id hash gs = (
  affected (is_live_grant id) gs,
  update_where (is_live_grant id) (λ g. record g { token_hash = hash }) gs,
)

-- A field of an edit: absent, cleared or given.
pub data Edit (A : Type 0) : Type 0 where
  untouched cleared : Edit A
  given : A → Edit A

-- `has(k) ? input[k] : existing[k]`
abbrev pub edited : {A : Type 0} → Edit A → Option A → Option A
edited untouched a = a
edited cleared a = none
edited (given b) a = some b

abbrev pub is_given : {A : Type 0} → Edit A → Bool
is_given untouched = false
is_given cleared = true
is_given (given a) = true

pub record GrantEdit : Type 0 where
  pub label_edit : Edit ℕ
  pub actions_edit : Edit (List AgentEvent)
  pub kinds_edit : Edit (List KindName)
  pub max_edit : Edit ℕ
  pub until_edit : Edit ℕ

pub data UpdateResult : Type 0 where
  updated unknown_grant revoked_grant : UpdateResult
  invalid_input : InputField → UpdateResult

abbrev pub new_if : {A : Type 0} → Bool → A → A → A
new_if b new old = if b then new else old

-- The columns of the edited fields.
abbrev pub patched : GrantEdit → NormalizedInput → Grant → Grant
patched e n g = record g {
  agent_label = new_if (is_given e.label_edit) n.label g.agent_label;
  allowed_actions = new_if (is_given e.actions_edit) n.actions g.allowed_actions;
  allowed_job_kinds = new_if (is_given e.kinds_edit) n.job_kinds g.allowed_job_kinds;
  max_jobs_per_day = new_if (is_given e.max_edit) n.max_jobs g.max_jobs_per_day;
  valid_until = new_if (is_given e.until_edit) n.until g.valid_until;
}

abbrev pub edits_any : GrantEdit → Bool
edits_any e =
    is_given e.label_edit
    || is_given e.actions_edit
    || is_given e.kinds_edit
    || is_given e.max_edit
    || is_given e.until_edit

abbrev pub input_of : GrantEdit → Grant → GrantInput
input_of e g = record {
  allowed_actions = edited e.actions_edit (some g.allowed_actions);
  wallet_id = g.wallet_id;
  allowed_job_kinds = edited e.kinds_edit (some g.allowed_job_kinds);
  max_jobs_per_day = edited e.max_edit g.max_jobs_per_day;
  valid_until = edited e.until_edit none;
  agent_label = edited e.label_edit g.agent_label;
}

-- The UPDATE is conditional on `isActive`, so that a revocation meanwhile wins.
abbrev pub write_edit :
    ℕ → GrantEdit → Checked NormalizedInput → List Grant → UpdateResult × List Grant
write_edit id e (refused field) gs = (invalid_input field, gs)
write_edit id e (valid n) gs = if not (edits_any e) then (updated, gs) else (
  if ltb 0 (affected (is_live_grant id) gs) then updated else revoked_grant,
  update_where (is_live_grant id) (patched e n) gs,
)

module _ (trimmed : ℕ → Option ℕ) (width : ℕ → ℕ) where
  abbrev pub edit_found : ℕ → GrantEdit → ℕ → Option Grant → List Grant → UpdateResult × List Grant
  edit_found id e now none gs = (unknown_grant, gs)
  edit_found id e now (some g) gs =
      if not g.is_active
      then (revoked_grant, gs)
      else write_edit id e (validate_grant_input trimmed width (input_of e g) now) gs

  -- `updateAgentGrant`; `seen` is the row that its SELECT has read.
  unfoldable pub update_agent_grant :
      ℕ → GrantEdit → ℕ → Option Grant → List Grant → UpdateResult × List Grant
  unfolding validate_grant_input
  update_agent_grant id e now seen gs = edit_found id e now seen gs
