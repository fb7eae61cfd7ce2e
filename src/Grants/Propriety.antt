-- ===== src/Grants/Propriety.antt =====
-- What the input checks promise of a grant, for its issue and for every edit.
use odatano.Base.{
  ℕ, ◌≤◌, ◌≡◌, refl, sym, subst, Bool, true, false, Option, none, some, List, [], ◌∷◌, ◌&&◌, ◌||◌,
  not, any, all, keep, is_some, ltb, ◌==◌, arith, All, if_ind, if◌then◌else◌,
}
use odatano.Base.Table.{update_where, All-update_where}
use odatano.Grants.{
  AgentEvent, is_allowlistable, is_wallet_action, event_eq, Grant, GrantInput, NormalizedInput,
  Checked, valid, refused, wallet_field, max_jobs_field, is_wider, ◌>>=◌, distinct, has_any,
  trim_text, check_actions, check_wallet, check_kinds, check_max, check_until, check_label,
  validate_grant_input, issue_agent_grant, revoke_agent_grant, rotate_agent_grant, is_live_grant,
  is_given, GrantEdit, patched, edits_any, input_of, write_edit, update_agent_grant, UpdateResult,
}

-- The actions are some and all grantable, those that spend from a wallet have one, and a budget is
-- positive.
abbrev pub IsProperWith : List AgentEvent → Option ℕ → Option ℕ → Type 0
IsProperWith actions wallet max =
    (has_any actions ≡ true)
    × (all is_allowlistable actions ≡ true)
    × (any is_wallet_action actions ≡ true → is_some wallet ≡ true)
    × ((n : ℕ) → max ≡ some n → 1 ≤ n)

abbrev pub IsProper : Grant → Type 0
IsProper g = IsProperWith g.allowed_actions g.wallet_id g.max_jobs_per_day

abbrev OnValid : {A : Type 0} → (A → Type 0) → Checked A → Type 0
OnValid P (valid a) = P a
OnValid P (refused field) = Unit

then_valid :
    {A B : Type 0} (P : A → Type 0) (Q : B → Type 0) (m : Checked A) (f : A → Checked B)
    → OnValid P m
    → ((a : A) → P a → OnValid Q (f a))
    → OnValid Q (m >>= f)
then_valid P Q (valid a) f h k = k a h
then_valid P Q (refused field) f h k = tt

all-keep :
    (p q : AgentEvent → Bool) (xs : List AgentEvent) → all p xs ≡ true → all p (keep q xs) ≡ true
all-keep p q [] h = refl
all-keep p q (x ∷ xs) h = ground (arith, all-keep p q xs)

all-distinct :
    (p : AgentEvent → Bool) (xs : List AgentEvent)
    → all p xs ≡ true
    → all p (distinct event_eq xs) ≡ true
all-distinct p [] h = refl
all-distinct p (x ∷ xs) h =
    ground
      (arith, h, all-keep p (λ y. not (event_eq y x)) (distinct event_eq xs), all-distinct p xs)

has_any-distinct :
    (xs : List AgentEvent) → has_any xs ≡ true → has_any (distinct event_eq xs) ≡ true
has_any-distinct [] h = h
has_any-distinct (x ∷ xs) h = refl

module _ (trimmed : ℕ → Option ℕ) (width : ℕ → ℕ) where
  abbrev AreGrantable : List AgentEvent → Type 0
  AreGrantable actions = (has_any actions ≡ true) × (all is_allowlistable actions ≡ true)

  check_actions_lem :
      (o : Option (List AgentEvent)) → OnValid AreGrantable (check_actions trimmed width o)
  check_actions_lem none = tt
  check_actions_lem (some xs) =
      if_ind (OnValid AreGrantable) (not (has_any xs) || not (all is_allowlistable xs)) (λ e. tt)
        (λ e. (
          has_any-distinct xs (ground (arith, e)),
          all-distinct is_allowlistable xs (ground (arith, e)),
        ))

  abbrev IsBound : Bool → Option ℕ → Option ℕ → Type 0
  IsBound wants w v = (v ≡ w) × (wants ≡ true → is_some w ≡ true)

  check_wallet_lem :
      (wants : Bool) (w : Option ℕ) → OnValid (IsBound wants w) (check_wallet trimmed width wants w)
  check_wallet_lem wants w =
      if_ind (OnValid (IsBound wants w)) (wants && not (is_some w) || is_wider trimmed width 50 w)
        {x = refused wallet_field} {y = valid w} (λ e. tt)
        (λ e. (refl, λ needs. ground (arith, e, needs)))

  abbrev IsPositive : Option ℕ → Type 0
  IsPositive m = (n : ℕ) → m ≡ some n → 1 ≤ n

  check_max_lem : (o : Option ℕ) → OnValid IsPositive (check_max trimmed width o)
  check_max_lem none = λ n e. ground arith
  check_max_lem (some k) =
      if_ind (OnValid IsPositive) (ltb k 1) {x = refused max_jobs_field} {y = valid (some k)}
        (λ e. tt) (λ e n same. ground (arith, e, same))

  anything : {A : Type 0} (m : Checked A) → OnValid (λ a. Unit) m
  anything (valid a) = tt
  anything (refused field) = tt

  -- What is told of an input that passes.
  abbrev Passes : GrantInput → NormalizedInput → Type 0
  Passes input n =
      IsProperWith n.actions n.wallet n.max_jobs
      × (n.wallet ≡ trim_text trimmed width input.wallet_id)

  validate_lem :
      (input : GrantInput) (now : ℕ)
      → OnValid (Passes input) (validate_grant_input trimmed width input now)
  unfolding validate_grant_input
  validate_lem input now =
      then_valid AreGrantable (Passes input) (check_actions trimmed width input.allowed_actions) _
        (check_actions_lem input.allowed_actions)
        (λ actions grantable.
          then_valid
            (IsBound (any is_wallet_action actions) (trim_text trimmed width input.wallet_id))
            (Passes input) _ _
            (check_wallet_lem (any is_wallet_action actions)
              (trim_text trimmed width input.wallet_id))
            (λ wallet bound.
              then_valid (λ a. Unit) (Passes input)
                (check_kinds trimmed width (any is_wallet_action actions) input.allowed_job_kinds) _
                (anything (
                  check_kinds trimmed width (any is_wallet_action actions) input.allowed_job_kinds))
                (λ kinds x.
                  then_valid IsPositive (Passes input) _ _ (check_max_lem input.max_jobs_per_day)
                    (λ max positive.
                      then_valid (λ a. Unit) (Passes input)
                        (check_until trimmed width now input.valid_until) _
                        (anything (check_until trimmed width now input.valid_until))
                        (λ until x.
                          then_valid (λ a. Unit) (Passes input)
                            (check_label trimmed width (trim_text trimmed width input.agent_label))
                            _
                            (anything (
                              check_label trimmed width
                                (trim_text trimmed width input.agent_label)))
                            (λ label x. (
                              (
                                grantable.0,
                                grantable.1,
                                (λ needs.
                                    subst (λ w. is_some w ≡ true) (sym bound.0) (bound.1 needs)),
                                positive,
                              ),
                              bound.0,
                            )))))))

  trim_lem : (w : Option ℕ) → is_some (trim_text trimmed width w) ≡ true → is_some w ≡ true
  trim_lem none e = e
  trim_lem (some t) e = refl

  patched_lem :
      (e : GrantEdit) (n : NormalizedInput) (g : Grant)
      → Passes (input_of e g) n
      → IsProper g
      → IsProper (patched e n g)
  patched_lem e n g (fit, same) h =
      let bound : any is_wallet_action n.actions ≡ true → is_some g.wallet_id ≡ true =
        λ needs. trim_lem g.wallet_id (subst (λ w. is_some w ≡ true) same (fit.2 needs)) in
      let P : List AgentEvent → Type 0 = λ actions.
        (has_any actions ≡ true)
        × (all is_allowlistable actions ≡ true)
        × (any is_wallet_action actions ≡ true → is_some g.wallet_id ≡ true) in
      let actions : P (if is_given e.actions_edit then n.actions else g.allowed_actions) =
        if_ind P (is_given e.actions_edit) (λ x. (fit.0, fit.1, bound)) (λ x. (h.0, h.1, h.2)) in
      (
        actions.0,
        actions.1,
        actions.2,
        if_ind IsPositive (is_given e.max_edit) {x = n.max_jobs} {y = g.max_jobs_per_day}
            (λ x. fit.3) (λ x. h.3),
      )

  written :
      (id : ℕ) (e : GrantEdit) (g : Grant) (gs : List Grant)
      → All (λ r. (r.id == id) ≡ true → r ≡ g) gs
      → All IsProper gs
      → (c : Checked NormalizedInput) → OnValid (Passes (input_of e g)) c
      → All IsProper (write_edit id e c gs).1
  written id e g gs one h (refused field) k = h
  written id e g gs one h (valid n) k =
      if_ind (λ (p : UpdateResult × List Grant). All IsProper p.1) (not (edits_any e)) (λ x. h)
        (λ x. rows gs one h)
    where
      rows :
          (gs : List Grant)
          → All (λ r. (r.id == id) ≡ true → r ≡ g) gs
          → All IsProper gs
          → All IsProper (update_where (is_live_grant id) (patched e n) gs)
      rows [] one h = tt
      rows (r ∷ rs) one h = (
        if_ind IsProper (is_live_grant id r)
            (λ live.
              let at : r ≡ g = one.0 (ground (arith, live)) in
              patched_lem e n r (subst (λ g. Passes (input_of e g) n) (sym at) k) h.0)
            (λ x. h.0),
        rows rs one.1 h.1,
      )

  -- Grants stay proper: from a table whose grants have some actions, all grantable, a wallet if an action
  -- spends from one, and a positive budget if any, an issue and an edit give such a table again, for any
  -- input and any edit of a row that is the only one with its ID, and so do a revocation and a rotation.
  pub IsProper-update_agent_grant :
      (gs : List Grant) (input : GrantInput) (operator : Option ℕ) (id hash now : ℕ) (e : GrantEdit)
      (g : Grant)
      → All IsProper gs
      → All (λ r. (r.id == g.id) ≡ true → r ≡ g) gs
      → ((hs : List Grant)
          → issue_agent_grant trimmed width input operator id hash now gs ≡ valid hs
          → All IsProper hs)
        × All IsProper (update_agent_grant trimmed width g.id e now (some g) gs).1
        × All IsProper (revoke_agent_grant id now gs).1
        × All IsProper (rotate_agent_grant id hash gs).1
  unfolding issue_agent_grant update_agent_grant revoke_agent_grant rotate_agent_grant
  IsProper-update_agent_grant gs input operator id hash now e g h one = (
    λ hs told. subst (OnValid (All IsProper)) told (issued operator),
    if_ind (λ (p : UpdateResult × List Grant). All IsProper p.1) (not g.is_active) (λ x. h)
        (λ x.
          written g.id e g gs one h (validate_grant_input trimmed width (input_of e g) now)
            (validate_lem (input_of e g) now)),
    All-update_where IsProper (is_live_grant id)
        (λ g. record g { is_active = false; revoked_at = some now }) (λ r x k. k) gs h,
    All-update_where IsProper (is_live_grant id) (λ g. record g { token_hash = hash }) (λ r x k. k)
        gs h,
  )
    where
      issued :
          (o : Option ℕ)
          → OnValid (All IsProper) (issue_agent_grant trimmed width input o id hash now gs)
      issued none = tt
      issued (some by) =
          then_valid (Passes input) (All IsProper) (validate_grant_input trimmed width input now) _
            (validate_lem input now) (λ n fit. (fit.0, h))
