-- ===== src/Access/Totals.antt =====
-- What the metrics of an Agent say of its audit log.
use hermes_agent_platform.Base.{
  ℕ, ◌+◌, ◌≡◌, refl, ◌∙◌, ◌⊎◌, Bool, ◌&&◌, none, some, List, [], ◌∷◌, ◌++◌, String, ◌==◌,
  if◌then◌else◌, All, arith, nat_eq, string_eq, option_eq, count, count-append, Bool-cases,
  Option-cases, inl, inr,
}
use hermes_agent_platform.Base.Outcome.{ok}
use hermes_agent_platform.Access.Usage.{
  AuditLog, AgentMetric, Usage, is_success, one_if, new_metric, added_metric, is_metric, add_metric,
  record_public_call,
}

-- The sum of a column over an Agent's rows.
abbrev pub total : (AgentMetric → ℕ) → String → List AgentMetric → ℕ
total f agent_id [] = 0
total f agent_id (x ∷ xs) = (if x.agent_id == agent_id then f x else 0) + total f agent_id xs

abbrev pub is_call : String → AuditLog → Bool
is_call agent_id a = a.agent_id == some agent_id

abbrev pub is_good_call : String → AuditLog → Bool
is_good_call agent_id a = a.agent_id == some agent_id && is_success a.status

-- The metrics of every Agent, over all days, add up to its audit log, and in each row the calls are
-- those that succeeded and those that failed.
pub record IsBalanced (u : Usage) : Type 0 where
  pub calls : (i : String) → total (λ x. x.call_count) i u.metrics ≡ count (is_call i) u.audit_logs
  pub successes :
      (i : String) → total (λ x. x.success_count) i u.metrics ≡ count (is_good_call i) u.audit_logs
  pub split : All (λ (x : AgentMetric). x.call_count ≡ x.success_count + x.failure_count) u.metrics

total-add :
    (f : AgentMetric → ℕ) (n : ℕ) (i j : String) (today : ℕ) (a : AuditLog) (xs : List AgentMetric)
    → f (new_metric i today a) ≡ n
    → ((x : AgentMetric) → f (added_metric a x) ≡ f x + n)
    → total f j (add_metric i today a xs) ≡ total f j xs + (if i == j then n else 0)
unfolding add_metric
total-add f n i j today a [] e g = ground (arith, e)
total-add f n i j today a (x ∷ xs) e g = ground (arith, g x, total-add f n i j today a xs e g)

split-add :
    (i : String) (today : ℕ) (a : AuditLog) (xs : List AgentMetric)
    → All (λ (x : AgentMetric). x.call_count ≡ x.success_count + x.failure_count) xs
    → All
        (λ (x : AgentMetric). x.call_count ≡ x.success_count + x.failure_count)
        (add_metric i today a xs)
unfolding add_metric
split-add i today a [] h = (ground arith, tt)
split-add i today a (x ∷ xs) h = elim (Bool-cases (is_metric i today x)) [
  | inl e ↦ rw (e, add_metric) (ground (arith, h.0), h.1)
  | inr e ↦ rw (e, add_metric) (h.0, split-add i today a xs h.1)
]

counted :
    (p : AuditLog → Bool) (logs : List AuditLog) (a : AuditLog)
    → count p (logs ++ a ∷ []) ≡ count p logs + one_if (p a)
counted p logs a = ground (arith, count-append p logs (a ∷ []))

-- What a call that was recorded did to the rows.
recorded :
    (now today : ℕ) (increment : Bool) (a : AuditLog) (u u' : Usage)
    → record_public_call now today increment a u ≡ ok u'
    → (u'.audit_logs ≡ u.audit_logs ++ a ∷ [])
      × (((a.agent_id ≡ none) × (u'.metrics ≡ u.metrics))
          ⊎ ((i : String) × (a.agent_id ≡ some i) × (u'.metrics ≡ add_metric i today a u.metrics)))
unfolding record_public_call
recorded now today increment a u u' h = elim (Option-cases a.agent_id) [
  | inl n ↦ (ground (arith, n, h), inl (n, ground (arith, n, h)))
  | inr (i, n) ↦ (ground (arith, n, h), inr (i, n, ground (arith, n, h)))
]

-- A call that is recorded keeps the books balanced: the metrics of each Agent add up to its audit
-- log, in calls and in successes, and in each row the calls are the successes and the failures.
pub record_public_call-IsBalanced :
    (now today : ℕ) (increment : Bool) (a : AuditLog) (u u' : Usage)
    → record_public_call now today increment a u ≡ ok u'
    → IsBalanced u
    → IsBalanced u'
record_public_call-IsBalanced now today increment a u u' h b =
    let (logs, rows) = recorded now today increment a u u' h in
    elim rows [
      | inl (n, same) ↦ record {
        calls = λ j.
            rw (logs, same) (b.calls j ∙ ground (arith, n, counted (is_call j) u.audit_logs a));
        successes = λ j.
            rw (logs, same)
              (b.successes j ∙ ground (arith, n, counted (is_good_call j) u.audit_logs a));
        split = rw same b.split;
      }
      | inr (i, n, added) ↦ record {
        calls = λ j.
            rw (logs, added)
              (total-add (λ x. x.call_count) 1 i j today a u.metrics refl (λ x. refl)
                ∙ ground (arith, n, b.calls j, counted (is_call j) u.audit_logs a));
        successes = λ j.
            rw (logs, added)
              (total-add (λ x. x.success_count) (one_if (is_success a.status)) i j today a u.metrics
                  refl (λ x. refl)
                ∙ ground (arith, n, b.successes j, counted (is_good_call j) u.audit_logs a));
        split = rw added (split-add i today a u.metrics b.split);
      }
    ]
