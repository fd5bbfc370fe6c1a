-- ===== src/Access/Usage.antt =====
-- The record of public calls: `record_public_call` of backend/app/repositories/production.py, with
-- `AuditLog` and `AgentMetric` of backend/app/db/models.py. A latency or a count that is negative is
-- taken as 0, as the code does, so they are natural numbers here.
use hermes_agent_platform.Base.{
  ℕ, ◌+◌, Bool, true, false, not, ◌&&◌, Option, none, some, List, [], ◌∷◌, ◌++◌, map, String, ◌==◌,
  if◌then◌else◌, nat_eq, string_eq,
}
use hermes_agent_platform.Base.Outcome.{Outcome, ok, raised}

pub data CallStatus : Type 0 where
  succeeded failed rejected : CallStatus

pub record AuditLog : Type 0 where
  pub request_id : String
  pub client_id : Option ℕ
  pub api_key_id : Option ℕ
  pub agent_id : Option String
  pub status : CallStatus
  pub latency_ms : ℕ
  pub token_usage : Option ℕ
  pub mcp_call_count : ℕ
  pub error_code : Option String

pub record AgentMetric : Type 0 where
  pub agent_id : String
  pub metric_date : ℕ
  pub call_count : ℕ
  pub success_count : ℕ
  pub failure_count : ℕ
  pub total_latency_ms : ℕ
  pub total_token_usage : ℕ
  pub token_usage_observed_count : ℕ
  pub mcp_call_count : ℕ

-- `AgentPublication.call_count`
pub record PublicationCalls : Type 0 where
  pub agent_id : String
  pub call_count : ℕ
  pub last_called_at : Option ℕ

pub record Usage : Type 0 where
  pub audit_logs : List AuditLog
  pub metrics : List AgentMetric
  pub publications : List PublicationCalls

abbrev pub is_success : CallStatus → Bool
is_success succeeded = true
is_success _ = false

abbrev pub one_if : Bool → ℕ
one_if true = 1
one_if false = 0

abbrev pub tokens : Option ℕ → ℕ
tokens none = 0
tokens (some n) = n

abbrev pub observed : Option ℕ → ℕ
observed none = 0
observed (some n) = 1

-- The row that is inserted.
abbrev pub new_metric : String → ℕ → AuditLog → AgentMetric
new_metric agent_id today a = record {
  agent_id = agent_id;
  metric_date = today;
  call_count = 1;
  success_count = one_if (is_success a.status);
  failure_count = one_if (not (is_success a.status));
  total_latency_ms = a.latency_ms;
  total_token_usage = tokens a.token_usage;
  token_usage_observed_count = observed a.token_usage;
  mcp_call_count = a.mcp_call_count;
}

-- `on_conflict_do_update`
abbrev pub added_metric : AuditLog → AgentMetric → AgentMetric
added_metric a x = record x {
  call_count = x.call_count + 1;
  success_count = x.success_count + one_if (is_success a.status);
  failure_count = x.failure_count + one_if (not (is_success a.status));
  total_latency_ms = x.total_latency_ms + a.latency_ms;
  total_token_usage = x.total_token_usage + tokens a.token_usage;
  token_usage_observed_count = x.token_usage_observed_count + observed a.token_usage;
  mcp_call_count = x.mcp_call_count + a.mcp_call_count;
}

abbrev pub is_metric : String → ℕ → AgentMetric → Bool
is_metric agent_id date x = x.agent_id == agent_id && x.metric_date == date

-- The insert with its conflict on `uq_agent_metrics_agent_date`.
unfoldable pub add_metric : String → ℕ → AuditLog → List AgentMetric → List AgentMetric
add_metric agent_id today a [] = new_metric agent_id today a ∷ []
add_metric agent_id today a (x ∷ xs) =
    let rest = add_metric agent_id today a xs in
    if is_metric agent_id today x then added_metric a x ∷ xs else x ∷ rest

unfoldable pub count_publication : ℕ → String → List PublicationCalls → List PublicationCalls
count_publication now agent_id = map (λ (p : PublicationCalls).
    if p.agent_id == agent_id
    then record p { call_count = p.call_count + 1; last_called_at = some now }
    else p)

pub data UsageError : Type 0 where
  not_a_success : UsageError

-- `record_public_call`, at a time and on its date, for the row to be written; an exception leaves the
-- transaction without a commit.
unfoldable pub record_public_call : ℕ → ℕ → Bool → AuditLog → Usage → Outcome UsageError Usage
unfolding add_metric count_publication
record_public_call now today increment_publication a u =
    let logged = record u { audit_logs = u.audit_logs ++ a ∷ [] } in
    elim a.agent_id [
      | none ↦ if increment_publication then raised not_a_success else ok logged
      | some i ↦
          let counted = record logged { metrics = add_metric i today a u.metrics } in
          if not increment_publication
          then ok counted
          else if is_success a.status
          then ok (record counted { publications = count_publication now i u.publications })
          else raised not_a_success
    ]
