-- ===== src/Tests/Keys.antt =====
-- Keys, calls and limits of an API client.
use hermes_agent_platform.Base.{
  ℕ, ◌≡◌, refl, true, none, some, List, [], ◌∷◌, String, string_eq, nat_eq,
}
use hermes_agent_platform.Base.Outcome.{ok}
use hermes_agent_platform.Access.{
  ApiClient, ApiKey, ClientStatus, KeyStatus, Directory, Secret, new_key, revoke_api_key,
  client_status_eq, key_status_eq,
}
use hermes_agent_platform.Access.Authentication.{authenticate_client_key}
use hermes_agent_platform.Access.Rotate.{rotate_legacy_publication_key}
use hermes_agent_platform.Access.Rotation.{rotate_shuts}
use hermes_agent_platform.Access.Usage.{CallStatus, AuditLog, Usage, record_public_call, new_metric}
use hermes_agent_platform.Access.Totals.{IsBalanced, record_public_call-IsBalanced}
use hermes_agent_platform.Access.Windows.{allowed_in, calls_in, min, rate_limit_exact}

abbrev key_at : ℕ → String → ApiKey
key_at id hash = new_key id 1 "default" (record { key_hash = hash; prefix = "hap_" }) none

abbrev client : ApiClient
client = record {
  id = 1;
  name = "legacy-writer";
  owner = "team";
  status = ClientStatus.active;
  rate_limit_per_minute = 2;
}

abbrev directory : Directory
directory = record {
  clients = client ∷ [];
  keys = key_at 1 "one" ∷ key_at 2 "two" ∷ [];
  bindings = record { client_id = 1; agent_id = "writer"; permission = "invoke" } ∷ [];
  agents = [];
  publications = [];
}

second_opens :
    authenticate_client_key 60 "two" (revoke_api_key 50 1 directory) ≡ some (client, key_at 2 "two")
unfolding authenticate_client_key revoke_api_key string_eq nat_eq key_status_eq client_status_eq
second_opens = refl

abbrev secret : Secret
secret = record { key_hash = "three"; prefix = "hap_" }

abbrev third : ApiKey
third = new_key 3 1 "legacy-publication-key" secret none

abbrev rotated : Directory
rotated = record directory {
  keys =
      record (key_at 1 "one") { status = KeyStatus.revoked; revoked_at = some 50 }
      ∷ record (key_at 2 "two") { status = KeyStatus.revoked; revoked_at = some 50 }
      ∷ third
      ∷ [];
  publications =
      record {
        agent_id = "writer";
        status = hermes_agent_platform.Versions.ContractStatus.draft;
        api_key_hash = some "three";
        api_key_prefix = some "hap_";
      }
      ∷ [];
}

keys_rotated : rotate_legacy_publication_key 50 9 3 "writer" secret directory ≡ ok (rotated, third)
unfolding rotate_legacy_publication_key string_eq client_status_eq nat_eq key_status_eq
keys_rotated = refl

third_opens : authenticate_client_key 60 "three" rotated ≡ some (client, third)
unfolding authenticate_client_key string_eq key_status_eq nat_eq client_status_eq
third_opens = refl

rotate_shuts_example : third ≡ third
rotate_shuts_example =
    rotate_shuts 50 9 3 60 "writer" "three" secret directory rotated third third client keys_rotated
      third_opens refl

abbrev call : AuditLog
call = record {
  request_id = "r1";
  client_id = some 1;
  api_key_id = some 1;
  agent_id = some "writer";
  status = CallStatus.succeeded;
  latency_ms = 120;
  token_usage = some 30;
  mcp_call_count = 0;
  error_code = none;
}

abbrev no_usage : Usage
no_usage = record { audit_logs = []; metrics = []; publications = [] }

abbrev one_call : Usage
one_call = record {
  audit_logs = call ∷ [];
  metrics = new_metric "writer" 7 call ∷ [];
  publications = [];
}

call_recorded : record_public_call 50 7 true call no_usage ≡ ok one_call
unfolding record_public_call
call_recorded = refl

no_usage-IsBalanced : IsBalanced no_usage
no_usage-IsBalanced = record { calls = λ i. refl; successes = λ i. refl; split = tt }

record_public_call-IsBalanced_example : IsBalanced one_call
record_public_call-IsBalanced_example =
    record_public_call-IsBalanced 50 7 true call no_usage one_call call_recorded no_usage-IsBalanced

abbrev three_calls : List (ℕ × ℕ)
three_calls = (130, 1) ∷ (140, 1) ∷ (170, 1) ∷ []

rate_limit_exact_example : allowed_in (λ i. 2) 1 2 three_calls [] ≡ min (calls_in 1 2 three_calls) 2
rate_limit_exact_example = rate_limit_exact (λ i. 2) 1 2 three_calls
