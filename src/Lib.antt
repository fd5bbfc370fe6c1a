-- ===== src/Lib.antt =====
-- Verification library of the Hermes Agent Platform: the Python code of backend/app that decides
-- what runs, when, and in which version.
--
-- The parts and how they interact. A workflow is a list of nodes whose graph is checked when it is
-- stored. A run of it is a root task (the manager's) and a child task per node. The orchestrator
-- reads the tasks of a run over and over, releases those whose dependencies have succeeded, and
-- hands them to the task queue; workers take them from the queue, run the Agent, and write the
-- result back to the row. The HTTP API cancels and reviews tasks meanwhile. Which configuration an
-- Agent runs with is decided by its published version. The arguments of a capability pass the
-- parameter policy before a call. External callers come in as API clients, with keys, a limit per
-- minute, and an audit log of their calls.
--
-- The files:
-- - Workflow: backend/app/schemas/multi_agent.py, `WorkflowNodeSpec` and `validate_workflow_dag`.
--   Workflow/Keys and Workflow/Visit are about its dict of nodes and its search, Workflow/Acyclic
--   states what a directed acyclic graph is, and Workflow/Decision that the check decides it.
-- - Tasks: the rows of backend/app/db/models.py that tasks consist of, and the store of rows.
--   Tasks/Queue is backend/app/task_queue.py over an interface for Redis, Tasks/Order its order.
-- - Runs: `WorkflowRun` and `create_run` of backend/app/repositories/multi_agent.py.
-- - Orchestrator: `reconcile_run` and `_fail_run` of backend/app/orchestrator.py. `turn` is the
--   body of the loop over the children and `release` the loop; in Orchestrator/Reconcile,
--   `release_phase` and `settle_phase` are the two halves of the function. The children of the
--   module are about single turns (Turns), the whole loop (Releases, Progress, Liveness), the
--   second half (Settle), cancelled children (Stall) and children whose dependencies are not there
--   (Early). Orchestrator/Submit and its child Runs are `submit_workflow_run`, `submit_team_run`,
--   `_create_task` and the repository's `create_task`; Resolution, Children, Checked and Known are
--   about the tasks of a submitted workflow.
-- - Worker: backend/app/worker.py. `claim` is `_execute` up to the run of the Agent, `finish` the
--   rest, and `recover`, in Worker/Recovery, is `_recover`. Worker/Api has the operations of
--   backend/app/api that change a task's status. Worker/Steps, Worker/Attempts and
--   Worker/Interventions are about one task under all of these.
-- - Versions: backend/app/repositories/production.py from `transition_agent` on. Versions/Restore
--   and Versions/Publish have the longer operations, Versions/Snapshots is `build_agent_snapshot`,
--   and Versions/Naming the search for a version's name. Versions/Published and
--   Versions/Transitions are about what is published and what is not, and Versions/RoundTrip about
--   a snapshot that is restored.
-- - Policy: backend/app/capabilities/policy.py, with Policy/Protected about what passes it.
-- - Capabilities: the registry of capabilities in backend/app/db/models.py, and
--   backend/app/capabilities/resolver.py: `resolve_agent_capabilities` in Capabilities/Resolver,
--   with its helpers in Runtime, Rows, Skills and Providers, what it reports in Issues, and the
--   ranges of versions in Ranges. Capabilities/Ready says what a version that is ready has, with
--   its children about the parts (Bound, Required, Equipped) and the whole (Resolution).
-- - Gateway: `invoke_capability` of services/mcp-gateway/hermes_mcp_gateway/capability_gateway.py,
--   through which an execution calls its capabilities. Gateway/Checks has what comes before the
--   reservation, Gateway/Arguments `_apply_policy`, Gateway/Quota the reservation, Gateway/Invoke the
--   rest with the handlers. Gateway/Log and Gateway/Logged are about the table of invocations,
--   Gateway/Permitted and Gateway/Sent about the calls that go out, Gateway/Slots about calls that
--   overlap, Gateway/Ready about what the resolver passes, Gateway/Twin compares the policy with that of the backend, and Gateway/Retries is the loop
--   of attempts in `_invoke_provider`. Gateway/Tokens is the verification and the renewal of tokens in
--   its auth.py, and Capabilities/Tokens their issue in backend/app/capabilities/security.py;
--   Gateway/Tokens/Signed and Gateway/Tokens/RoundTrip are about the two together.
-- - Database: the checks of a read query in services/postgres-mcp/hermes_postgres_mcp, `analyze_select`
--   of its sql_policy.py and `_validate_analysis` of its server.py, on the tree that the parser makes.
--   Database/Refers says which tables a query reads, and Database/Scoped is about what passes.
-- - Packages: `_extract` of backend/app/skills/package.py, which unpacks an uploaded Skill, and in
--   Packages/Extracted what it leaves on disk.
-- - Profiles: `normalize_capability_profile` of backend/app/runtime/capabilities.py, and in
--   Profiles/Normal what a profile is.
-- - Access: the first part of backend/app/repositories/production.py: API clients, keys and
--   bindings, with Access/Authentication for the queries that let a caller in, and Access/Rotate
--   for `rotate_legacy_publication_key`. Access/Usage is `record_public_call`, Access/RateLimit
--   `enforce_rate_limit` with Redis; Access/Keys and Access/Rotation are about who gets in,
--   Access/Totals about the metrics, and Access/Windows about the limit.
-- - Base: names of the libraries, Python's `==` and `in`, lists, dicts, JSON values and
--   exceptions.
-- - Tests: concrete runs.
--
-- How the code corresponds. A function that may raise returns an `Outcome`. Code that changes rows
-- takes the store and returns it; the calls that Redis accepted are kept in the store as a list of
-- effects. The database's locks make each operation on a locked row one step, so an interleaving
-- of processes is a sequence of such steps; what a worker read before another process changed the
-- row is an argument of the step that uses it. Identifiers and times are numbers.
--
-- Fuel. The search of `validate_workflow_dag` takes fuel, one more than the number of nodes, since
-- each call deeper marks one more key as being visited. The search for a version's name takes one
-- more than the number of the Agent's versions, since it only passes names that are taken.
--
-- What is not modelled: the run of an Agent and its Runtime, which is an argument of the worker;
-- the loops that poll and sleep; prompts and payloads, which are texts; the HTTP routes that only
-- read or pass on; the requests that the gateway itself makes, which are a parameter but for their attempts; the other
-- services; the frontend; and the database's
-- migrations.
pub mod Base
pub mod Workflow
pub mod Tasks
pub mod Runs
pub mod Orchestrator
pub mod Worker
pub mod Versions
pub mod Policy
pub mod Access
pub mod Capabilities
pub mod Gateway
pub mod Database
pub mod Packages
pub mod Profiles
mod Tests
