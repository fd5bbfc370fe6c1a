-- ===== src/Tasks/Order.antt =====
-- The order in which `TaskQueue` hands tasks out.
use hermes_agent_platform.Base.{
  ℕ, ◌≤◌, ◌<◌, ◌≡◌, true, none, some, ◌==◌, if◌then◌else◌, nat_eq, arith,
}
use hermes_agent_platform.Base.Outcome.{ok}
use hermes_agent_platform.Tasks.Queue.{SortedSet, band, task_score, enqueue}

module _ (redis : SortedSet) where
  open redis use {Z, zscore, zpopmin}

  -- Each member was enqueued with the priority and at the time that the functions give.
  abbrev pub IsStamped : (ℕ → ℕ) → (ℕ → ℕ) → Z → Type 0
  IsStamped priority time z =
      (j s : ℕ)
      → zscore j z ≡ some s
      → (priority j ≤ 9) × (time j < band) × (s ≡ task_score (priority j) (time j))

  -- An accepted `enqueue` has a priority of at most 9, leaves every other member and a member
  -- that is there already as they were, and gives a new one the score of its priority and time.
  pub enqueue_lem :
      (k p t j : ℕ) (z z' : Z)
      → enqueue redis true k p t z ≡ ok z'
      → (p ≤ 9)
        × (zscore j z' ≡ (
            if j == k
            then elim (zscore k z) [ none ↦ some (task_score p t) | some s ↦ some s ]
            else zscore j z))
  unfolding enqueue
  enqueue_lem k p t j z z' h =
      (ground arith, ground (arith, redis.zscore-zadd_nx k (task_score p t) j z))
