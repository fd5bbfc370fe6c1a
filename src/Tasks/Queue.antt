-- ===== src/Tasks/Queue.antt =====
-- `TaskQueue`: backend/app/task_queue.py, over the Redis sorted set that it calls.
use hermes_agent_platform.Base.{
  ℕ, ◌+◌, ◌-◌, ◌*◌, ◌≤◌, ◌<◌, ◌≡◌, ◌⊎◌, Bool, not, Option, none, some, ◌==◌, if◌then◌else◌, ltb,
  nat_eq, arith,
}
use hermes_agent_platform.Base.Outcome.{Outcome, ok, raised}

-- What Redis documents of ZADD NX, ZPOPMIN and ZREM, seen through ZSCORE. A member is the text of a
-- task's id; scores are kept exact, in millionths of the milliseconds that the source adds up as a
-- float.
pub record SortedSet : Type 1 where
  pub Z : Type 0
  pub zscore : ℕ → Z → Option ℕ
  pub zadd_nx : ℕ → ℕ → Z → Z
  pub zpopmin : Z → Option (ℕ × ℕ) × Z
  pub zrem : ℕ → Z → Z
  pub zscore-zadd_nx :
      (k s j : ℕ) (z : Z)
      → zscore j (zadd_nx k s z)
        ≡ (if j == k then elim (zscore k z) [ none ↦ some s | some t ↦ some t ] else zscore j z)
  pub zscore-zrem : (k j : ℕ) (z : Z) → zscore j (zrem k z) ≡ (if j == k then none else zscore j z)
  pub zpopmin_empty : (z : Z) (j : ℕ) → (zpopmin z).0 ≡ none → zscore j z ≡ none
  pub zpopmin_member : (z : Z) (k s : ℕ) → (zpopmin z).0 ≡ some (k, s) → zscore k z ≡ some s
  pub zpopmin_least :
      (z : Z) (k s j t : ℕ) → (zpopmin z).0 ≡ some (k, s) → zscore j z ≡ some t → s ≤ t
  pub zpopmin_rest :
      (z : Z) (k s j : ℕ)
      → (zpopmin z).0 ≡ some (k, s)
      → zscore j (zpopmin z).1 ≡ (if j == k then none else zscore j z)

pub data QueueError : Type 0 where
  priority_out_of_range unavailable : QueueError

-- The leading band of a score makes the priority dominate.
abbrev pub band : ℕ
band = 10_000_000_000_000_000_000

unfoldable pub task_score : ℕ → ℕ → ℕ
task_score priority time_ns = (9 - priority) * band + time_ns

-- A higher priority always comes first, and within one priority the earlier time.
pub task_score_order :
    (p q t u : ℕ)
    → p ≤ 9
    → q ≤ 9
    → t < band
    → u < band
    → task_score p t ≤ task_score q u
    → (q < p) ⊎ ((p ≡ q) × (t ≤ u))
unfolding task_score
task_score_order p q t u hp hq ht hu h = grind arith

-- The argument `up` says whether Redis answers.
module _ (redis : SortedSet) (up : Bool) where
  open redis use {Z, zscore, zadd_nx, zpopmin, zrem}

  unfoldable pub enqueue : ℕ → ℕ → ℕ → Z → Outcome QueueError Z
  enqueue task_id priority time_ns z =
      if ltb 9 priority
      then raised priority_out_of_range
      else if not up
      then raised unavailable
      else ok (zadd_nx task_id (task_score priority time_ns) z)

  unfoldable pub dequeue : Z → Outcome QueueError (Option ℕ × Z)
  dequeue z =
      if not up
      then raised unavailable
      else ok (elim (zpopmin z).0 [ none ↦ none | some (k, s) ↦ some k ], (zpopmin z).1)

  unfoldable pub remove : ℕ → Z → Outcome QueueError Z
  remove task_id z = if not up then raised unavailable else ok (zrem task_id z)
