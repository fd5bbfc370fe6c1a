-- ===== src/Tests/Queues.antt =====
-- A sorted set as a list of members with their scores, which has what Redis documents.
use hermes_agent_platform.Base.{
  ℕ, ◌≡◌, refl, ◌≤◌, ◌<◌, inl, inr, true, Option, none, some, [], ◌∷◌, ◌==◌, if◌then◌else◌, nat_eq,
  arith, ltb, Bool-cases, Option-cases,
}
use hermes_agent_platform.Base.Dict.{Dict, lookup}
use hermes_agent_platform.Base.Outcome.{ok}
use hermes_agent_platform.Tasks.Queue.{SortedSet, band, task_score, enqueue}

abbrev Scores : Type 0
Scores = Dict ℕ ℕ

abbrev IsUnique : Scores → Type 0
IsUnique [] = Unit
IsUnique ((k, s) ∷ d) = (lookup k d ≡ none) × IsUnique d

unfoldable without : ℕ → Scores → Scores
without k [] = []
without k ((j, s) ∷ d) = let rest = without k d in if j == k then rest else (j, s) ∷ rest

unfoldable add : ℕ → ℕ → Scores → Scores
add k s d = elim (lookup k d) [ none ↦ (k, s) ∷ d | some t ↦ d ]

unfoldable least : Scores → Option (ℕ × ℕ)
least [] = none
least ((k, s) ∷ d) = elim (least d) [
  | none ↦ some (k, s)
  | some (j, t) ↦ if ltb t s then some (j, t) else some (k, s)
]

abbrev pop : Scores → Option (ℕ × ℕ) × Scores
pop d = (least d, elim (least d) [ none ↦ d | some (k, s) ↦ without k d ])

lookup-without :
    (k j : ℕ) (d : Scores) → lookup j (without k d) ≡ (if j == k then none else lookup j d)
unfolding lookup without
lookup-without k j [] = ground arith
lookup-without k j ((i, s) ∷ d) = ground (arith, lookup-without k j d)

without-IsUnique : (k : ℕ) (d : Scores) → IsUnique d → IsUnique (without k d)
unfolding without
without-IsUnique k [] h = tt
without-IsUnique k ((i, s) ∷ d) h = elim (Bool-cases (i == k)) [
  | inl e ↦ rw e (without-IsUnique k d h.1)
  | inr e ↦ rw e (ground (arith, lookup-without k i d, h.0), without-IsUnique k d h.1)
]

add-IsUnique : (k s : ℕ) (d : Scores) → IsUnique d → IsUnique (add k s d)
unfolding add
add-IsUnique k s d h = elim (Option-cases (lookup k d)) [
  | inl e ↦ rw (e, add) (e, h)
  | inr (t, e) ↦ rw (e, add) h
]

least_member : (d : Scores) (k s : ℕ) → IsUnique d → least d ≡ some (k, s) → lookup k d ≡ some s
unfolding least lookup
least_member [] k s h e = absurd (cc e)
least_member ((i, t) ∷ d) k s h e = elim (Option-cases (least d)) [
  | inl n ↦ ground (arith, n, e)
  | inr ((j, u), f) ↦ ground (arith, f, e, least_member d j u h.1 f, h.0)
]

least_empty : (d : Scores) (j : ℕ) → least d ≡ none → lookup j d ≡ none
unfolding least lookup
least_empty [] j e = refl
least_empty ((i, t) ∷ d) j e = ground (arith, e)

least_bound : (d : Scores) (k s j t : ℕ) → least d ≡ some (k, s) → lookup j d ≡ some t → s ≤ t
unfolding least lookup
least_bound [] k s j t e h = absurd (cc e)
least_bound ((i, u) ∷ d) k s j t e h = elim (Option-cases (least d)) [
  | inl n ↦ ground (arith, n, e, h, least_empty d j n)
  | inr ((m, v), f) ↦ ground (arith, f, e, h, least_bound d m v j t f)
]

lookup-add :
    (k s j : ℕ) (d : Scores)
    → lookup j (add k s d)
      ≡ (if j == k then elim (lookup k d) [ none ↦ some s | some t ↦ some t ] else lookup j d)
unfolding lookup add
lookup-add k s j d = ground arith

lookup-pop :
    (d : Scores) (k s j : ℕ)
    → (pop d).0 ≡ some (k, s)
    → lookup j (pop d).1 ≡ (if j == k then none else lookup j d)
lookup-pop d k s j h = rw (h, pop) (lookup-without k j d)

pop-IsUnique : (d : Scores) → IsUnique d → IsUnique (pop d).1
pop-IsUnique d h = elim (Option-cases (least d)) [
  | inl n ↦ rw (n, pop) h
  | inr ((k, s), f) ↦ rw (f, pop) (without-IsUnique k d h)
]

abbrev scores : SortedSet
scores = record {
  Z = (d : Scores) × IsUnique d;
  zscore = λ k z. lookup k z.0;
  zadd_nx = λ k s z. (add k s z.0, add-IsUnique k s z.0 z.1);
  zpopmin = λ z. ((pop z.0).0, ((pop z.0).1, pop-IsUnique z.0 z.1));
  zrem = λ k z. (without k z.0, without-IsUnique k z.0 z.1);
  zscore-zadd_nx = λ k s j z. lookup-add k s j z.0;
  zscore-zrem = λ k j z. lookup-without k j z.0;
  zpopmin_empty = λ z j h. least_empty z.0 j h;
  zpopmin_member = λ z k s h. least_member z.0 k s z.1 h;
  zpopmin_least = λ z k s j t h e. least_bound z.0 k s j t h e;
  zpopmin_rest = λ z k s j h. lookup-pop z.0 k s j h;
}

-- Task 4 of priority 9 was enqueued at time 20, task 5 of priority 2 at time 10.
abbrev two_tasks : Scores
two_tasks = (5, task_score 2 10) ∷ (4, task_score 9 20) ∷ []

abbrev priority_of : ℕ → ℕ
priority_of k = if k == 4 then 9 else 2

abbrev time_of : ℕ → ℕ
time_of k = if k == 4 then 20 else 10

abbrev two_members : scores.Z
unfolding lookup nat_eq
two_members = (two_tasks, (refl, (refl, tt)))

abbrev IsStampedAt : ℕ → Type 0
IsStampedAt j =
    (s : ℕ)
    → lookup j two_tasks ≡ some s
    → (priority_of j ≤ 9) × (time_of j < band) × (s ≡ task_score (priority_of j) (time_of j))

abbrev one_member : scores.Z
one_member = (scores.zpopmin two_members).1

abbrev three_members : scores.Z
three_members = scores.zadd_nx 6 (task_score 3 30) two_members

third_enqueued : enqueue scores true 6 3 30 two_members ≡ ok three_members
unfolding enqueue
third_enqueued = refl
