-- ===== src/Access/Windows.antt =====
-- How many calls the rate limit lets through, over any sequence of calls of any clients.
use hermes_agent_platform.Base.{
  ℕ, ◌+◌, ◌-◌, ◌*◌, ◌/◌, ◌≤◌, ◌<◌, ◌≡◌, refl, ◌&&◌, List, [], ◌∷◌, ◌==◌, if◌then◌else◌, leb, ltb,
  All, arith, nat_eq, Bool-cases, inl, inr,
}
use hermes_agent_platform.Access.RateLimit.{
  Counter, is_key, value_of, count_request, window_of, enforce_rate_limit,
}

-- A counter lives as long as its window.
abbrev pub IsKept : List Counter → Type 0
IsKept = All (λ (c : Counter). c.window * 60 + 60 ≤ c.expires_at)

-- The value of a counter, expired or not.
abbrev pub stored : ℕ → ℕ → List Counter → ℕ
stored client_id window [] = 0
stored client_id window (c ∷ cs) =
    let rest = stored client_id window cs in if is_key client_id window c then c.value else rest

in_window : (now : ℕ) → now < now / 60 * 60 + 60
in_window now = omega arith

value_of-stored :
    (now i : ℕ) (cs : List Counter)
    → IsKept cs
    → value_of now i (window_of now) cs ≡ stored i (window_of now) cs
unfolding value_of
value_of-stored now i [] h = refl
value_of-stored now i (c ∷ cs) h = ground (arith, in_window now, h.0, value_of-stored now i cs h.1)

counted-IsKept :
    (now i : ℕ) (cs : List Counter) → IsKept cs → IsKept (count_request now i (window_of now) cs)
unfolding count_request
counted-IsKept now i [] h = (omega arith, tt)
counted-IsKept now i (c ∷ cs) h = elim (Bool-cases (is_key i (window_of now) c)) [
  | inr e ↦ rw (e, count_request) (h.0, counted-IsKept now i cs h.1)
  | inl e ↦ elim (Bool-cases (ltb now c.expires_at)) [
    | inl f ↦ rw (e, f, count_request) (ground (arith, h.0, e), h.1)
    | inr f ↦ rw (e, f, count_request) (ground (arith, e), h.1)
  ]
]

stored_counted :
    (now i j w : ℕ) (cs : List Counter)
    → IsKept cs
    → stored j w (count_request now i (window_of now) cs)
      ≡ stored j w cs + (if i == j && window_of now == w then 1 else 0)
unfolding count_request
stored_counted now i j w [] h = ground arith
stored_counted now i j w (c ∷ cs) h =
    ground (arith, in_window now, h.0, stored_counted now i j w cs h.1)

-- The calls of a client in a window, among calls that are given by their time and client.
abbrev pub calls_in : ℕ → ℕ → List (ℕ × ℕ) → ℕ
calls_in j w [] = 0
calls_in j w ((now, i) ∷ rs) = (if i == j && window_of now == w then 1 else 0) + calls_in j w rs

-- How many of them are allowed, when the calls are made one after the other.
abbrev pub allowed_in : (ℕ → ℕ) → ℕ → ℕ → List (ℕ × ℕ) → List Counter → ℕ
allowed_in limit j w [] cs = 0
allowed_in limit j w ((now, i) ∷ rs) cs =
    let (a, cs') = enforce_rate_limit now i (limit i) cs in
    (if (i == j && window_of now == w) && a.allowed then 1 else 0) + allowed_in limit j w rs cs'

abbrev pub min : ℕ → ℕ → ℕ
min m n = if leb m n then m else n

allowed_lem :
    (limit : ℕ → ℕ) (j w : ℕ) (rs : List (ℕ × ℕ)) (cs : List Counter)
    → IsKept cs
    → allowed_in limit j w rs cs ≡ min (calls_in j w rs) (limit j - stored j w cs)
unfolding enforce_rate_limit
allowed_lem limit j w [] cs h = ground arith
allowed_lem limit j w ((now, i) ∷ rs) cs h =
    let cs' = count_request now i (window_of now) cs in
    elim (Bool-cases (i == j && window_of now == w)) [
      | inr e ↦ ground (
        arith,
        e,
        allowed_lem limit j w rs cs' (counted-IsKept now i cs h),
        stored_counted now i j w cs h,
      )
      | inl e ↦ ground (
        arith,
        e,
        value_of-stored now i cs h,
        allowed_lem limit j w rs cs' (counted-IsKept now i cs h),
        stored_counted now i j w cs h,
      )
    ]

-- Starting from no counters, of the calls that a client makes in a window, at whatever times and
-- among whatever calls of others, exactly as many are allowed as its limit lets: all of them, or the
-- limit where there are more.
pub rate_limit_exact :
    (limit : ℕ → ℕ) (j w : ℕ) (rs : List (ℕ × ℕ))
    → allowed_in limit j w rs [] ≡ min (calls_in j w rs) (limit j)
rate_limit_exact limit j w rs = ground (arith, allowed_lem limit j w rs [] tt)

-- The time to wait is between one second and a minute, and leads to the first second of the next
-- window.
pub retry_after_lem :
    (now i limit : ℕ) (cs : List Counter)
    → (1 ≤ (enforce_rate_limit now i limit cs).0.retry_after)
      × ((enforce_rate_limit now i limit cs).0.retry_after ≤ 60)
      × (now + (enforce_rate_limit now i limit cs).0.retry_after ≡ (window_of now + 1) * 60)
unfolding enforce_rate_limit
retry_after_lem now i limit cs = ground arith
