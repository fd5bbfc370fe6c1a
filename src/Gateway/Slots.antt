-- ===== src/Gateway/Slots.antt =====
-- The slots of a binding under calls that overlap: `invoke_capability` of
-- services/mcp-gateway/hermes_mcp_gateway/capability_gateway.py, as the steps of several calls.
use hermes_agent_platform.Base.{
  ℕ, ◌≤◌, ◌<◌, ◌≡◌, ◌≢◌, Bool, false, ◌&&◌, Option, some, List, [], ◌∷◌, ◌++◌, map, String, ◌==◌,
  if◌then◌else◌, any, count, count-append, arith, nat_eq, string_eq, option_eq, Bool-cases, inl,
  inr,
}
use hermes_agent_platform.Base.Json.{Fields}
use hermes_agent_platform.Base.Outcome.{ok, Outcome-cases}
use hermes_agent_platform.Capabilities.{CapabilityImplementation}
use hermes_agent_platform.Gateway.{
  ErrorCode, permission_denied, Invocation, InvocationStatus, invocation_status_eq, pending, Store,
  CacheEntry, Provider, Bound, World,
}
use hermes_agent_platform.Gateway.Checks.{Authorized}
use hermes_agent_platform.Gateway.Quota.{
  limit, of_binding, is_pending, enforce_quota, new_invocation, reserve,
}
use hermes_agent_platform.Gateway.Invoke.{
  Context, status_of, or_fresh, finish, finished, has_id, failed_invocation, audit_failure,
}

-- The calls of a binding that are under way.
abbrev pub active : ℕ → Store → ℕ
active id s = count (λ i. of_binding id i && is_pending i) s.invocations

-- A step of one of the calls, where the binding `id` has `n` slots.
pub data Step (id n : ℕ) : Store → Store → Type 0 where
  reserved :
      (w : World) (b : Bound) (m : CapabilityImplementation) (p : Provider) (e : String)
      (s s' : Store)
      → reserve w b m p e s ≡ ok s'
      → (b.binding.id ≡ id → limit w "max_concurrency" 2 b.binding.quota_policy ≡ ok n)
      → Step id n s s'
  ended :
      (i : ℕ) (status : InvocationStatus) (error : Option ErrorCode) (hit : Bool) (s : Store)
      → status ≢ pending
      → Step id n s (finish i status error hit s)
  audited :
      (w : World) (a : Authorized) (x : Context) (code : ErrorCode) (s : Store)
      → Step id n s (audit_failure w a x code s).0
  moved :
      (cache : List CacheEntry) (sent : List (ℕ × Fields)) (s : Store)
      → Step id n s (record s { cache = cache; sent = sent })

pub data Steps (id n : ℕ) (s : Store) : Store → Type 0 where
  here : Steps id n s s
  next : {t u : Store} → Steps id n s t → Step id n t u → Steps id n s u

-- A call within its quota finds a slot.
enforce_quota-lt :
    (w : World) (b : Bound) (p : Provider) (e : String) (rows : List Invocation) (u : Unit) (n : ℕ)
    → enforce_quota w b p e rows ≡ ok u
    → limit w "max_concurrency" 2 b.binding.quota_policy ≡ ok n
    → count (λ i. of_binding b.binding.id i && is_pending i) rows < n
unfolding enforce_quota
enforce_quota-lt w b p e rows u n h l = ground (arith, h, l)

count_changed :
    (q : Invocation → Bool) (c : Invocation → Bool) (f : Invocation → Invocation)
    (rows : List Invocation)
    → ((i : Invocation) → q (f i) ≡ false)
    → count q (map (λ i. if c i then f i else i) rows) ≤ count q rows
count_changed q c f [] h = omega arith
count_changed q c f (i ∷ rows) h = ground (arith, h i, count_changed q c f rows h)

not_counted : (q : Invocation → Bool) (r : Invocation) → q r ≡ false → count q (r ∷ []) ≡ 0
not_counted q r h = ground (arith, h)

status_of-ne : (code : ErrorCode) → status_of code ≢ pending
status_of-ne ErrorCode.invalid_argument e = cc e
status_of-ne ErrorCode.not_found e = cc e
status_of-ne permission_denied e = cc e
status_of-ne ErrorCode.conflict e = cc e
status_of-ne ErrorCode.rate_limited e = cc e
status_of-ne ErrorCode.provider_unavailable e = cc e
status_of-ne ErrorCode.timeout e = cc e
status_of-ne ErrorCode.output_invalid e = cc e
status_of-ne ErrorCode.internal_error e = cc e

module _ (id : ℕ) where
  abbrev holds : Invocation → Bool
  holds i = of_binding id i && is_pending i

  not_holding : (i : Invocation) → i.status ≢ pending → holds i ≡ false
  not_holding i h = ground (arith, h)

  active-reserve :
      (w : World) (b : Bound) (m : CapabilityImplementation) (p : Provider) (e : String)
      (s s' : Store) (n : ℕ)
      → reserve w b m p e s ≡ ok s'
      → (b.binding.id ≡ id → limit w "max_concurrency" 2 b.binding.quota_policy ≡ ok n)
      → active id s ≤ n
      → active id s' ≤ n
  unfolding reserve
  active-reserve w b m p e s s' n h l k =
      elim (Outcome-cases (enforce_quota w b p e s.invocations)) [
        | inr (f, g) ↦ absurd (ground (arith, g, h))
        | inl (u, g) ↦
            let r = new_invocation w s.fresh b m e in
            let grown : s'.invocations ≡ s.invocations ++ r ∷ [] = ground (arith, g, h) in
            let total = count-append holds s.invocations (r ∷ []) in
            elim (Bool-cases (b.binding.id == id)) [
              | inr other ↦ rw grown (ground (arith, total, other, k))
              | inl same ↦
                  let q : b.binding.id ≡ id = ground (arith, same) in
                  let free = enforce_quota-lt w b p e s.invocations u n g (l q) in
                  rw grown (ground (arith, total, same, rw q at free))
            ]
      ]

  active-audit :
      (w : World) (a : Authorized) (x : Context) (code : ErrorCode) (s : Store)
      → active id (audit_failure w a x code s).0 ≤ active id s
  unfolding audit_failure
  active-audit w a x code s =
      let i = or_fresh x.invocation_id s.fresh in
      let r = failed_invocation w a x code i in
      let change : Invocation → Invocation =
        (λ i. record i { status = status_of code; error_code = some code }) in
      elim (Bool-cases (any (has_id i) s.invocations)) [
        | inl e ↦ rw e (
            count_changed holds (has_id i) change s.invocations
              (λ j. not_holding (change j) (status_of-ne code)))
        | inr e ↦ rw e (
            omega (
              arith,
              count-append holds s.invocations (r ∷ []),
              not_counted holds r (not_holding r (status_of-ne code)),
            ))
      ]

  active-finish :
      (i : ℕ) (status : InvocationStatus) (error : Option ErrorCode) (hit : Bool) (s : Store)
      → status ≢ pending
      → active id (finish i status error hit s) ≤ active id s
  unfolding finish
  active-finish i status error hit s h =
      count_changed holds (has_id i) (finished status error hit) s.invocations
        (λ j. not_holding (finished status error hit j) h)

-- However calls overlap, a binding with `n` slots never has more than `n` calls under way, if it
-- had no more to begin with.
pub active-Steps : (id n : ℕ) {s t : Store} → Steps id n s t → active id s ≤ n → active id t ≤ n
active-Steps id n here h = h
active-Steps id n (next r (reserved w b m p e s s' g l)) h =
    active-reserve id w b m p e s s' n g l (active-Steps id n r h)
active-Steps id n (next r (ended i status error hit s g)) h =
    omega (arith, active-finish id i status error hit s g, active-Steps id n r h)
active-Steps id n (next r (audited w a x code s)) h =
    omega (arith, active-audit id w a x code s, active-Steps id n r h)
active-Steps id n (next r (moved cache sent s)) h = active-Steps id n r h
