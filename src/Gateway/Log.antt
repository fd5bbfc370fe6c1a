-- ===== src/Gateway/Log.antt =====
-- The table of invocations under `invoke_capability`:
-- services/mcp-gateway/hermes_mcp_gateway/capability_gateway.py.
use hermes_agent_platform.Base.{
  ℕ, ◌<◌, ◌≡◌, ◌≢◌, refl, Bool, true, false, Option, none, some, List, [], ◌∷◌, ◌++◌, map,
  if◌then◌else◌, any, All, arith, sym, ◌⊎◌, nat_eq, inl, inr,
}
use mathlib.Core.List.{append-nil}
use hermes_agent_platform.Gateway.{
  ErrorCode, internal_error, timeout, provider_unavailable, Failure, gateway_error, access_denied,
  timeout_exception, http_error, unexpected, Invocation, InvocationStatus, succeeded, failed, Store,
  World,
}
use hermes_agent_platform.Gateway.Checks.{Authorized}
use hermes_agent_platform.Gateway.Invoke.{
  Context, Response, success, failure, status_of, finish, finished, audit_failure, finish_failed,
  has_id, failed_invocation, handle,
}

-- The rows have other identifiers than the next one.
abbrev pub IsFresh : Store → Type 0
IsFresh s = All (λ (i : Invocation). i.id < s.fresh) s.invocations

-- What a response says of the one row of its call, or that there is none.
abbrev pub Tells : Response → List Invocation → Type 0
Tells (success id v hit) rows =
    (r : Invocation) × (rows ≡ r ∷ [])
    × (r.id ≡ id)
    × (r.status ≡ succeeded)
    × (r.error_code ≡ none)
    × (r.cache_hit ≡ hit)
Tells (failure code none) rows = rows ≡ []
Tells (failure code (some id)) rows =
    (r : Invocation) × (rows ≡ r ∷ [])
    × (r.id ≡ id)
    × (r.status ≡ status_of code)
    × (r.error_code ≡ some code)
    × (r.cache_hit ≡ false)

-- The table grows by the rows that the response tells of, and no row changes.
abbrev pub Logs : Store → Store × Response → Type 0
Logs s p = (rows : List Invocation) × (p.0.invocations ≡ s.invocations ++ rows) × Tells p.1 rows

-- A change of the row with a new identifier.
map_new :
    (f : Invocation → Invocation) (rows : List Invocation) (n : ℕ) (r : Invocation)
    → All (λ (i : Invocation). i.id < n) rows
    → r.id ≡ n
    → map (λ i. if has_id n i then f i else i) (rows ++ r ∷ []) ≡ rows ++ f r ∷ []
map_new f [] n r h e = ground (arith, e)
map_new f (i ∷ rows) n r h e = ground (arith, map_new f rows n r h.1 e)

any_new :
    (rows : List Invocation) (n : ℕ) (r : Invocation)
    → r.id ≡ n
    → any (has_id n) (rows ++ r ∷ []) ≡ true
any_new [] n r e = ground (arith, e)
any_new (i ∷ rows) n r e = ground (arith, any_new rows n r e)

none_new :
    (rows : List Invocation) (n : ℕ)
    → All (λ (i : Invocation). i.id < n) rows
    → any (has_id n) rows ≡ false
none_new [] n h = refl
none_new (i ∷ rows) n h = ground (arith, none_new rows n h.1)

-- The store of a call in progress: the rows as they were, and the call's own.
pub record InProgress (s : Store) (t : Store) (r : Invocation) : Type 0 where
  pub rows : t.invocations ≡ s.invocations ++ r ∷ []
  pub own : r.id ≡ s.fresh
  pub no_error : r.error_code ≡ none
  pub no_hit : r.cache_hit ≡ false

-- An error of the gateway itself.
abbrev pub IsOwn : Failure → Type 0
IsOwn f = (f ≡ unexpected) ⊎ ((code : ErrorCode) × (f ≡ gateway_error code))

module _ (s : Store) (fresh : IsFresh s) where
  pub finish-InProgress :
      (t : Store) (r : Invocation) (status : InvocationStatus) (error : Option ErrorCode)
      (hit : Bool)
      → InProgress s t r
      → (finish s.fresh status error hit t).invocations
        ≡ s.invocations ++ finished status error hit r ∷ []
  unfolding finish
  finish-InProgress t r status error hit p =
      rw (p.rows) (map_new (finished status error hit) s.invocations s.fresh r fresh p.own)

  module _ (w : World) (a : Authorized) where
    -- The handlers, before the call has an identifier.
    pub handle_early :
        (x : Context) (f : Failure) → x.invocation_id ≡ none → Logs s (handle w a x f s)
    unfolding handle audit_failure finish_failed
    handle_early x (gateway_error code) e = (
      failed_invocation w a x code s.fresh ∷ [],
      ground (arith, e, none_new s.invocations s.fresh fresh),
      rw e (failed_invocation w a x code s.fresh, refl, refl, refl, refl, refl),
    )
    handle_early x unexpected e = (
      failed_invocation w a x internal_error s.fresh ∷ [],
      ground (arith, e, none_new s.invocations s.fresh fresh),
      rw e (failed_invocation w a x internal_error s.fresh, refl, refl, refl, refl, refl),
    )
    handle_early x access_denied e = ([], sym (append-nil s.invocations), refl)
    handle_early x timeout_exception e =
        ([], ground (arith, e, append-nil s.invocations), rw e refl)
    handle_early x http_error e = ([], ground (arith, e, append-nil s.invocations), rw e refl)

    -- The handlers, for an error of the call's own checks, once it has an identifier and no row.
    pub handle_unreserved :
        (x : Context) (f : Failure) (t : Store)
        → x.invocation_id ≡ some s.fresh
        → t.invocations ≡ s.invocations
        → IsOwn f
        → Logs s (handle w a x f t)
    unfolding handle audit_failure
    handle_unreserved x (gateway_error code) t e g h = (
      failed_invocation w a x code s.fresh ∷ [],
      ground (arith, e, g, none_new s.invocations s.fresh fresh),
      rw e (failed_invocation w a x code s.fresh, refl, refl, refl, refl, refl),
    )
    handle_unreserved x unexpected t e g h = (
      failed_invocation w a x internal_error s.fresh ∷ [],
      ground (arith, e, g, none_new s.invocations s.fresh fresh),
      rw e (failed_invocation w a x internal_error s.fresh, refl, refl, refl, refl, refl),
    )
    handle_unreserved x access_denied t e g (inl h) = absurd (cc h)
    handle_unreserved x access_denied t e g (inr (code, h)) = absurd (cc h)
    handle_unreserved x timeout_exception t e g (inl h) = absurd (cc h)
    handle_unreserved x timeout_exception t e g (inr (code, h)) = absurd (cc h)
    handle_unreserved x http_error t e g (inl h) = absurd (cc h)
    handle_unreserved x http_error t e g (inr (code, h)) = absurd (cc h)

    audit-Logs :
        (x : Context) (code : ErrorCode) (t : Store) (r : Invocation)
        → x.invocation_id ≡ some s.fresh
        → InProgress s t r
        → Logs s (audit_failure w a x code t)
    unfolding audit_failure
    audit-Logs x code t r e p =
        let change : Invocation → Invocation =
          (λ i. record i { status = status_of code; error_code = some code }) in
        (
          change r ∷ [],
          rw (e, p.rows, any_new s.invocations s.fresh r p.own)
              (map_new change s.invocations s.fresh r fresh p.own),
          rw e (change r, refl, p.own, refl, refl, p.no_hit),
        )

    finish-Logs :
        (x : Context) (code : ErrorCode) (t : Store) (r : Invocation)
        → x.invocation_id ≡ some s.fresh
        → failed ≡ status_of code
        → InProgress s t r
        → Logs s (finish_failed x code t)
    unfolding finish_failed
    finish-Logs x code t r e g p =
        let r' : Invocation = finished failed (some code) false r in
        rw e (
          r' ∷ [],
          finish-InProgress t r failed (some code) false p,
          (r', refl, p.own, g, refl, refl),
        )

    -- The handlers, once the call has its row.
    pub handle_reserved :
        (x : Context) (f : Failure) (t : Store) (r : Invocation)
        → x.invocation_id ≡ some s.fresh
        → f ≢ access_denied
        → InProgress s t r
        → Logs s (handle w a x f t)
    unfolding handle
    handle_reserved x (gateway_error code) t r e h p = audit-Logs x code t r e p
    handle_reserved x unexpected t r e h p = audit-Logs x internal_error t r e p
    handle_reserved x access_denied t r e h p = absurd (h refl)
    handle_reserved x timeout_exception t r e h p = finish-Logs x timeout t r e refl p
    handle_reserved x http_error t r e h p = finish-Logs x provider_unavailable t r e refl p
