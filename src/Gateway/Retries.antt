-- ===== src/Gateway/Retries.antt =====
-- The attempts of a REST call in `_invoke_provider`:
-- services/mcp-gateway/hermes_mcp_gateway/capability_gateway.py. What each attempt meets is a
-- function of its number; the pauses between them are left out. `max_retries` is no negative number.
use hermes_agent_platform.Base.{
  ℕ, zero, suc, ◌+◌, ◌≤◌, ◌≡◌, ◌⊎◌, refl, Bool, true, false, ◌&&◌, ◌||◌, Option, none, some, ◌==◌,
  if◌then◌else◌, nat_eq, arith, ltb, leb, Bool-cases, inl, inr,
}
use native.Mathlib.Nat.{le_trans}
use hermes_agent_platform.Base.Json.{Json}
use hermes_agent_platform.Base.Outcome.{Outcome, ok, raised, ◌>>◌, raise_if}
use hermes_agent_platform.Capabilities.{SideEffect, Idempotency, non_idempotent}
use hermes_agent_platform.Gateway.{
  rate_limited, provider_unavailable, invalid_argument, output_invalid, ProviderFailure,
  provider_error, provider_timeout, provider_http_error, provider_unexpected,
}
use hermes_agent_platform.Gateway.Invoke.{is_read_only}

-- A response's body: larger than allowed, without a JSON content type, no JSON, or a value.
pub data Body : Type 0 where
  too_large other_type not_json : Body
  value : Json → Body

-- A timeout may come before the response, or after its status.
pub data Attempt : Type 0 where
  responds : ℕ → Body → Attempt
  times_out : Option ℕ → Attempt
  breaks : Attempt

abbrev pub latest : Option ℕ → Option ℕ → Option ℕ
latest none last = last
latest (some status) last = some status

Attempt-cases :
    (a : Attempt)
    → ((status : ℕ) × (body : Body) × (a ≡ responds status body))
      ⊎ ((seen : Option ℕ) × (a ≡ times_out seen))
      ⊎ (a ≡ breaks)
Attempt-cases (responds status body) = inl (status, body, refl)
Attempt-cases (times_out seen) = inr (inl (seen, refl))
Attempt-cases breaks = inr (inr refl)

abbrev pub is_retried : ℕ → Bool
is_retried status = status == 429 || leb 500 status

-- `retries`, where only a call that may be repeated has any.
unfoldable pub retries_of : SideEffect → Idempotency → ℕ → ℕ
retries_of effect non_idempotent max_retries = if is_read_only effect then max_retries else 0
retries_of effect _ max_retries = max_retries

abbrev pub is_large : Body → Bool
is_large too_large = true
is_large _ = false

abbrev pub parsed : Body → Outcome ProviderFailure Json
parsed (value j) = ok j
parsed _ = raised (provider_error output_invalid)

-- What follows the loop, for the status of the last response.
unfoldable pub conclude : ℕ → Body → Outcome ProviderFailure Json
conclude status body = do
  raise_if (status == 429) (provider_error rate_limited)
  raise_if (leb 500 status) (provider_error provider_unavailable)
  raise_if (leb 400 status) (provider_error invalid_argument)
  parsed body

-- What follows the loop where it has run out of attempts: without any response the assertion fails,
-- and otherwise there is no content.
unfoldable pub run_out : Option ℕ → Outcome ProviderFailure Json
unfolding conclude
run_out none = raised provider_unexpected
run_out (some status) = conclude status other_type

-- The loop: the attempts left, the number of the next one, and the status of the last response. It
-- returns how many attempts were made.
unfoldable pub attempts : (ℕ → Attempt) → ℕ → ℕ → ℕ → Option ℕ → ℕ × Outcome ProviderFailure Json
unfolding conclude run_out
attempts answers retries zero attempt last = (attempt, run_out last)
attempts answers retries (suc left) attempt last = elim (answers attempt) [
  | responds status body ↦
      let again = attempts answers retries left (attempt + 1) (some status) in
      if is_retried status && ltb attempt retries then again else (
        attempt + 1,
        (if is_large body then raised (provider_error output_invalid) else conclude status body),
      )
  | times_out seen ↦
      let again = attempts answers retries left (attempt + 1) (latest seen last) in
      if leb retries attempt then (attempt + 1, raised provider_timeout) else again
  | breaks ↦ (attempt + 1, raised provider_http_error)
]

-- `range(min(retries, 2) + 1)`
abbrev pub rounds : ℕ → ℕ
rounds retries = suc (if ltb 2 retries then 2 else retries)

unfoldable pub send :
    (ℕ → Attempt) → SideEffect → Idempotency → ℕ → ℕ × Outcome ProviderFailure Json
unfolding retries_of attempts
send answers effect idempotency max_retries =
    let retries = retries_of effect idempotency max_retries in
    attempts answers retries (rounds retries) 0 none

attempts-le :
    (answers : ℕ → Attempt) (retries left attempt : ℕ) (last : Option ℕ)
    → (attempts answers retries left attempt last).0 ≤ attempt + left
unfolding attempts
attempts-le answers retries zero attempt last = omega arith
attempts-le answers retries (suc left) attempt last = elim (Attempt-cases (answers attempt)) [
  | inl (status, body, e) ↦
      ground (arith, e, attempts-le answers retries left (attempt + 1) (some status))
  | inr (inl (seen, e)) ↦
      ground (arith, e, attempts-le answers retries left (attempt + 1) (latest seen last))
  | inr (inr e) ↦ ground (arith, e)
]

rounds-le : (n : ℕ) → 0 + rounds n ≤ 3
rounds-le n = ground arith

rounds_zero : (n : ℕ) → n ≡ 0 → 0 + rounds n ≤ 1
rounds_zero n e = ground (arith, e)

retries_of_zero :
    (effect : SideEffect) (idempotency : Idempotency) (max_retries : ℕ)
    → is_read_only effect ≡ false
    → idempotency ≡ non_idempotent
    → retries_of effect idempotency max_retries ≡ 0
unfolding retries_of
retries_of_zero effect Idempotency.safe_retry max_retries e f = absurd (cc f)
retries_of_zero effect Idempotency.idempotent max_retries e f = absurd (cc f)
retries_of_zero effect non_idempotent max_retries e f = rw e

-- A call that is not read-only and not idempotent is made once at most, and any call three times at
-- most, whatever its policy asks for.
pub send_bounds :
    (answers : ℕ → Attempt) (effect : SideEffect) (idempotency : Idempotency) (max_retries : ℕ)
    → ((send answers effect idempotency max_retries).0 ≤ 3)
      × (is_read_only effect ≡ false
          → idempotency ≡ non_idempotent
          → (send answers effect idempotency max_retries).0 ≤ 1)
unfolding send retries_of
send_bounds answers effect idempotency max_retries =
    let retries = retries_of effect idempotency max_retries in
    let bound = attempts-le answers retries (rounds retries) 0 none in
    (
      le_trans bound (rounds-le retries),
      λ e f.
          le_trans bound (rounds_zero retries (retries_of_zero effect idempotency max_retries e f)),
    )

-- Where every attempt times out without a response, from one on that the retries still allow.
all_time_out :
    (answers : ℕ → Attempt) (retries left attempt : ℕ)
    → ((k : ℕ) → answers k ≡ times_out none)
    → attempt ≤ retries
    → (attempts answers retries left attempt none).1 ≡ (
        if ltb retries (attempt + left)
        then raised provider_timeout
        else raised provider_unexpected)
unfolding attempts run_out
all_time_out answers retries zero attempt h le = ground (arith, le)
all_time_out answers retries (suc left) attempt h le = elim (Bool-cases (leb retries attempt)) [
  | inl e ↦ ground (arith, h attempt, e, le)
  | inr e ↦ ground (
    arith,
    h attempt,
    e,
    le,
    all_time_out answers retries left (attempt + 1) h (ground (arith, e)),
  )
]

rounds_lem : (n : ℕ) → ltb n (0 + rounds n) ≡ leb n 2
rounds_lem n = ground arith

-- A call whose every attempt times out without a response is a timeout if its policy allows two retries or fewer, and
-- otherwise an unexpected error, since the loop then ends before the last of the retries.
pub send_times_out :
    (answers : ℕ → Attempt) (effect : SideEffect) (idempotency : Idempotency) (max_retries : ℕ)
    → ((k : ℕ) → answers k ≡ times_out none)
    → (send answers effect idempotency max_retries).1 ≡ (
        if leb (retries_of effect idempotency max_retries) 2
        then raised provider_timeout
        else raised provider_unexpected)
unfolding send
send_times_out answers effect idempotency max_retries h =
    let retries = retries_of effect idempotency max_retries in
    rw (← rounds_lem retries) (all_time_out answers retries (rounds retries) 0 h (omega arith))
