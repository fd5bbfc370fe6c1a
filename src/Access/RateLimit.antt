-- ===== src/Access/RateLimit.antt =====
-- `enforce_rate_limit`: backend/app/repositories/production.py, with the counters of Redis: INCR adds
-- one to a key, which starts at 0 when it is not there or has expired, and EXPIRE sets when a key
-- expires. Times are in seconds.
use hermes_agent_platform.Base.{
  ℕ, ◌+◌, ◌-◌, ◌/◌, ◌%◌, Bool, ◌&&◌, List, [], ◌∷◌, ◌==◌, if◌then◌else◌, ltb, leb, nat_eq,
}

-- The key of a client's window, with its value and the time at which it expires.
pub record Counter : Type 0 where
  pub client_id : ℕ
  pub window : ℕ
  pub value : ℕ
  pub expires_at : ℕ

abbrev pub is_key : ℕ → ℕ → Counter → Bool
is_key client_id window c = c.client_id == client_id && c.window == window

-- The value of a key at a time.
unfoldable pub value_of : ℕ → ℕ → ℕ → List Counter → ℕ
value_of now client_id window [] = 0
value_of now client_id window (c ∷ cs) =
    let rest = value_of now client_id window cs in
    if is_key client_id window c then (if ltb now c.expires_at then c.value else 0) else rest

-- The script: INCR, and EXPIRE where the count is 1.
unfoldable pub count_request : ℕ → ℕ → ℕ → List Counter → List Counter
count_request now client_id window [] =
    record { client_id = client_id; window = window; value = 1; expires_at = now + 60 } ∷ []
count_request now client_id window (c ∷ cs) =
    let rest = count_request now client_id window cs in
    if is_key client_id window c
    then (if ltb now c.expires_at
        then record c {
          value = c.value + 1;
          expires_at = if c.value + 1 == 1 then now + 60 else c.expires_at;
        }
          ∷ cs
        else record c { value = 1; expires_at = now + 60 } ∷ cs)
    else c ∷ rest

-- Whether the call is allowed, how many are left, and when to try again.
pub record Answer : Type 0 where
  pub allowed : Bool
  pub remaining : ℕ
  pub retry_after : ℕ

abbrev pub window_of : ℕ → ℕ
window_of now = now / 60

unfoldable pub enforce_rate_limit : ℕ → ℕ → ℕ → List Counter → Answer × List Counter
unfolding value_of count_request
enforce_rate_limit now client_id limit_per_minute cs =
    let count = value_of now client_id (window_of now) cs + 1 in
    (
      record {
        allowed = leb count limit_per_minute;
        remaining = limit_per_minute - count;
        retry_after = if leb 1 (60 - now % 60) then 60 - now % 60 else 1;
      },
      count_request now client_id (window_of now) cs,
    )
