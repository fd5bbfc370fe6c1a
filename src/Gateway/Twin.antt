-- ===== src/Gateway/Twin.antt =====
-- The gateway's `_apply_policy` beside `apply_parameter_policy` of
-- backend/app/capabilities/policy.py, which it does not call.
use hermes_agent_platform.Base.{◌≡◌, Bool, not, Option, none, some, []}
use hermes_agent_platform.Base.Json.{Json, Fields, end}
use hermes_agent_platform.Policy.{Policy}
use hermes_agent_platform.Gateway.{World}

-- The policy without the rules that the gateway does not read.
abbrev pub unmeasured : Policy → Policy
unmeasured policy = record policy { max_length = []; regex = [] }

abbrev pub scope_or_empty : Option Fields → Fields
scope_or_empty none = end
scope_or_empty (some s) = s

-- `x > y` is the negation of `y >= x`, wherever Python compares the two.
abbrev pub Compares : World → Type 0
Compares w = (x y : Json) (g : Bool) → w.greater x y ≡ some g → g ≡ not (w.python.at_least y x)
