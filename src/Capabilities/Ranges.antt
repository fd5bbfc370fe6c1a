-- ===== src/Capabilities/Ranges.antt =====
-- `version_satisfies` and `_semver`: backend/app/capabilities/resolver.py. Which characters are
-- digits, as `\d` and `int` read them, and which are spaces, as `str.split` reads them, is a table
-- of Unicode that Python brings.
use Prim.Native.Char.{Char, code}
use Prim.Native.String.{◌∷◌ as push, [] as nothing, ◌++◌ as ◌<>◌}
use hermes_agent_platform.Base.{
  ℕ, ◌+◌, ◌*◌, Bool, true, false, not, ◌&&◌, ◌||◌, Option, none, some, List, [], ◌∷◌, String, ◌==◌,
  if◌then◌else◌, all, ltb, nat_eq, string_eq,
}

pub record Unicode : Type 0 where
  pub digit : Char → Option ℕ
  pub space : Char → Bool

-- What `_semver` returns; `invalid` is its (-1, -1, -1), which stands below every release.
pub data Version : Type 0 where
  invalid : Version
  release : ℕ → ℕ → ℕ → Version

-- Python's `<` on such tuples.
unfoldable pub version_lt : Version → Version → Bool
version_lt v invalid = false
version_lt invalid (release a b c) = true
version_lt (release a b c) (release x y z) = ltb a x || a == x && (ltb b y || b == y && ltb c z)

-- Python's `==` on such tuples.
unfoldable pub version_eq : Version → Version → Bool
version_eq invalid invalid = true
version_eq invalid (release x y z) = false
version_eq (release a b c) invalid = false
version_eq (release a b c) (release x y z) = a == x && b == y && c == z

infixl 5 ◌>>=◌
abbrev ◌>>=◌ : {A B : Type 0} → Option A → (A → Option B) → Option B
none >>= k = none
some a >>= k = k a

abbrev pub is_nothing : String → Bool
is_nothing nothing = true
is_nothing (push c s) = false

-- The rest of a run of digits, whose value so far is given.
unfoldable pub digits : Unicode → ℕ → String → ℕ × String
digits u n nothing = (n, nothing)
digits u n (push c s) = elim (u.digit c) [ none ↦ (n, push c s) | some d ↦ digits u (n * 10 + d) s ]

-- `\d+` with the value that `int` gives it, and what follows.
unfoldable pub number : Unicode → String → Option (ℕ × String)
unfolding digits
number u nothing = none
number u (push c s) = elim (u.digit c) [ none ↦ none | some d ↦ some (digits u d s) ]

-- `\.`
unfoldable pub dot : String → Option String
dot nothing = none
dot (push c s) = if code c == b'.' then some s else none

-- `re.fullmatch(r"(\d+)\.(\d+)\.(\d+)", value)` with its groups.
unfoldable pub match_semver : Unicode → String → Option Version
unfolding number dot
match_semver u value = do
  (a, s) ← number u value
  s' ← dot s
  (b, r) ← number u s'
  r' ← dot r
  (c, q) ← number u r'
  if is_nothing q then some (release a b c) else none

unfoldable pub semver : Unicode → String → Version
unfolding match_semver
semver u value = elim (match_semver u value) [ none ↦ invalid | some v ↦ v ]

pub data Operator : Type 0 where
  at_least at_most above below equal : Operator

-- `(>=|<=|>|<|=)?`, and what follows.
unfoldable pub operator_of : String → Operator × String
operator_of nothing = (equal, nothing)
operator_of (push c nothing) =
    if code c == b'>'
    then (above, nothing)
    else if code c == b'<'
    then (below, nothing)
    else if code c == b'='
    then (equal, nothing)
    else (equal, push c nothing)
operator_of (push c (push d s)) =
    if code c == b'>'
    then (if code d == b'=' then (at_least, s) else (above, push d s))
    else if code c == b'<'
    then (if code d == b'=' then (at_most, s) else (below, push d s))
    else if code c == b'='
    then (equal, push d s)
    else (equal, push c (push d s))

-- The five tests of the loop.
unfoldable pub compares : Operator → Version → Version → Bool
unfolding version_lt version_eq
compares at_least current target = not (version_lt current target)
compares at_most current target = not (version_lt target current)
compares above current target = version_lt target current
compares below current target = version_lt current target
compares equal current target = version_eq current target

-- One token of the expression.
unfoldable pub token_holds : Unicode → Version → String → Bool
unfolding operator_of match_semver compares
token_holds u current token =
    let (operator, rest) = operator_of token in
    elim (match_semver u rest) [ none ↦ false | some target ↦ compares operator current target ]

-- `str.strip`
unfoldable pub lstrip : Unicode → String → String
lstrip u nothing = nothing
lstrip u (push c s) = let rest = lstrip u s in if u.space c then rest else push c s

unfoldable pub rstrip : Unicode → String → String
rstrip u nothing = nothing
rstrip u (push c s) =
    let rest = rstrip u s in if u.space c && is_nothing rest then nothing else push c rest

-- `str.split`: the word being read, and what is still to come.
abbrev pub close : String → List String → List String
close nothing words = words
close (push c s) words = push c s ∷ words

unfoldable pub split_from : Unicode → String → String → List String
split_from u word nothing = close word []
split_from u word (push c s) =
    let closed = split_from u nothing s in
    let longer = split_from u (word <> push c nothing) s in
    if u.space c then close word closed else longer

unfoldable pub version_satisfies : Unicode → String → String → Bool
unfolding semver token_holds lstrip rstrip split_from
version_satisfies u version version_range =
    let current = semver u version in
    let expression = rstrip u (lstrip u version_range) in
    if expression == "" || expression == "*"
    then true
    else all (token_holds u current) (split_from u nothing expression)
