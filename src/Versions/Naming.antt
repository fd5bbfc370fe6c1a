-- ===== src/Versions/Naming.antt =====
-- `next_agent_version` of backend/app/repositories/production.py: the loop that looks for a free
-- version name. `label` is the text `v{n}` of a number.
use hermes_agent_platform.Base.{
  ℕ, zero, suc, ◌+◌, ◌≤◌, ◌<◌, ◌≡◌, refl, sym, ◌∙◌, ◌≢◌, true, false, not, Option, none, some, List,
  [], ◌∷◌, map, String, ◌==◌, ◌∈◌, if◌then◌else◌, filter, length, string_eq, arith, Bool-cases, inl,
  inr,
}
use hermes_agent_platform.Versions.{AgentVersion}

-- The names of an Agent's versions.
unfoldable pub version_names : String → List AgentVersion → List String
version_names agent_id vs = map (λ v. v.version) (filter (λ v. v.agent_id == agent_id) vs)

-- `while …: candidate += 1`, on fuel.
unfoldable pub next_candidate : (ℕ → String) → ℕ → List String → ℕ → Option ℕ
next_candidate label zero names n = none
next_candidate label (suc f) names n =
    let rest = next_candidate label f names (n + 1) in if label n ∈ names then rest else some n

unfoldable pub next_agent_version : (ℕ → String) → String → List AgentVersion → Option String
unfolding version_names next_candidate
next_agent_version label agent_id vs =
    let names = version_names agent_id vs in
    elim (next_candidate label (suc (length names)) names (length names + 1)) [
      | none ↦ none
      | some n ↦ some (label n)
    ]

abbrev without : String → List String → List String
without k = filter (λ j. not (j == k))

length-without_le : (k : String) (ks : List String) → length (without k ks) ≤ length ks
length-without_le k [] = omega arith
length-without_le k (j ∷ ks) = ground (arith, length-without_le k ks)

length-without : (k : String) (ks : List String) → k ∈ ks ≡ true → length (without k ks) < length ks
length-without k [] h = cc
length-without k (j ∷ ks) h = ground (arith, length-without k ks, length-without_le k ks)

mem-without : (j k : String) (ks : List String) → j ≢ k → j ∈ without k ks ≡ j ∈ ks
mem-without j k [] h = refl
mem-without j k (i ∷ ks) h = ground (arith, mem-without j k ks h)

module _ (label : ℕ → String) (distinct : (m n : ℕ) → label m ≡ label n → m ≡ n) where
  -- A name that lies behind makes no difference to the search.
  skip :
      (f m n : ℕ) (names : List String)
      → m < n
      → next_candidate label f (without (label m) names) n ≡ next_candidate label f names n
  unfolding next_candidate
  skip zero m n names h = refl
  skip (suc f) m n names h =
      let ne : label n ≢ label m = λ e. absurd (omega (arith, distinct n m e)) in
      ground (arith, mem-without (label n) (label m) names ne, skip f m (n + 1) names (omega arith))

  search_total :
      (f n : ℕ) (names : List String)
      → length names < f
      → (k : ℕ) × (next_candidate label f names n ≡ some k) × (label k ∈ names ≡ false) × (n ≤ k)
  unfolding next_candidate
  search_total zero n names h = elim h [ ]
  search_total (suc f) n names h = elim (Bool-cases (label n ∈ names)) [
    | inr free ↦ (n, rw free, free, omega arith)
    | inl taken ↦
        let (k, e, free, le) =
          search_total f (n + 1) (without (label n) names)
            (omega (arith, length-without (label n) names taken)) in
        let ne : label k ≢ label n = λ p. absurd (omega (arith, distinct k n p)) in
        (
          k,
          rw taken (sym (skip f n (n + 1) names (omega arith)) ∙ e),
          sym (mem-without (label k) (label n) names ne) ∙ free,
          omega arith,
        )
  ]

  -- With distinct texts for distinct numbers, the loop always ends: it finds a number past the
  -- count of the Agent's versions, and its text is the name of none of them.
  pub next_agent_version_lem :
      (agent_id : String) (vs : List AgentVersion)
      → (k : ℕ) × (next_agent_version label agent_id vs ≡ some (label k))
        × (label k ∈ version_names agent_id vs ≡ false)
        × (length (version_names agent_id vs) < k)
  unfolding next_agent_version
  next_agent_version_lem agent_id vs =
      let names = version_names agent_id vs in
      let (k, e, free, le) =
        search_total (suc (length names)) (length names + 1) names (omega arith) in
      (k, ground (arith, e), free, omega arith)
