-- ===== src/Capabilities/Ready/Equipped.antt =====
-- What the Skills of a version require: `_validate_skill_requirements` of backend/app/capabilities/resolver.py.
use hermes_agent_platform.Base.{
  ℕ, ◌≡◌, ◌≢◌, refl, inl, inr, Bool, true, List, [], ◌∷◌, ◌==◌, ◌∈◌, All, All-map, filter, is_empty,
  arith, nat_eq, string_eq, Bool-cases, Option-cases,
}
use hermes_agent_platform.Base.Json.{Items, Fields, nil, cons}
use hermes_agent_platform.Capabilities.{runtime_status_eq, Registry, SkillCapabilityRequirement}
use hermes_agent_platform.Capabilities.Issues.{Calls, malformed, items_at}
use hermes_agent_platform.Capabilities.Ranges.{version_satisfies}
use hermes_agent_platform.Capabilities.Rows.{Row, version_of}
use hermes_agent_platform.Capabilities.Skills.{
  item_reference, skill_versions, binding_for, requirement_issues, all_requirement_issues,
  skill_issues,
}
use hermes_agent_platform.Capabilities.Ready.{AllItems, Refers, Met, HasSkills}
use hermes_agent_platform.Capabilities.Ready.Bound.{Clean, Clean-append, append-Clean}
use hermes_agent_platform.Capabilities.Ready.Required.{Reference-cases}

module _ (c : Calls) where
  named_of :
      (xs : Items)
      → Clean (skill_versions c xs).1
      → AllItems (λ x. item_reference c x ≢ malformed) xs
  unfolding skill_versions
  named_of nil h = tt
  named_of (cons x xs) h = elim (Reference-cases (item_reference c x)) [
    | inl e ↦ (ground (arith, e), named_of xs (ground (arith, e, h)))
    | inr (inl e) ↦ absurd (ground (arith, e, h))
    | inr (inr (i, e)) ↦ (ground (arith, e), named_of xs (ground (arith, e, h)))
  ]

  skill_versions-Clean :
      (xs : Items)
      → AllItems (λ x. item_reference c x ≢ malformed) xs
      → Clean (skill_versions c xs).1
  unfolding skill_versions
  skill_versions-Clean nil h = refl
  skill_versions-Clean (cons x xs) h =
      let ih = skill_versions-Clean xs h.1 in
      elim (Reference-cases (item_reference c x)) [
        | inl e ↦ ground (arith, e, ih)
        | inr (inl e) ↦ absurd (h.0 e)
        | inr (inr (i, e)) ↦ ground (arith, e, ih)
      ]

  Refers-mem : (xs : Items) (i : ℕ) → Refers c xs i → i ∈ (skill_versions c xs).0 ≡ true
  unfolding skill_versions
  Refers-mem nil i h = absurd h
  Refers-mem (cons x xs) i (inl e) = ground (arith, e)
  Refers-mem (cons x xs) i (inr h) =
      let ih = Refers-mem xs i h in
      elim (Reference-cases (item_reference c x)) [
        | inl e ↦ ground (arith, e, ih)
        | inr (inl e) ↦ ground (arith, e, ih)
        | inr (inr (j, e)) ↦ ground (arith, e, ih)
      ]

  mem-Refers : (xs : Items) (i : ℕ) → i ∈ (skill_versions c xs).0 ≡ true → Refers c xs i
  unfolding skill_versions
  mem-Refers nil i h = absurd (cc h)
  mem-Refers (cons x xs) i h = elim (Reference-cases (item_reference c x)) [
    | inl e ↦ inr (mem-Refers xs i (ground (arith, e, h)))
    | inr (inl e) ↦ inr (mem-Refers xs i (ground (arith, e, h)))
    | inr (inr (j, e)) ↦ elim (Bool-cases (i == j)) [
      | inl s ↦ inl (ground (arith, e, s))
      | inr d ↦ inr (mem-Refers xs i (ground (arith, e, d, h)))
    ]
  ]

module _ (c : Calls) (reg : Registry) (rows : List Row) where
  requirement_issues-Met :
      (q : SkillCapabilityRequirement)
      → Clean (requirement_issues c reg rows q)
      → q.required ≡ true
      → Met c reg rows q
  unfolding requirement_issues
  requirement_issues-Met q h r = elim (Option-cases (binding_for rows q)) [
    | inl e ↦ absurd (ground (arith, e, r, h))
    | inr (b, e) ↦ elim (Option-cases (version_of reg b)) [
      | inl f ↦ absurd (ground (arith, e, f, r, h))
      | inr (v, f) ↦ elim (Bool-cases (version_satisfies c.unicode v.version q.version_range)) [
        | inl g ↦ (b, e, v, f, g)
        | inr g ↦ absurd (ground (arith, e, f, g, r, h))
      ]
    ]
  ]

  requirement_issues-Clean :
      (q : SkillCapabilityRequirement)
      → (q.required ≡ true → Met c reg rows q)
      → Clean (requirement_issues c reg rows q)
  unfolding requirement_issues
  requirement_issues-Clean q h = elim (Bool-cases q.required) [
    | inr e ↦ rw e
    | inl e ↦ let (b, f, v, g, k) = h e in ground (arith, e, f, g, k)
  ]

  module _ (p : SkillCapabilityRequirement → Bool) where
    all_requirement_issues-Met :
        (qs : List SkillCapabilityRequirement)
        → Clean (all_requirement_issues c reg rows (filter p qs))
        → All (λ q. q.required ≡ true → p q ≡ true → Met c reg rows q) qs
    unfolding all_requirement_issues
    all_requirement_issues-Met [] h = tt
    all_requirement_issues-Met (q ∷ qs) h = elim (Bool-cases (p q)) [
      | inl e ↦
          let (a, b) =
            Clean-append (requirement_issues c reg rows q)
              (all_requirement_issues c reg rows (filter p qs))
              (rw (e, all_requirement_issues) at h) in
          (λ r _. requirement_issues-Met q a r, all_requirement_issues-Met qs b)
      | inr e ↦ (
        λ r f. absurd (ground (arith, e, f)),
        all_requirement_issues-Met qs (rw (e, all_requirement_issues) at h),
      )
    ]

    all_requirement_issues-Clean :
        (qs : List SkillCapabilityRequirement)
        → All (λ q. q.required ≡ true → p q ≡ true → Met c reg rows q) qs
        → Clean (all_requirement_issues c reg rows (filter p qs))
    unfolding all_requirement_issues
    all_requirement_issues-Clean [] h = refl
    all_requirement_issues-Clean (q ∷ qs) h = elim (Bool-cases (p q)) [
      | inl e ↦
          rw (e, all_requirement_issues)
            (append-Clean (requirement_issues c reg rows q)
              (all_requirement_issues c reg rows (filter p qs))
              (requirement_issues-Clean q (λ r. h.0 r e)) (all_requirement_issues-Clean qs h.1))
      | inr e ↦ rw (e, all_requirement_issues) (all_requirement_issues-Clean qs h.1)
    ]

no_member : (i : ℕ) (is : List ℕ) → is_empty is ≡ true → i ∈ is ≡ true → ⊥
no_member i [] e m = cc m
no_member i (j ∷ is) e m = cc e

module _ (c : Calls) (reg : Registry) (snapshot : Fields) (rows : List Row) where
  abbrev skills : Items
  skills = items_at "skills" snapshot

  abbrev among : SkillCapabilityRequirement → Bool
  among q = q.skill_version_id ∈ (skill_versions c skills).0

  -- What is met: the requirements of the versions that the code looks for.
  abbrev AllMet : Type 0
  AllMet = All (λ q. q.required ≡ true → among q ≡ true → Met c reg rows q) reg.requirements

  none_among :
      (qs : List SkillCapabilityRequirement)
      → is_empty (skill_versions c skills).0 ≡ true
      → All (λ q. q.required ≡ true → among q ≡ true → Met c reg rows q) qs
  none_among [] e = tt
  none_among (q ∷ qs) e = (
    λ r m. absurd (no_member q.skill_version_id (skill_versions c skills).0 e m),
    none_among qs e,
  )

  skill_issues_parts :
      Clean (skill_issues c reg snapshot rows) → Clean (skill_versions c skills).1 × AllMet
  unfolding skill_issues
  skill_issues_parts h = elim (Bool-cases (is_empty (skill_versions c skills).0)) [
    | inl e ↦ (rw e at h, none_among reg.requirements e)
    | inr e ↦
        let (a, b) =
          Clean-append (skill_versions c skills).1
            (all_requirement_issues c reg rows (filter among reg.requirements)) (rw e at h) in
        (a, all_requirement_issues-Met c reg rows among reg.requirements b)
  ]

  skill_issues_whole :
      Clean (skill_versions c skills).1 → AllMet → Clean (skill_issues c reg snapshot rows)
  unfolding skill_issues
  skill_issues_whole a b = elim (Bool-cases (is_empty (skill_versions c skills).0)) [
    | inl e ↦ rw e a
    | inr e ↦ rw e (
        append-Clean (skill_versions c skills).1
          (all_requirement_issues c reg rows (filter among reg.requirements)) a
          (all_requirement_issues-Clean c reg rows among reg.requirements b))
  ]

  pub skill_issues-HasSkills :
      Clean (skill_issues c reg snapshot rows) → HasSkills c reg skills rows
  skill_issues-HasSkills h =
      let (a, b) = skill_issues_parts h in
      record {
        named = named_of c skills a;
        met =
            All-map (λ q. q.required ≡ true → among q ≡ true → Met c reg rows q)
              (λ q. q.required ≡ true → Refers c skills q.skill_version_id → Met c reg rows q)
              (λ q f r w. f r (Refers-mem c skills q.skill_version_id w)) reg.requirements b;
      }

  pub HasSkills-skill_issues :
      HasSkills c reg skills rows → Clean (skill_issues c reg snapshot rows)
  HasSkills-skill_issues w = skill_issues_whole (skill_versions-Clean c skills w.named) (
      All-map (λ q. q.required ≡ true → Refers c skills q.skill_version_id → Met c reg rows q)
        (λ q. q.required ≡ true → among q ≡ true → Met c reg rows q)
        (λ q f r m. f r (mem-Refers c skills q.skill_version_id m)) reg.requirements w.met)
