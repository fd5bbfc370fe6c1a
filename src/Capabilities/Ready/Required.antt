-- ===== src/Capabilities/Ready/Required.antt =====
-- What a version requires of its Runtime: `_runtime_features` of backend/app/capabilities/resolver.py.
use hermes_agent_platform.Base.{
  ℕ, ◌≡◌, refl, ◌⊎◌, inl, inr, true, false, arith, nat_eq, string_eq, Bool-cases, Option-cases,
}
use hermes_agent_platform.Base.Json.{Items, Fields, nil, cons, has_truth}
use hermes_agent_platform.Capabilities.{AgentRuntime, runtime_status_eq, Registry, get_row}
use hermes_agent_platform.Capabilities.Issues.{
  Calls, Reference, missing, malformed, refers, reference, object_at, items_at,
}
use hermes_agent_platform.Capabilities.Runtime.{
  missing_features, is_down, profile_features, runtime_features,
}
use hermes_agent_platform.Capabilities.Ready.{AllItems, HasRuntime}
use hermes_agent_platform.Capabilities.Ready.Bound.{Clean}

pub Reference-cases : (x : Reference) → (x ≡ missing) ⊎ (x ≡ malformed) ⊎ ((i : ℕ) × (x ≡ refers i))
Reference-cases missing = inl refl
Reference-cases malformed = inr (inl refl)
Reference-cases (refers i) = inr (inr (i, refl))

module _ (c : Calls) (features : Fields) where
  abbrev Features : Items → Type 0
  Features = AllItems (λ name. has_truth (c.str_of name) features ≡ true)

  has_features_of : (xs : Items) → Clean (missing_features c features xs) → Features xs
  unfolding missing_features
  has_features_of nil h = tt
  has_features_of (cons x xs) h = elim (Bool-cases (has_truth (c.str_of x) features)) [
    | inl e ↦ (e, has_features_of xs (rw e at h))
    | inr e ↦ absurd (ground (arith, e, h))
  ]

  missing_features-Clean : (xs : Items) → Features xs → Clean (missing_features c features xs)
  unfolding missing_features
  missing_features-Clean nil h = refl
  missing_features-Clean (cons x xs) h = rw h.0 (missing_features-Clean xs h.1)

module _ (c : Calls) (reg : Registry) (snapshot : Fields) where
  pub runtime_features-HasRuntime :
      Clean (runtime_features c reg snapshot).1
      → HasRuntime c reg snapshot (runtime_features c reg snapshot).0
  unfolding runtime_features
  runtime_features-HasRuntime h =
      let runtime = object_at "runtime" snapshot in
      elim (Reference-cases (reference c "runtime_id" runtime)) [
        | inl e ↦ absurd (ground (arith, e, h))
        | inr (inl e) ↦ absurd (ground (arith, e, h))
        | inr (inr (i, e)) ↦
            elim (Option-cases (get_row (λ (r : AgentRuntime). r.id) i reg.runtimes)) [
              | inl f ↦ absurd (ground (arith, e, f, h))
              | inr (r, f) ↦ elim (Bool-cases (is_down r)) [
                | inl g ↦ absurd (ground (arith, e, f, g, h))
                | inr g ↦
                    let p : (runtime_features c reg snapshot).0 ≡ profile_features reg r =
                      ground (arith, e, f, g) in
                    record {
                      id = i;
                      runtime = r;
                      is_named = e;
                      is_there = f;
                      not_offline = ground (arith, g);
                      not_disabled = ground (arith, g);
                      has_profile = p;
                      has_features = rw p (
                          has_features_of c (profile_features reg r)
                            (items_at "required_features" runtime) (ground (arith, e, f, g, h)));
                    }
              ]
            ]
      ]

  pub HasRuntime-runtime_features :
      (features : Fields)
      → HasRuntime c reg snapshot features
      → (features ≡ (runtime_features c reg snapshot).0) × Clean (runtime_features c reg snapshot).1
  unfolding runtime_features
  HasRuntime-runtime_features features w =
      let r = w.runtime in
      let up : is_down r ≡ false = ground (arith, w.not_offline, w.not_disabled) in
      let clean =
        missing_features-Clean c features
          (items_at "required_features" (object_at "runtime" snapshot)) w.has_features in
      (
        ground (arith, w.is_named, w.is_there, up, w.has_profile),
        ground (arith, w.is_named, w.is_there, up, w.has_profile, clean),
      )
