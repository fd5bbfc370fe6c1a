-- ===== src/Capabilities/Ready/Bound.antt =====
-- The bound capabilities of a version: which of them the loop of `resolve_agent_capabilities`
-- passes without an error.
use hermes_agent_platform.Base.{
  ◌≡◌, ◌≢◌, refl, ◌⊎◌, inl, inr, true, false, some, List, [], ◌∷◌, ◌++◌, All₂, any, any-append,
  arith, string_eq, Bool-cases, Option-cases,
}
use hermes_agent_platform.Capabilities.{
  ContractStatus, published, deprecated, CapabilityImplementation, ConnectorOperation, Health,
  ConnectorInstance, ConnectorInstanceRevision, Registry, get_row,
}
use hermes_agent_platform.Capabilities.Issues.{Calls, ResolvedCapability, PreflightIssue, is_error}
use hermes_agent_platform.Capabilities.Rows.{Row}
use hermes_agent_platform.Capabilities.Providers.{
  implementation, operation_of, revision_of, connector_of, is_database, scope_of, tool, is_usable,
  is_offline, provider_issues, scope_issues, resolve_implementation, resolve_row, resolve_rows,
}
use hermes_agent_platform.Capabilities.Ready.{IsHealthy, IsScoped, Resolves}

-- No error among the issues.
abbrev pub Clean : List PreflightIssue → Type 0
Clean issues = any is_error issues ≡ false

pub Clean-append : (xs ys : List PreflightIssue) → Clean (xs ++ ys) → Clean xs × Clean ys
Clean-append xs ys h = ground (arith, any-append is_error xs ys)

pub append-Clean : (xs ys : List PreflightIssue) → Clean xs → Clean ys → Clean (xs ++ ys)
append-Clean xs ys h k = ground (arith, any-append is_error xs ys)

usable_of : (s : ContractStatus) → is_usable s ≡ true → (s ≡ published) ⊎ (s ≡ deprecated)
usable_of ContractStatus.draft h = absurd (cc h)
usable_of ContractStatus.testing h = absurd (cc h)
usable_of published h = inl refl
usable_of deprecated h = inr refl
usable_of ContractStatus.disabled h = absurd (cc h)

online_of : (s : Health) → is_offline s ≡ false → s ≢ Health.offline
online_of Health.unknown h e = cc e
online_of Health.healthy h e = cc e
online_of Health.degraded h e = cc e
online_of Health.offline h e = cc h

pub not_offline : (s : Health) → s ≢ Health.offline → is_offline s ≡ false
not_offline Health.unknown h = refl
not_offline Health.healthy h = refl
not_offline Health.degraded h = refl
not_offline Health.offline h = absurd (h refl)

module _ (c : Calls) (reg : Registry) (r : Row) where
  provider_issues-IsHealthy :
      (v : ConnectorInstanceRevision) → Clean (provider_issues reg r v) → IsHealthy reg v
  unfolding provider_issues
  provider_issues-IsHealthy v h =
      elim (Option-cases
        (get_row (λ (i : ConnectorInstance). i.id) v.connector_instance_id reg.instances)) [
          | inl e ↦ absurd (ground (arith, e, h))
          | inr (i, e) ↦ elim (Bool-cases i.enabled) [
            | inl on ↦ elim (Bool-cases (is_offline i.health_status)) [
              | inl off ↦ absurd (ground (arith, e, on, off, h))
              | inr up ↦ (i, e, on, online_of i.health_status up)
            ]
            | inr off ↦ absurd (ground (arith, e, off, h))
          ]
        ]

  provider_issues-Clean :
      (v : ConnectorInstanceRevision) → IsHealthy reg v → Clean (provider_issues reg r v)
  unfolding provider_issues
  provider_issues-Clean v (i, e, on, up) = ground (arith, e, on, not_offline i.health_status up)

  scope_issues-IsScoped :
      (o : ConnectorOperation) (v : ConnectorInstanceRevision)
      → Clean (scope_issues c reg r o v)
      → IsScoped c reg r o v
  unfolding scope_issues
  scope_issues-IsScoped o v h db = elim (Option-cases (scope_of reg r.binding)) [
    | inl e ↦ absurd (ground (arith, db, e, h))
    | inr (s, e) ↦ (s, e, ground (arith, e, db, h))
  ]

  scope_issues-Clean :
      (o : ConnectorOperation) (v : ConnectorInstanceRevision)
      → IsScoped c reg r o v
      → Clean (scope_issues c reg r o v)
  unfolding scope_issues
  scope_issues-Clean o v h = elim (Bool-cases (is_database (connector_of reg o))) [
    | inl db ↦ let (s, e, f) = h db in ground (arith, db, e, f)
    | inr e ↦ rw e
  ]

  -- What the body of the loop returns where its issues are clean.
  abbrev Passed : List ResolvedCapability × List PreflightIssue → Type 0
  Passed p = Clean p.1 → (t : ResolvedCapability) × (p.0 ≡ t ∷ []) × Resolves c reg r t

  resolve_implementation-Passed :
      (m : CapabilityImplementation)
      → is_usable r.version.status ≡ true
      → implementation reg r.binding r.version.id ≡ some m
      → Passed (resolve_implementation c reg r m)
  unfolding resolve_implementation
  resolve_implementation-Passed m u e h = elim (Option-cases (operation_of reg m)) [
    | inl f ↦ absurd (ground (arith, f, h))
    | inr (o, f) ↦ elim (Option-cases (revision_of reg m)) [
      | inl g ↦ absurd (ground (arith, f, g, h))
      | inr (v, g) ↦
          let clean : Clean (provider_issues reg r v ++ scope_issues c reg r o v) =
            ground (arith, f, g, h) in
          let (a, b) = Clean-append (provider_issues reg r v) (scope_issues c reg r o v) clean in
          (
            tool r m o v,
            ground (arith, f, g),
            record {
              usable = usable_of r.version.status u;
              chosen = m;
              operation = o;
              revision = v;
              has_implementation = e;
              has_operation = f;
              has_revision = g;
              healthy = provider_issues-IsHealthy v a;
              scoped = scope_issues-IsScoped o v b;
              is_tool = refl;
            },
          )
    ]
  ]

  pub resolve_row-Resolves : Passed (resolve_row c reg r)
  unfolding resolve_row
  resolve_row-Resolves h = elim (Bool-cases (is_usable r.version.status)) [
    | inr e ↦ absurd (ground (arith, e, h))
    | inl u ↦ elim (Option-cases (implementation reg r.binding r.version.id)) [
      | inl e ↦ absurd (ground (arith, u, e, h))
      | inr (m, e) ↦
          let (t, f, g) = resolve_implementation-Passed m u e (ground (arith, u, e, h)) in
          (t, ground (arith, u, e, f), g)
    ]
  ]

  is_usable_lem : (s : ContractStatus) → (s ≡ published) ⊎ (s ≡ deprecated) → is_usable s ≡ true
  is_usable_lem s (inl e) = rw e
  is_usable_lem s (inr e) = rw e

  pub Resolves-resolve_row :
      (t : ResolvedCapability)
      → Resolves c reg r t
      → ((resolve_row c reg r).0 ≡ t ∷ []) × Clean (resolve_row c reg r).1
  unfolding resolve_row resolve_implementation
  Resolves-resolve_row t w =
      let o = w.operation in
      let v = w.revision in
      let u = is_usable_lem r.version.status w.usable in
      let clean =
        append-Clean (provider_issues reg r v) (scope_issues c reg r o v)
          (provider_issues-Clean v w.healthy) (scope_issues-Clean o v w.scoped) in
      (
        ground (arith, u, w.has_implementation, w.has_operation, w.has_revision, w.is_tool),
        ground (arith, u, w.has_implementation, w.has_operation, w.has_revision, clean),
      )

module _ (c : Calls) (reg : Registry) where
  -- The loop passes exactly the lists of rows whose every row is resolved.
  pub resolve_rows-Resolves :
      (rs : List Row)
      → Clean (resolve_rows c reg rs).1
      → All₂ (Resolves c reg) rs (resolve_rows c reg rs).0
  unfolding resolve_rows
  resolve_rows-Resolves [] h = tt
  resolve_rows-Resolves (r ∷ rs) h =
      let (a, b) = Clean-append (resolve_row c reg r).1 (resolve_rows c reg rs).1 h in
      let (t, e, w) = resolve_row-Resolves c reg r a in rw e (w, resolve_rows-Resolves rs b)

  pub Resolves-resolve_rows :
      (rs : List Row) (ts : List ResolvedCapability)
      → All₂ (Resolves c reg) rs ts
      → Clean (resolve_rows c reg rs).1
  unfolding resolve_rows
  Resolves-resolve_rows [] ts h = refl
  Resolves-resolve_rows (r ∷ rs) [] h = absurd h.0
  Resolves-resolve_rows (r ∷ rs) (t ∷ ts) h =
      append-Clean (resolve_row c reg r).1 (resolve_rows c reg rs).1
        (Resolves-resolve_row c reg r t h.0).1 (Resolves-resolve_rows rs ts h.1)
