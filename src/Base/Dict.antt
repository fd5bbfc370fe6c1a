-- ===== src/Base/Dict.antt =====
-- Python dicts in insertion order, as association lists.
use hermes_agent_platform.Base.{
  ◌+◌, ◌≡◌, refl, true, false, Option, none, some, List, [], ◌∷◌, ◌++◌, arith, Eq, ◌==◌, ◌∈◌,
  if◌then◌else◌, length, Bool-cases, inl, inr,
}

abbrev pub Dict {ℓ κ} : Type ℓ → Type κ → Type (ℓ ⊔ κ)
Dict K V = List (K × V)

abbrev pub keys {ℓ κ} : {K : Type ℓ} {V : Type κ} → Dict K V → List K
keys [] = []
keys ((k, v) ∷ d) = k ∷ keys d

module _ {ℓ κ} {K : Type ℓ} {V : Type κ} ⦃e : Eq K⦄ where
  -- `d.get(k)`
  unfoldable pub lookup : K → Dict K V → Option V
  lookup k [] = none
  lookup k ((j, v) ∷ d) = let rest = lookup k d in if k == j then some v else rest

  -- `d[k] = v`
  unfoldable pub insert : K → V → Dict K V → Dict K V
  insert k v [] = (k, v) ∷ []
  insert k v ((j, w) ∷ d) = let rest = insert k v d in if k == j then (j, v) ∷ d else (j, w) ∷ rest

  pub lookup-insert :
      (j k : K) (v : V) (d : Dict K V)
      → lookup j (insert k v d) ≡ (if j == k then some v else lookup j d)
  unfolding insert lookup
  lookup-insert j k v [] = refl
  lookup-insert j k v ((i, w) ∷ d) = ground (arith, lookup-insert j k v d)

  pub length-insert :
      (k : K) (v : V) (d : Dict K V)
      → length (insert k v d) ≡ (if k ∈ keys d then length d else length d + 1)
  unfolding insert
  length-insert k v [] = refl
  length-insert k v ((i, w) ∷ d) = ground (arith, length-insert k v d)

  pub insert_fresh :
      (k : K) (v : V) (d : Dict K V) → k ∈ keys d ≡ false → insert k v d ≡ d ++ (k, v) ∷ []
  unfolding insert
  insert_fresh k v [] h = refl
  insert_fresh k v ((i, w) ∷ d) h = ground (arith, insert_fresh k v d)

  pub mem-keys-lookup : (k : K) (d : Dict K V) → k ∈ keys d ≡ true → (v : V) × (lookup k d ≡ some v)
  unfolding lookup
  mem-keys-lookup k [] h = cc
  mem-keys-lookup k ((j, v) ∷ d) h = elim (Bool-cases (k == j)) [
    | inl p ↦ (v, rw p)
    | inr p ↦ rw p (mem-keys-lookup k d (rw p at h))
  ]

  pub lookup-mem_keys : (k : K) (d : Dict K V) (v : V) → lookup k d ≡ some v → k ∈ keys d ≡ true
  unfolding lookup
  lookup-mem_keys k [] v h = cc
  lookup-mem_keys k ((j, w) ∷ d) v h = ground (arith, lookup-mem_keys k d v)
