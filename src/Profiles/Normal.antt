-- ===== src/Profiles/Normal.antt =====
-- What a capability profile is, and that normalising it again changes nothing:
-- backend/app/runtime/capabilities.py.
use Prim.Native.Char.{code}
use Prim.Native.String.{◌∷◌ as push, [] as nothing}
use hermes_agent_platform.Base.{
  ◌≡◌, refl, Bool, true, false, not, ◌&&◌, ◌||◌, some, List, [], ◌∷◌, String, ◌==◌, ◌∈◌, all, leb,
  string_eq, nat_eq, arith, eq_of_==, Bool-cases, inl, inr,
}
use hermes_agent_platform.Base.Json.{items_of, Json, str, arr, get, truth, Fields}
use hermes_agent_platform.Base.Outcome.{ok, Returns, Outcome-cases}
use hermes_agent_platform.Profiles.{
  Texts, Profile, runtime_types, workspace_types, capability_names, artifact_type_names,
  default_capability_profile, dict_of, knows_fields, source_of, get_or, workspace_of, from_keys,
  strings, string_list, chosen_profile, normalize_capability_profile,
}

-- No text comes twice, or is among those seen.
abbrev pub IsFresh : List String → List String → Type 0
IsFresh seen [] = Unit
IsFresh seen (x ∷ xs) = (x ∈ seen ≡ false) × IsFresh (x ∷ seen) xs

-- A profile for Agents of a type of Runtime.
pub record IsProfile (runtime_type : String) (p : Profile) : Type 0 where
  pub runtime : runtime_type ∈ runtime_types ≡ true
  pub workspace : p.workspace_type ∈ workspace_types ≡ true
  pub repository : (runtime_type == "deepseek" && not (p.workspace_type == "repository")) ≡ false
  pub tools : all (λ s. s ∈ capability_names) p.required_tools ≡ true
  pub artifacts : all (λ s. s ∈ artifact_type_names) p.artifact_types ≡ true
  pub tools_once : IsFresh [] p.required_tools
  pub artifacts_once : IsFresh [] p.artifact_types

-- A text of lower-case letters and underscores.
abbrev pub is_plain : String → Bool
is_plain nothing = true
is_plain (push c s) = (leb 97 (code c) && leb (code c) 122 || code c == 95) && is_plain s

-- What Python documents of such texts: neither function changes them.
pub record IsPython (t : Texts) : Type 0 where
  pub strip_plain : (s : String) → is_plain s ≡ true → t.strip s ≡ s
  pub lower_plain : (s : String) → is_plain s ≡ true → t.lower s ≡ s

from_keys-IsFresh : (seen xs : List String) → IsFresh seen (from_keys seen xs)
unfolding from_keys
from_keys-IsFresh seen [] = tt
from_keys-IsFresh seen (x ∷ xs) = elim (Bool-cases (x ∈ seen)) [
  | inl e ↦ rw e (from_keys-IsFresh seen xs)
  | inr e ↦ rw e (e, from_keys-IsFresh (x ∷ seen) xs)
]

from_keys_fresh : (seen xs : List String) → IsFresh seen xs → from_keys seen xs ≡ xs
unfolding from_keys
from_keys_fresh seen [] h = refl
from_keys_fresh seen (x ∷ xs) h = rw h.0 (rw (from_keys_fresh (x ∷ seen) xs h.1) refl)

all-from_keys :
    (p : String → Bool) (seen xs : List String) → all p xs ≡ true → all p (from_keys seen xs) ≡ true
unfolding from_keys
all-from_keys p seen [] h = refl
all-from_keys p seen (x ∷ xs) h =
    ground (arith, h, all-from_keys p seen xs, all-from_keys p (x ∷ seen) xs)

-- What holds of all the names of a list holds of each.
holds_for :
    (p : String → Bool) (s : String) (names : List String)
    → all p names ≡ true
    → s ∈ names ≡ true
    → p s ≡ true
holds_for p s [] h k = absurd (cc k)
holds_for p s (n ∷ names) h k = elim (Bool-cases (s == n)) [
  | inl e ↦ rw (eq_of_== s n e) (ground (arith, h))
  | inr e ↦ holds_for p s names (ground (arith, h)) (ground (arith, e, k))
]

abbrev is_name : String → Bool
is_name s = is_plain s && not (s == "")

module _ (t : Texts) (python : IsPython t) where
  strings_plain : (ss : List String) → all is_name ss ≡ true → strings t (items_of ss) ≡ some ss
  unfolding strings
  strings_plain [] h = refl
  strings_plain (s ∷ ss) h =
      let plain : is_plain s ≡ true = ground (arith, h) in
      let full : (s == "") ≡ false = ground (arith, h) in
      rw
        (
          strings_plain ss (ground (arith, h)),
          python.strip_plain s plain,
          full,
          python.lower_plain s plain,
        )
        refl

  names_plain :
      (names ss : List String)
      → all is_name names ≡ true
      → all (λ s. s ∈ names) ss ≡ true
      → all is_name ss ≡ true
  names_plain names [] h k = refl
  names_plain names (s ∷ ss) h k = ground (
    arith,
    holds_for is_name s names h (ground (arith, k)),
    names_plain names ss h (ground (arith, k)),
  )

  string_list_plain :
      (names ss : List String) (name : String)
      → all is_name names ≡ true
      → all (λ s. s ∈ names) ss ≡ true
      → string_list t (arr (items_of ss)) name ≡ ok ss
  unfolding string_list
  string_list_plain names ss name h k =
      rw (string_list, strings_plain ss (names_plain names ss h k)) refl

  tools_plain : all is_name capability_names ≡ true
  unfolding string_eq
  tools_plain = refl

  artifacts_plain : all is_name artifact_type_names ≡ true
  unfolding string_eq nat_eq
  artifacts_plain = refl

  normalize_dict_lem :
      (runtime_type : String) (p : Profile)
      → IsProfile runtime_type p
      → normalize_capability_profile t (dict_of p) runtime_type ≡ ok p
  unfolding normalize_capability_profile get truth string_eq
  normalize_dict_lem runtime_type p h =
      rw
        (
          h.runtime,
          h.workspace,
          h.repository,
          string_list_plain capability_names p.required_tools "required_tools" tools_plain h.tools,
          h.tools,
          string_list_plain artifact_type_names p.artifact_types "artifact_types" artifacts_plain
              h.artifacts,
          h.artifacts,
          from_keys_fresh [] p.required_tools h.tools_once,
          from_keys_fresh [] p.artifact_types h.artifacts_once,
        )
        refl

  workspace_of-Returns : (v : Json) → Returns (λ s. s ∈ workspace_types ≡ true) (workspace_of v)
  workspace_of-Returns (str r) = elim (Bool-cases (r ∈ workspace_types)) [
    | inl e ↦ rw e e
    | inr e ↦ rw e tt
  ]
  workspace_of-Returns v = tt

  chosen-IsProfile :
      (runtime_type : String) (source : Fields)
      → runtime_type ∈ runtime_types ≡ true
      → Returns (IsProfile runtime_type) (chosen_profile t runtime_type source)
  unfolding chosen_profile
  chosen-IsProfile runtime_type source known =
      let d : Profile = default_capability_profile runtime_type in
      let w : Json = get_or "workspace_type" (str d.workspace_type) source in
      let tools : Json = get_or "required_tools" (arr (items_of d.required_tools)) source in
      let artifacts : Json = get_or "artifact_types" (arr (items_of d.artifact_types)) source in
      elim (Outcome-cases (workspace_of w)) [
        | inr (_, e) ↦ rw e tt
        | inl (s, e) ↦ elim (Bool-cases (runtime_type == "deepseek" && not (s == "repository"))) [
          | inl f ↦ rw (e, f) tt
          | inr f ↦ elim (Outcome-cases (string_list t tools "required_tools")) [
            | inr (_, g) ↦ rw (e, f, g) tt
            | inl (a, g) ↦ elim (Bool-cases (all (λ x. x ∈ capability_names) a)) [
              | inr p ↦ rw (e, f, g, p) tt
              | inl p ↦ elim (Outcome-cases (string_list t artifacts "artifact_types")) [
                | inr (_, h) ↦ rw (e, f, g, p, h) tt
                | inl (b, h) ↦ elim (Bool-cases (all (λ x. x ∈ artifact_type_names) b)) [
                  | inr q ↦ rw (e, f, g, p, h, q) tt
                  | inl q ↦
                      rw (e, f, g, p, h, q)
                        (record {
                          runtime = known;
                          workspace = rw e at (workspace_of-Returns w);
                          repository = f;
                          tools = all-from_keys (λ x. x ∈ capability_names) [] a p;
                          artifacts = all-from_keys (λ x. x ∈ artifact_type_names) [] b q;
                          tools_once = from_keys-IsFresh [] a;
                          artifacts_once = from_keys-IsFresh [] b;
                        })
                ]
              ]
            ]
          ]
        ]
      ]

  normalized-IsProfile :
      (value : Json) (runtime_type : String)
      → Returns (IsProfile runtime_type) (normalize_capability_profile t value runtime_type)
  unfolding normalize_capability_profile
  normalized-IsProfile value runtime_type =
      let d : Profile = default_capability_profile runtime_type in
      elim (Bool-cases (runtime_type ∈ runtime_types)) [
        | inr e ↦ rw e tt
        | inl known ↦ elim (Outcome-cases (source_of value)) [
          | inr (_, e) ↦ rw (known, e) tt
          | inl (source, e) ↦ elim (Bool-cases (knows_fields source)) [
            | inr f ↦ rw (known, e, f) tt
            | inl f ↦ rw (known, e, f) (chosen-IsProfile runtime_type source known)
          ]
        ]
      ]

  -- What the function returns is a profile for the type of Runtime, and normalising it again, as the
  -- dict that it is, returns it unchanged. A profile has a known Runtime and workspace, a repository for
  -- DeepSeek, and known tools and artifacts, each of them once. It is assumed that `str.strip` and
  -- `str.lower` leave a text of the letters a to z and underscores as it is.
  pub normalize_capability_profile-IsProfile :
      (value : Json) (runtime_type : String) (p : Profile)
      → normalize_capability_profile t value runtime_type ≡ ok p
      → IsProfile runtime_type p × (normalize_capability_profile t (dict_of p) runtime_type ≡ ok p)
  normalize_capability_profile-IsProfile value runtime_type p h =
      let n : IsProfile runtime_type p = rw h at (normalized-IsProfile value runtime_type) in
      (n, normalize_dict_lem runtime_type p n)
