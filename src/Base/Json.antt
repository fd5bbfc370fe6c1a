-- ===== src/Base/Json.antt =====
-- JSON values as Python holds them. A float is only carried along, by its bit pattern.
use hermes_agent_platform.Base.{
  ℕ, suc, ◌≡◌, refl, Bool, true, false, Option, none, some, List, [], ◌∷◌, String, ◌==◌,
  if◌then◌else◌, string_eq, arith, not, ◌%◌, nat_eq,
}

mutual
  pub data Json : Type 0 where
    null : Json
    bool : Bool → Json
    int : Bool → ℕ → Json
    float : ℕ → Json
    str : String → Json
    arr : Items → Json
    obj : Fields → Json

  pub data Items : Type 0 where
    nil : Items
    cons : Json → Items → Items

  pub data Fields : Type 0 where
    end : Fields
    field : String → Json → Fields → Fields

-- A list of texts as a value.
abbrev pub items_of : List String → Items
items_of [] = nil
items_of (s ∷ ss) = cons (str s) (items_of ss)

-- `d.get(k)`
unfoldable pub get : String → Fields → Option Json
get k end = none
get k (field j v fs) = let rest = get k fs in if k == j then some v else rest

-- `d[k] = v`
unfoldable pub put : String → Json → Fields → Fields
put k v end = field k v end
put k v (field j w fs) = let rest = put k v fs in if k == j then field j v fs else field j w rest

-- `d.update(e)`
unfoldable pub update : Fields → Fields → Fields
unfolding put
update d end = d
update d (field k v e) = update (put k v d) e

abbrev pub is_truthy : Fields → Bool
is_truthy end = false
is_truthy (field k v fs) = true

-- `bool(v)`; a float is false where its pattern is that of a zero, of either sign.
unfoldable pub truth : Json → Bool
truth null = false
truth (bool b) = b
truth (int s n) = not (n == 0)
truth (float b) = not (b % 9223372036854775808 == 0)
truth (str s) = not (s == "")
truth (arr nil) = false
truth (arr (cons x xs)) = true
truth (obj fs) = is_truthy fs

-- `bool(d.get(k))`
abbrev pub has_truth : String → Fields → Bool
has_truth k d = elim (get k d) [ none ↦ false | some v ↦ truth v ]

abbrev pub count_items : Items → ℕ
count_items nil = 0
count_items (cons x xs) = suc (count_items xs)

abbrev pub count_fields : Fields → ℕ
count_fields end = 0
count_fields (field k v fs) = suc (count_fields fs)

pub get-put :
    (j k : String) (v : Json) (d : Fields)
    → get j (put k v d) ≡ (if j == k then some v else get j d)
unfolding get put
get-put j k v end = refl
get-put j k v (field i w fs) = ground (arith, get-put j k v fs)
