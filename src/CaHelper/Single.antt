-- ===== src/CaHelper/Single.antt =====
-- A namespace keeps at most one CA ConfigMap of each type, and after a sync it has both.
use rh_kernel_module_managem.Prelude.{
  ◌≤◌, String, ◌≡◌, ap, Bool, true, false, ◌&&◌, ◌==◌, List, [], ◌∷◌, length, filter, none, some,
  arith, eq_iff, Bool-cases, inl, inr, Option-cases,
}
use rh_kernel_module_managem.Prelude.Dict.{lookup}
use rh_kernel_module_managem.Api.{
  Owner, Error, Result, ok, err, panic, is_sentinel, config_map_not_found,
}
use rh_kernel_module_managem.CaHelper.{
  ConfigMap, Stored, Step, ConfigMapsApi, type_key, ◌>>=◌, wrapping, the_only_config_map,
  get_config_map,
}

unfoldable pub is_of_type : String → String → ConfigMap → Bool
unfolding lookup
is_of_type ns ty cm =
    (cm.namespace == ns) && elim (lookup type_key cm.labels) [ none ↦ false | some t ↦ t == ty ]

unfoldable pub of_type : String → String → Stored → List ConfigMap
unfolding is_of_type
of_type ns ty s = filter (is_of_type ns ty) s

pub record SameKind (a b : ConfigMap) : Type 0 where
  pub namespace : b.namespace ≡ a.namespace
  pub labels : b.labels ≡ a.labels

-- A create stores the object under a name, or it fails; it may have stored it when it fails.
pub data Created (cm : ConfigMap) (s : Stored) : Result ConfigMap × Stored → Type 0 where
  accepted : (c : ConfigMap) → SameKind cm c → Created cm s (ok c, c ∷ s)
  unanswered : (c : ConfigMap) (e : Error) → SameKind cm c → Created cm s (err e, c ∷ s)
  refused : (e : Error) → Created cm s (err e, s)

-- What is documented of the API server and of `SetOwnerReference`.
pub record IsApi (api : ConfigMapsApi) : Type 0 where
  pub listed :
      (s : Stored) (ns ty : String) (items : List ConfigMap)
      → api.list_config_maps s ns ((type_key, ty) ∷ []) ≡ ok items
      → items ≡ of_type ns ty s
  pub created : (cm : ConfigMap) (s : Stored) → Created cm s (api.create cm s)
  pub patched :
      (old new : ConfigMap) (s : Stored)
      → SameKind old new
      → (ns ty : String) → length (of_type ns ty (api.patch old new s).1) ≡ length (of_type ns ty s)
  pub owned :
      (owner : Owner) (cm cm' : ConfigMap)
      → api.set_owner_reference owner cm ≡ ok cm'
      → SameKind cm cm'

abbrev pub IsSingle : Stored → Type 0
IsSingle s = (ns ty : String) → length (of_type ns ty s) ≤ 1

module _ (api : ConfigMapsApi) (law : IsApi api) where
  pub absent :
      (ns ty : String) (s : Stored) (e : Error)
      → get_config_map api ns ty s ≡ err e
      → is_sentinel config_map_not_found e ≡ true
      → of_type ns ty s ≡ []
  unfolding get_config_map the_only_config_map is_sentinel
  absent ns ty s e h i = ground (arith, law.listed s ns ty [])

kind_unique :
    (cm c : ConfigMap) (ns ty ns' ty' : String)
    → SameKind cm c
    → is_of_type ns ty cm ≡ true
    → is_of_type ns' ty' c ≡ true
    → (ns ≡ ns') × (ty ≡ ty')
unfolding is_of_type
kind_unique cm c ns ty ns' ty' k i j = elim (Option-cases (lookup type_key cm.labels)) [
  | inl e ↦ ground (arith, k.namespace, k.labels)
  | inr (t, e) ↦ ground (
    arith,
    k.namespace,
    ap (lookup type_key) k.labels,
    eq_iff cm.namespace ns,
    eq_iff cm.namespace ns',
    eq_iff t ty,
    eq_iff t ty',
  )
]

-- of a stored kind that was absent, one more is one
pub one_more :
    (cm c : ConfigMap) (s : Stored) (ns ty : String)
    → SameKind cm c
    → is_of_type ns ty cm ≡ true
    → of_type ns ty s ≡ []
    → IsSingle s
    → IsSingle (c ∷ s)
unfolding of_type
one_more cm c s ns ty k i a h ns' ty' = elim (Bool-cases (is_of_type ns' ty' c)) [
  | inl same ↦
      let (p, q) = kind_unique cm c ns ty ns' ty' k i same in
      let none_there : of_type ns' ty' s ≡ [] = rw (← p, ← q) a in ground (arith, same, none_there)
  | inr other ↦ ground (arith, other, h ns' ty')
]

-- What every step does to the stored ConfigMaps, whatever the cluster answers.
pub record Extends (s t : Stored) : Type 0 where
  pub single : IsSingle s → IsSingle t
  pub more : (ns ty : String) → length (of_type ns ty s) ≤ length (of_type ns ty t)

pub record Extending {A : Type 0} (m : Step A) : Type 0 where
  pub at : (s : Stored) → Extends s (m s).1

pub Extends-refl : (s : Stored) → Extends s s
Extends-refl s = record { single = λ h. h; more = λ ns ty. omega arith }

pub Extends-trans : (s t u : Stored) → Extends s t → Extends t u → Extends s u
Extends-trans s t u p q = record {
  single = λ h. q.single (p.single h);
  more = λ ns ty. omega (arith, p.more ns ty, q.more ns ty);
}

pub Extending-bind :
    {A B : Type 0} (m : Step A) (f : A → Step B)
    → Extending m
    → ((a : A) → Extending (f a))
    → Extending (m >>= f)
unfolding ◌>>=◌
Extending-bind {A} m f hm hf = record { at = λ s. by_result s (m s) (hm.at s) }
  where
    by_result :
        (s : Stored) (r : Result A × Stored) → Extends s r.1 → Extends s (((λ _. r) >>= f) s).1
    by_result s (ok a, t) h = Extends-trans s t (f a t).1 h ((hf a).at t)
    by_result s (err e, t) h = h
    by_result s (panic, t) h = h

pub Extending-wrapping :
    {A : Type 0} (text : String) (m : Step A) → Extending m → Extending (wrapping text m)
unfolding wrapping
Extending-wrapping text m h = record { at = h.at }
