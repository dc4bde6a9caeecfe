-- ===== src/Filters.antt =====
-- internal/filter/filter.go: which events the reconcilers see, and which objects an event asks for.
-- A predicate of controller-runtime has one test for each kind of event, and a test that is not set
-- lets the event through.
pub mod Enqueued
pub mod Nodes
use rh_kernel_module_managem.Prelude.{
  String, Bool, true, false, ◌==◌, ◌&&◌, ◌||◌, not, Option, none, some, List, [], ◌∷◌, ◌++◌,
  if◌then◌else◌, get_or, is_some,
}
use rh_kernel_module_managem.Prelude.Dict.{Dict, lookup, insert}
use rh_kernel_module_managem.Api.{
  Node, Pod, Module, ManagedClusterModule, ManagedCluster, Result, ok, err, panic,
}
use rh_kernel_module_managem.DtkMapping.Reconcilers.{TagReference}

-- What a predicate says of an event on objects of one type.
pub record Predicate (A : Type 0) : Type 0 where
  pub create : A → Bool
  pub update : A → A → Bool  -- the old object and the new one
  pub delete : A → Bool

-- `predicate.NewPredicateFuncs`: the same test for each event, on the new object of an update
abbrev pub predicate_funcs : {A : Type 0} → (A → Bool) → Predicate A
predicate_funcs test = record { create = test; update = λ old new. test new; delete = test }

abbrev pub both : {A : Type 0} → Predicate A → Predicate A → Predicate A
both p q = record {
  create = λ o. p.create o && q.create o;
  update = λ old new. p.update old new && q.update old new;
  delete = λ o. p.delete o && q.delete o;
}

abbrev pub either : {A : Type 0} → Predicate A → Predicate A → Predicate A
either p q = record {
  create = λ o. p.create o || q.create o;
  update = λ old new. p.update old new || q.update old new;
  delete = λ o. p.delete o || q.delete o;
}

unfoldable pub has_label : String → Predicate Node
unfolding lookup
has_label label = predicate_funcs λ o. not (get_or (lookup label o.labels) "" == "")

unfoldable pub skip_deletions : {A : Type 0} → Predicate A
skip_deletions = record { create = λ o. true; update = λ old new. true; delete = λ o. false }

-- `LabelChangedPredicate` of controller-runtime is a parameter.
unfoldable pub module_reconciler_node_predicate : Predicate Node → String → Predicate Node
unfolding has_label skip_deletions
module_reconciler_node_predicate label_changed kernel_label =
    both (both skip_deletions (has_label kernel_label)) label_changed

unfoldable pub node_kernel_reconciler_predicate : String → Predicate Node
unfolding lookup
node_kernel_reconciler_predicate label_name = record {
  create = λ node. true;
  update = λ old new.
      not (get_or (lookup label_name new.labels) "" == new.kernel_version)
      || not (new.os_image == old.os_image);
  delete = λ node. false;
}

-- `t.From.Name` for each tag, where a nil `From` panics
unfoldable pub tags_map : List TagReference → Dict String → Result (Dict String)
unfolding insert
tags_map [] m = ok m
tags_map (t ∷ ts) m = elim t.from [
  | none ↦ panic
  | some image ↦ tags_map ts (insert t.name image m)
]

-- `reflect.DeepEqual` on two maps of texts
unfoldable pub covers : Dict String → Dict String → Bool
unfolding lookup
covers [] n = true
covers ((k, v) ∷ m) n = (is_some (lookup k n) && (get_or (lookup k n) "" == v)) && covers m n

unfoldable pub same_map : Dict String → Dict String → Bool
unfolding covers
same_map m n = covers m n && covers n m

unfoldable pub image_stream_update : List TagReference → List TagReference → Result Bool
unfolding tags_map same_map
image_stream_update old new = elim (tags_map new []) [
  | err e ↦ err e
  | panic ↦ panic
  | ok new_tags ↦ elim (tags_map old []) [
    | err e ↦ err e
    | panic ↦ panic
    | ok old_tags ↦ ok (not (same_map new_tags old_tags))
  ]
]

unfoldable pub node_update_kernel_changed_predicate : Predicate Node
node_update_kernel_changed_predicate = record {
  create = λ node. true;
  update = λ old new. not (old.kernel_version == new.kernel_version);
  delete = λ node. true;
}

-- the value of the first claim of that name
unfoldable pub cluster_claim : String → List (String × String) → Option String
cluster_claim name [] = none
cluster_claim name ((claim, value) ∷ claims) =
    let rest = cluster_claim name claims in if claim == name then some value else rest

unfoldable pub kmm_cluster_claim_changed : String → Predicate ManagedCluster
unfolding cluster_claim
kmm_cluster_claim_changed claim_name = record {
  create = λ cluster. true;
  update = λ old new. elim (cluster_claim claim_name new.cluster_claims) [
    | none ↦ false
    | some new_claim ↦ elim (cluster_claim claim_name old.cluster_claims) [
      | none ↦ true
      | some old_claim ↦ not (new_claim == old_claim)
    ]
  ];
  delete = λ cluster. true;
}

unfoldable pub managed_cluster_predicate :
    Predicate ManagedCluster → String → Predicate ManagedCluster
unfolding kmm_cluster_claim_changed
managed_cluster_predicate label_changed claim_name =
    either label_changed (kmm_cluster_claim_changed claim_name)

unfoldable pub deleting_predicate : Predicate Pod
deleting_predicate = predicate_funcs λ pod. pod.deleting

unfoldable pub matches_namespaced_name_predicate : String × String → Predicate (String × String)
matches_namespaced_name_predicate (name, ns) = predicate_funcs λ o. (o.0 == name) && (o.1 == ns)

unfoldable pub pod_has_spec_node_name : Predicate Pod
pod_has_spec_node_name = predicate_funcs λ pod. not (pod.node_name == "")

unfoldable pub pod_readiness_changed_predicate : Predicate Pod
pod_readiness_changed_predicate = record {
  create = λ pod. true;
  update = λ old new. if old.ready then not new.ready else new.ready;
  delete = λ pod. true;
}

-- `labels.NewRequirement` and the selector's `Matches`, of apimachinery
pub record Selectors : Type 0 where
  pub valid : String → String → Bool
  pub matches : Dict String → Dict String → Bool

unfoldable pub all_valid : Selectors → Dict String → Bool
all_valid s [] = true
all_valid s ((k, v) ∷ sel) = s.valid k v && all_valid s sel

-- The loop over the modules returns what it has at the first requirement that is not valid.
unfoldable pub find_matching :
    {A : Type 0} → Selectors → (A → Dict String) → Dict String → List A → List A
unfolding all_valid
find_matching s selector labels [] = []
find_matching s selector labels (x ∷ xs) =
    let rest = find_matching s selector labels xs in
    if all_valid s (selector x)
    then (if s.matches (selector x) labels then x ∷ rest else rest)
    else []

unfoldable pub find_modules_for_node : Selectors → Result (List Module) → Node → List Module
unfolding find_matching
find_modules_for_node s (ok mods) node =
    find_matching s (λ mod'. mod'.spec.selector) node.labels mods
find_modules_for_node s _ node = []

unfoldable pub find_managed_cluster_modules_for_cluster :
    Selectors → Result (List ManagedClusterModule) → ManagedCluster → List ManagedClusterModule
unfolding find_matching
find_managed_cluster_modules_for_cluster s (ok mods) cluster =
    find_matching s (λ mod'. mod'.selector) cluster.labels mods
find_managed_cluster_modules_for_cluster s _ cluster = []

pub record ListedPreflight : Type 0 where
  pub name : String
  pub namespace : String
  pub deleting : Bool

unfoldable pub enqueue_each : List ListedPreflight → List (String × String)
enqueue_each [] = []
enqueue_each (p ∷ ps) =
    let rest = enqueue_each ps in if p.deleting then rest else (p.name, p.namespace) ∷ rest

unfoldable pub enqueue_all_preflight_validations :
    Result (List ListedPreflight) → List (String × String)
unfolding enqueue_each
enqueue_all_preflight_validations (ok preflights) = enqueue_each preflights
enqueue_all_preflight_validations _ = []
