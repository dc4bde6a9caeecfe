-- ===== src/Reconciler/Reads.antt =====
-- What the lists that a reconciliation reads have to do with the maps that it makes of them.
use rh_kernel_module_managem.Prelude.{
  String, ◌≡◌, refl, ◌⊎◌, inl, inr, Bool, true, false, not, ◌&&◌, ◌==◌, Option, none, some, List,
  [], ◌∷◌, arith, ap, sym, ◌∙◌, if◌then◌else◌, is_some, In, All, mem, Bool-cases, eq_iff, eq_refl,
}
use rh_kernel_module_managem.Prelude.Dict.{Dict, lookup, insert, keys, lookup-insert}
use rh_kernel_module_managem.Api.{DaemonSet, Node, ModuleLoaderData, Result, ok, err, panic, is_ok}
use rh_kernel_module_managem.Api.Errors.{◌>>=◌ as bind_result}
use rh_kernel_module_managem.Api.Calls.{Call, Act, lift, ◌>>=◌}
use rh_kernel_module_managem.Api.Calls.Makes.{Makes}
use rh_kernel_module_managem.DaemonSets.{label_of, index_by_kernel}
use rh_kernel_module_managem.Reconciler.{kernel_of, get_relevant_kernel_mappings_and_nodes}

-- an action that goes on with what was read
pub Makes-read :
    {A B : Type 0} {P : Call → Type 0} (r : Result A) (f : A → Act B)
    → ((a : A) → r ≡ ok a → Makes P (f a))
    → Makes P (lift r >>= f)
unfolding lift ◌>>=◌
Makes-read (ok a) f h = h a refl
Makes-read (err e) f h = record { all = tt }
Makes-read panic f h = record { all = tt }

module _ (get : String → Result ModuleLoaderData) where
  -- Nothing of the cache `ms` is lost in `m`, and each kernel of the nodes with data is there.
  pub record Covers (ms : Dict ModuleLoaderData) (nodes : List Node) (m : Dict ModuleLoaderData)
      : Type 0 where
    pub kept : (k : String) → is_some (lookup k ms) ≡ true → is_some (lookup k m) ≡ true
    pub all :
        All
          (λ n. (is_ok (get (kernel_of n)) && not (is_some (lookup (kernel_of n) m))) ≡ false)
          nodes

  with_node_inv :
      (node : Node) (r : Result (Dict ModuleLoaderData × List Node)) (m : Dict ModuleLoaderData)
      (ns : List Node)
      → bind_result {B = Dict ModuleLoaderData × List Node} r (λ s. ok (s.0, node ∷ s.1))
        ≡ ok (m, ns)
      → (ns' : List Node) × (r ≡ ok (m, ns'))
  with_node_inv node (ok (m', ns')) m ns h = (ns', ground (arith, h))
  with_node_inv node (err e) m ns h = cc
  with_node_inv node panic m ns h = cc

  pub covers :
      (nodes : List Node) (ms m : Dict ModuleLoaderData) (ns : List Node)
      → get_relevant_kernel_mappings_and_nodes get ms nodes ≡ ok (m, ns)
      → Covers ms nodes m
  unfolding get_relevant_kernel_mappings_and_nodes
  covers [] ms m ns h = record { kept = λ k i. ground (arith, h, i); all = tt }
  covers (node ∷ nodes) ms m ns h = by_cached (covers nodes) (lookup (kernel_of node) ms) refl
    where
      by_data :
          ((ms m : Dict ModuleLoaderData) (ns : List Node)
            → get_relevant_kernel_mappings_and_nodes get ms nodes ≡ ok (m, ns)
            → Covers ms nodes m)
          → (r : Result ModuleLoaderData) → get (kernel_of node) ≡ r
          → lookup (kernel_of node) ms ≡ none
          → Covers ms (node ∷ nodes) m
      by_data ih (ok mld) g l =
          let (ns', e) =
            with_node_inv node
              (get_relevant_kernel_mappings_and_nodes get (insert (kernel_of node) mld ms) nodes) m
              ns (ground (arith, h, g, l)) in
          let c = ih (insert (kernel_of node) mld ms) m ns' e in
          let there = c.kept (kernel_of node) (
            ground (
              arith,
              lookup-insert (kernel_of node) (kernel_of node) mld ms,
              eq_refl (kernel_of node),
            )) in
          record {
            kept = λ k i. c.kept k (ground (arith, i, lookup-insert (kernel_of node) k mld ms));
            all = (ground (arith, there), c.all);
          }
      by_data ih (err x) g l =
          let c = ih ms m ns (ground (arith, h, g, l)) in
          record { kept = c.kept; all = (ground (arith, g), c.all) }
      by_data ih panic g l = ground (arith, h, g, l)

      by_cached :
          ((ms m : Dict ModuleLoaderData) (ns : List Node)
            → get_relevant_kernel_mappings_and_nodes get ms nodes ≡ ok (m, ns)
            → Covers ms nodes m)
          → (o : Option ModuleLoaderData) → lookup (kernel_of node) ms ≡ o
          → Covers ms (node ∷ nodes) m
      by_cached ih (some mld) l =
          let (ns', e) =
            with_node_inv node (get_relevant_kernel_mappings_and_nodes get ms nodes) m ns
              (ground (arith, h, l)) in
          let c = ih ms m ns' e in
          let there = c.kept (kernel_of node) (ground (arith, l)) in
          record { kept = c.kept; all = (ground (arith, there), c.all) }
      by_cached ih none l = by_data ih (get (kernel_of node)) refl l

pub mem-keys : {V : Type 0} (k : String) (m : Dict V) → mem k (keys m) ≡ false → lookup k m ≡ none
unfolding lookup keys
mem-keys k [] h = refl
mem-keys k ((j, v) ∷ m) h = ground (arith, h, mem-keys k m, eq_iff j k, eq_iff k j)

In-insert :
    {V : Type 0} (e : String × V) (k : String) (v : V) (m : Dict V)
    → In e (insert k v m)
    → (e ≡ (k, v)) ⊎ In e m
unfolding insert
In-insert e k v [] i = i
In-insert e k v ((j, w) ∷ m) i = by_name (In-insert e k v m) (j == k) i
  where
    by_name :
        (In e (insert k v m) → (e ≡ (k, v)) ⊎ In e m)
        → (b : Bool) → In e (if b then (k, v) ∷ m else (j, w) ∷ insert k v m)
        → (e ≡ (k, v)) ⊎ In e ((j, w) ∷ m)
    by_name ih true (inl q) = inl q
    by_name ih true (inr i) = inr (inr i)
    by_name ih false (inl q) = inr (inl q)
    by_name ih false (inr i) = elim (ih i) [ inl q ↦ inl q | inr i ↦ inr (inr i) ]

-- What is in the index is one of the DaemonSets, under the kernel of its label.
pub index_by_kernel-In :
    (label : String) (dss : List DaemonSet) (found m : Dict DaemonSet) (k : String) (ds : DaemonSet)
    → index_by_kernel label found dss ≡ ok m
    → In (k, ds) m
    → In (k, ds) found ⊎ (In ds dss × (label_of label ds.labels ≡ k))
unfolding index_by_kernel
index_by_kernel-In label [] found m k ds h i =
    let same : found ≡ m = ground (arith, h) in inl (rw same i)
index_by_kernel-In label (d ∷ dss) found m k ds h i =
    let kernel = label_of label d.labels in
    elim (Bool-cases (is_some (lookup kernel found))) [
      | inl taken ↦ ground (arith, h, taken)
      | inr free ↦
          elim (index_by_kernel-In label dss (insert kernel d found) m k ds
            (ground (arith, h, free)) i) [
              | inl there ↦ elim (In-insert (k, ds) kernel d found there) [
                | inl q ↦ inr (
                  inl (ap (λ e. e.1) q),
                  ap (λ e. label_of label e.1.labels) q ∙ sym (ap (λ e. e.0) q),
                )
                | inr old ↦ inl old
              ]
              | inr (later, l) ↦ inr (inr later, l)
            ]
    ]
