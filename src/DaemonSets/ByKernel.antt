-- ===== src/DaemonSets/ByKernel.antt =====
-- `ModuleDaemonSetsByKernelVersion`: one DaemonSet for each kernel.
use rh_kernel_module_managem.Prelude.{
  true, refl, eq_refl, String, ◌≡◌, ◌==◌, eq_iff, Option, none, some, List, [], ◌∷◌, arith,
  if◌then◌else◌, is_some,
}
use rh_kernel_module_managem.Prelude.Dict.{Dict, lookup, insert, lookup-insert}
use rh_kernel_module_managem.Api.{DaemonSet, Result, ok, err, panic, is_ok}
use rh_kernel_module_managem.DaemonSets.{label_of, index_by_kernel}

module _ (kernel_label : String) where
  abbrev pub kernel_of : DaemonSet → String
  kernel_of ds = label_of kernel_label ds.labels

  -- the DaemonSet of a kernel, if there is one
  abbrev pub find_ds : String → List DaemonSet → Option DaemonSet
  find_ds k [] = none
  find_ds k (ds ∷ dss) = if kernel_of ds == k then some ds else find_ds k dss

  -- No two DaemonSets are for the same kernel.
  abbrev pub Distinct : List DaemonSet → Type 0
  Distinct [] = Unit
  Distinct (ds ∷ dss) = (find_ds (kernel_of ds) dss ≡ none) × Distinct dss

  -- Every kernel has the DaemonSet that is listed for it.
  pub index_by_kernel-lookup :
      (dss : List DaemonSet) (found m : Dict DaemonSet) (k : String)
      → index_by_kernel kernel_label found dss ≡ ok m
      → lookup k m ≡ (if is_some (lookup k found) then lookup k found else find_ds k dss)
  unfolding index_by_kernel
  index_by_kernel-lookup [] found m k h = ground (arith, h)
  index_by_kernel-lookup (ds ∷ dss) found m k h = ground (
    arith,
    h,
    index_by_kernel-lookup dss (insert (kernel_of ds) ds found) m k,
    lookup-insert (kernel_of ds) k ds found,
    eq_iff (kernel_of ds) k,
  )

  index_by_kernel-is_ok :
      (dss : List DaemonSet) (found : Dict DaemonSet)
      → Distinct dss
      → ((k : String) → is_some (find_ds k dss) ≡ true → lookup k found ≡ none)
      → is_ok (index_by_kernel kernel_label found dss) ≡ true
  unfolding index_by_kernel
  index_by_kernel-is_ok [] found d h = refl
  index_by_kernel-is_ok (ds ∷ dss) found (d, ds') h =
      let k = kernel_of ds in
      let free : lookup k found ≡ none = h k (ground (arith, eq_refl k)) in
      ground (
        arith,
        free,
        index_by_kernel-is_ok dss (insert k ds found) ds'
            (λ j s. ground (arith, s, d, h j, lookup-insert k j ds found, eq_iff k j)),
      )

  -- Where no two DaemonSets are for the same kernel, the index is made, and every kernel has the
  -- DaemonSet that is listed for it and no other.
  pub index_by_kernel_lem :
      (dss : List DaemonSet)
      → Distinct dss
      → (m : Dict DaemonSet) × (index_by_kernel kernel_label [] dss ≡ ok m)
        × ((k : String) → lookup k m ≡ find_ds k dss)
  unfolding lookup
  index_by_kernel_lem dss d =
      made (index_by_kernel kernel_label [] dss) refl (index_by_kernel-is_ok dss [] d (λ k s. refl))
    where
      made :
          (r : Result (Dict DaemonSet))
          → index_by_kernel kernel_label [] dss ≡ r
          → is_ok r ≡ true
          → (m : Dict DaemonSet) × (index_by_kernel kernel_label [] dss ≡ ok m)
            × ((k : String) → lookup k m ≡ find_ds k dss)
      made (ok m) e h = (m, e, λ k. index_by_kernel-lookup dss [] m k e)
      made (err x) e h = ground (arith, h)
      made panic e h = ground (arith, h)
