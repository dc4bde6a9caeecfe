-- ===== src/DaemonSets/Collect.antt =====
-- `GarbageCollect`: which DaemonSets are deleted.
use rh_kernel_module_managem.Prelude.{
  String, ◌≡◌, refl, true, false, not, ◌&&◌, none, Option, List, [], ◌∷◌, arith, mem, map,
  if◌then◌else◌, append-nil, In, inl, inr, Bool-cases,
}
use rh_kernel_module_managem.Prelude.Dict.{Dict}
use rh_kernel_module_managem.Api.{DaemonSet, Error, ok}
use rh_kernel_module_managem.Api.Calls.{Call, delete_ds, ◌>>=◌}
use rh_kernel_module_managem.Api.Calls.Makes.{
  Makes, Makes-mono, Makes-bind, Makes-wrapping, Makes-call, Makes-pure, makes_rules,
}
use rh_kernel_module_managem.DaemonSets.{is_device_plugin_daemon_set, garbage_collect}

abbrev pub names : List DaemonSet → List String
names dss = map (λ ds. ds.name) dss

module _ (kernel_label : String) (valid_kernels : List String) where
  -- The DaemonSet drives a kernel that is not valid any more.
  abbrev pub IsStale : String × DaemonSet → Type 0
  IsStale e =
      (is_device_plugin_daemon_set kernel_label e.1 ≡ false) × (mem e.0 valid_kernels ≡ false)

  abbrev pub stale : Dict DaemonSet → List DaemonSet
  stale [] = []
  stale ((k, ds) ∷ m) =
      if not (is_device_plugin_daemon_set kernel_label ds) && not (mem k valid_kernels)
      then ds ∷ stale m
      else stale m

  -- The call deletes a stale one of the DaemonSets.
  abbrev pub DeletesStale : Dict DaemonSet → Call → Type 0
  DeletesStale existing c =
      (e : String × DaemonSet) × In e existing × IsStale e × (c ≡ delete_ds e.1)

  module _ (answer : DaemonSet → Option Error) where
    weaken :
        (e : String × DaemonSet) (m : Dict DaemonSet) (c : Call)
        → DeletesStale m c
        → DeletesStale (e ∷ m) c
    weaken e m c (x, i, s, q) = (x, inr i, s, q)

    deletes :
        (k : String) (ds : DaemonSet) (m : Dict DaemonSet)
        → (not (is_device_plugin_daemon_set kernel_label ds) && not (mem k valid_kernels)) ≡ true
        → DeletesStale ((k, ds) ∷ m) (delete_ds ds)
    deletes k ds m h = ((k, ds), inl refl, ground (arith, h), refl)

    -- Whatever the cluster answers, only stale DaemonSets are deleted: never one of the device
    -- plugin, and never one of a valid kernel.
    pub garbage_collect-DeletesStale :
        (existing : Dict DaemonSet)
        → Makes (DeletesStale existing) (garbage_collect kernel_label answer existing valid_kernels)
    unfolding garbage_collect
    garbage_collect-DeletesStale [] = search makes_rules
    garbage_collect-DeletesStale ((k, ds) ∷ m) =
        let rest =
          Makes-mono (garbage_collect kernel_label answer m valid_kernels) (weaken (k, ds) m)
            (garbage_collect-DeletesStale m) in
        elim (Bool-cases
          (not (is_device_plugin_daemon_set kernel_label ds) && not (mem k valid_kernels))) [
            | inl t ↦ rw t (
                Makes-bind _ _ (Makes-wrapping _ _ (Makes-call _ _ (deletes k ds m t)))
                  (λ _. Makes-bind _ _ rest (λ deleted. Makes-pure _)))
            | inr f ↦ rw f rest
          ]

  -- If the cluster deletes what it is asked to, every stale DaemonSet is deleted, in their order,
  -- and the result is their names.
  pub garbage_collect_all :
      (existing : Dict DaemonSet)
      → garbage_collect kernel_label (λ _. none) existing valid_kernels
        ≡ (ok (names (stale existing)), map delete_ds (stale existing))
  unfolding garbage_collect ◌>>=◌
  garbage_collect_all [] = refl
  garbage_collect_all ((k, ds) ∷ m) =
      elim (Bool-cases
        (not (is_device_plugin_daemon_set kernel_label ds) && not (mem k valid_kernels))) [
          | inl t ↦ rw (t, garbage_collect_all m, append-nil (map delete_ds (stale m))) refl
          | inr f ↦ rw f (garbage_collect_all m)
        ]
