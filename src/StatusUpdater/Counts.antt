-- ===== src/StatusUpdater/Counts.antt =====
-- `ModuleUpdateStatus`: the available DaemonSet pods are counted once each.
use rh_kernel_module_managem.Prelude.{
  pos, int32, signed32, signed32-int32, ℕ, ◌+◌, ◌<◌, ◌≡◌, refl, ◌==◌, List, [], ◌∷◌, arith, length,
  if◌then◌else◌, is_some, Bool-cases, inl, inr,
}
use rh_kernel_module_managem.Prelude.Dict.{Dict}
use rh_kernel_module_managem.Api.{DaemonSet, DaemonSetStatus, Node, Module}
use rh_kernel_module_managem.DaemonSets.{is_device_plugin_kernel_version}
use rh_kernel_module_managem.StatusUpdater.{count_available, module_status, daemon_set_status}

-- the pods of the device plugin, whose kernel version is empty, and those of the module loader
abbrev pub plugin_pods : Dict DaemonSet → ℕ
plugin_pods [] = 0
plugin_pods ((k, ds) ∷ rest) =
    if k == "" then ds.number_available + plugin_pods rest else plugin_pods rest

abbrev pub loader_pods : Dict DaemonSet → ℕ
loader_pods [] = 0
loader_pods ((k, ds) ∷ rest) =
    if k == "" then loader_pods rest else ds.number_available + loader_pods rest

int32_below : (n : ℕ) → n < 2147483648 → int32 n ≡ n
int32_below n h = omega arith

counted :
    (dss : Dict DaemonSet) (p l : ℕ)
    → p + plugin_pods dss < 2147483648
    → l + loader_pods dss < 2147483648
    → count_available dss (p, l) ≡ (p + plugin_pods dss, l + loader_pods dss)
unfolding count_available is_device_plugin_kernel_version
counted [] p l hp hl = ground arith
counted ((k, ds) ∷ rest) p l hp hl =
    let n = ds.number_available in
    elim (Bool-cases (k == "")) [
      | inl h ↦
          let below : p + n < 2147483648 = (ground (arith, h, hp)) in
          rw
            (
              h,
              int32_below (p + n) below,
              counted rest (p + n) l (ground (arith, h, hp)) (ground (arith, h, hl)),
            )
            (ground arith)
      | inr h ↦
          let below : l + n < 2147483648 = (ground (arith, h, hl)) in
          rw
            (
              h,
              int32_below (l + n) below,
              counted rest p (l + n) (ground (arith, h, hp)) (ground (arith, h, hl)),
            )
            (ground arith)
    ]

-- the part of a status where nothing has wrapped
abbrev pub exact_status : ℕ → ℕ → ℕ → DaemonSetStatus
exact_status matching desired available = record {
  nodes_matching_selector_number = pos matching;
  desired_number = pos desired;
  available_number = pos available;
}

-- Where the numbers are below 2 ^ 31, the module loader's part of the status has the nodes that are
-- targeted, those with a mapping, and each available pod of a DaemonSet with a kernel once; the
-- device plugin's part has the same nodes and each available pod of a DaemonSet without a kernel, if
-- the module has a device plugin, and else it stays as it was.
pub module_status_lem :
    (m : Module) (nodes targeted : List Node) (dss : Dict DaemonSet)
    → plugin_pods dss < 2147483648
    → loader_pods dss < 2147483648
    → length nodes < 2147483648
    → length targeted < 2147483648
    → let s = module_status m nodes targeted dss in
      (s.module_loader ≡ exact_status (length targeted) (length nodes) (loader_pods dss))
      × (s.device_plugin ≡ (
          if is_some m.spec.device_plugin
          then exact_status (length targeted) (length nodes) (plugin_pods dss)
          else m.status.device_plugin))
unfolding module_status daemon_set_status
module_status_lem m nodes targeted dss hp hl hn ht =
    let c : count_available dss (0, 0) ≡ (plugin_pods dss, loader_pods dss) =
      ground (arith, counted dss 0 0 (omega arith) (omega arith)) in
    let d = signed32-int32 (length nodes) hn in
    let t = signed32-int32 (length targeted) ht in
    let p : signed32 (plugin_pods dss) ≡ pos (plugin_pods dss) = ground arith in
    let l : signed32 (loader_pods dss) ≡ pos (loader_pods dss) = ground arith in
    rw (c, d, t, p, l) (refl, refl)
