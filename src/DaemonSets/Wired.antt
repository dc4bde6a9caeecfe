-- ===== src/DaemonSets/Wired.antt =====
-- The DaemonSets that are filled in fit together: labels, selectors, mounts and volumes.
use rh_kernel_module_managem.Prelude.{
  [], ◌∷◌, All-append, String, ◌≡◌, refl, ap, ◌∙◌, Bool, true, false, ◌==◌, some, List, arith, mem,
  All, eq_refl, map, Bool-cases, inl, inr,
}
use rh_kernel_module_managem.Prelude.Dict.{Dict, lookup, insert, lookup-insert}
use rh_kernel_module_managem.Api.{
  host_path, directory, VolumeMount, Module, DevicePluginSpec, DaemonSet, DaemonSetSpec, Container,
  Volume, ModuleLoaderData, Owner, Result, ok,
}
use rh_kernel_module_managem.KernelMapper.{owner_of}
use rh_kernel_module_managem.DaemonSets.{
  module_name_label, override_labels, is_device_plugin_daemon_set, label_of,
}
use rh_kernel_module_managem.DaemonSets.Desired.{
  device_plugin_container, device_plugin_spec, set_device_plugin_as_desired, driver_labels,
  driver_container, driver_volumes, driver_spec, set_driver_container_as_desired,
  copy_map_string_string, with_spec,
}

-- Every volume that the container mounts is a volume of the pod.
abbrev pub IsMounted : List Volume → Container → Type 0
IsMounted volumes c = All (λ m. mem m.name (map (λ v. v.name) volumes) ≡ true) c.volume_mounts

module _ (kernel_label : String) (mld : ModuleLoaderData) where
  -- What the DaemonSet of a kernel has to be.
  pub record IsForKernel (ds : DaemonSet) : Type 0 where
    pub spec : DaemonSetSpec
    pub is_spec : ds.spec ≡ some spec
    pub labelled : label_of kernel_label ds.labels ≡ mld.kernel_version
    pub not_plugin : is_device_plugin_daemon_set kernel_label ds ≡ false
    pub selects_its_pods : spec.selector ≡ spec.template_labels
    pub on_kernel : label_of kernel_label spec.pod.node_selector ≡ mld.kernel_version
    pub mounts : All (IsMounted spec.pod.volumes) spec.pod.containers

  mounted : IsMounted (driver_volumes mld) (driver_container mld)
  unfolding driver_volumes driver_container
  mounted = elim (Bool-cases (mld.modprobe.firmware_path == "")) [
    | inl h ↦ rw h (refl, tt)
    | inr h ↦ rw h (refl, (ground (arith, h), tt))
  ]

  label_inserted : (k v : String) (m : Dict String) → label_of k (insert k v m) ≡ v
  label_inserted k v m = rw (lookup-insert k k v m, eq_refl k) refl

  label_overridden :
      (labels : Dict String)
      → (module_name_label == kernel_label) ≡ false
      → label_of kernel_label (override_labels labels (driver_labels kernel_label mld))
        ≡ mld.kernel_version
  unfolding override_labels driver_labels insert
  label_overridden labels h =
      rw h
        (label_inserted kernel_label mld.kernel_version (insert module_name_label mld.name labels))

  -- `metav1.SetControllerReference` leaves the labels and the spec as they are.
  abbrev pub KeepsDesired : (Owner → DaemonSet → Result DaemonSet) → Type 0
  KeepsDesired set =
      (o : Owner) (ds ds' : DaemonSet)
      → set o ds ≡ ok ds'
      → (ds'.labels ≡ ds.labels) × (ds'.spec ≡ ds.spec)

  -- It succeeds only with a kernel version, by what `set_controller_reference` answers.
  set_up :
      (set : Owner → DaemonSet → Result DaemonSet) (use_default_sa : Bool) (ds ds' : DaemonSet)
      → set_driver_container_as_desired set kernel_label (some ds) mld use_default_sa ≡ ok ds'
      → ((mld.kernel_version == "") ≡ false)
        × (set mld.owner (
              with_spec ds
                (override_labels ds.labels (driver_labels kernel_label mld))
                (driver_spec kernel_label mld use_default_sa))
            ≡ ok ds')
  unfolding set_driver_container_as_desired
  set_up set use_default_sa ds ds' h = (ground (arith, h), ground (arith, h))

  -- Whatever labels the DaemonSet had, the one that is set up carries its kernel as label and as node
  -- selector, so that it is not taken for a device plugin; it selects its own pods and mounts no
  -- volume that it lacks.
  pub set_driver_container_lem :
      (set : Owner → DaemonSet → Result DaemonSet) (use_default_sa : Bool) (ds ds' : DaemonSet)
      → KeepsDesired set
      → (module_name_label == kernel_label) ≡ false
      → set_driver_container_as_desired set kernel_label (some ds) mld use_default_sa ≡ ok ds'
      → IsForKernel ds'
  unfolding set_driver_container_as_desired driver_spec is_device_plugin_daemon_set lookup
  set_driver_container_lem set use_default_sa ds ds' keeps differ h =
      let (n, o) = set_up set use_default_sa ds ds' h in
      let (l, s) = keeps mld.owner _ ds' o in
      let label = ap (label_of kernel_label) l ∙ label_overridden ds.labels differ in
      record {
        spec = driver_spec kernel_label mld use_default_sa;
        is_spec = s;
        labelled = label;
        not_plugin = ap (λ x. x == "") label ∙ n;
        selects_its_pods = refl;
        on_kernel =
            label_inserted kernel_label mld.kernel_version (copy_map_string_string mld.selector);
        mounts = (mounted, tt);
      }

-- What the DaemonSet of a device plugin has to be.
pub record IsForPlugin (kernel_label : String) (ds : DaemonSet) : Type 0 where
  pub spec : DaemonSetSpec
  pub is_spec : ds.spec ≡ some spec
  pub plugin : is_device_plugin_daemon_set kernel_label ds ≡ true
  pub selects_its_pods : spec.selector ≡ spec.template_labels
  pub mounts : All (IsMounted spec.pod.volumes) spec.pod.containers

module _ (kernel_label : String) (plugin : DevicePluginSpec) where
  -- Every volume that the plugin mounts is one of its own.
  abbrev pub OwnMounts : Type 0
  OwnMounts =
      All (λ m. mem m.name (map (λ v. v.name) plugin.volumes) ≡ true) plugin.container.volume_mounts

  widen :
      (v : Volume) (vs : List Volume) (ms : List VolumeMount)
      → All (λ m. mem m.name (map (λ v. v.name) vs) ≡ true) ms
      → All (λ m. mem m.name (map (λ v. v.name) (v ∷ vs)) ≡ true) ms
  widen v vs [] h = tt
  widen v vs (m ∷ ms) (p, h) = (ground (arith, p), widen v vs ms h)

  plugin-IsMounted :
      (m : Module) (use_default_sa : Bool)
      → OwnMounts
      → IsMounted
          (device_plugin_spec m plugin use_default_sa).pod.volumes
          (device_plugin_container plugin)
  unfolding device_plugin_spec device_plugin_container
  plugin-IsMounted m use_default_sa own =
      All-append _ plugin.container.volume_mounts _
        (widen
          (record {
            name = "kubelet-device-plugins";
            source = host_path "/var/lib/kubelet/device-plugins" directory;
          })
          plugin.volumes _ own)
        (refl, tt)

  other_label :
      (labels : Dict String) (v : String)
      → (module_name_label == kernel_label) ≡ false
      → label_of kernel_label (override_labels labels ((module_name_label, v) ∷ []))
        ≡ label_of kernel_label labels
  unfolding override_labels
  other_label labels v differ =
      rw (lookup-insert module_name_label kernel_label v labels, differ) refl

  plugin_set_up :
      (set : Owner → DaemonSet → Result DaemonSet) (m : Module) (use_default_sa : Bool)
      (ds ds' : DaemonSet)
      → m.spec.device_plugin ≡ some plugin
      → set_device_plugin_as_desired set (some ds) m use_default_sa ≡ ok ds'
      → set (owner_of m) (
          with_spec ds
            (override_labels ds.labels ((module_name_label, m.name) ∷ []))
            (device_plugin_spec m plugin use_default_sa))
        ≡ ok ds'
  unfolding set_device_plugin_as_desired
  plugin_set_up set m use_default_sa ds ds' p h = ground (arith, p, h)

  -- Where the DaemonSet had no kernel as label and the plugin mounts only volumes of its own, the one
  -- that is set up is still taken for a device plugin, selects its own pods, and mounts no volume
  -- that it lacks.
  pub set_device_plugin_lem :
      (set : Owner → DaemonSet → Result DaemonSet) (m : Module) (use_default_sa : Bool)
      (ds ds' : DaemonSet)
      → ((o : Owner) (d d' : DaemonSet)
          → set o d ≡ ok d'
          → (d'.labels ≡ d.labels) × (d'.spec ≡ d.spec))
      → (module_name_label == kernel_label) ≡ false
      → m.spec.device_plugin ≡ some plugin
      → OwnMounts
      → is_device_plugin_daemon_set kernel_label ds ≡ true
      → set_device_plugin_as_desired set (some ds) m use_default_sa ≡ ok ds'
      → IsForPlugin kernel_label ds'
  unfolding set_device_plugin_as_desired is_device_plugin_daemon_set device_plugin_spec lookup
  set_device_plugin_lem set m use_default_sa ds ds' keeps differ p own was h =
      let (l, s) = keeps _ _ ds' (plugin_set_up set m use_default_sa ds ds' p h) in
      record {
        spec = device_plugin_spec m plugin use_default_sa;
        is_spec = s;
        plugin =
            ap (λ x. label_of kernel_label x == "") l
            ∙ ap (λ x. x == "") (other_label ds.labels m.name differ)
            ∙ was;
        selects_its_pods = refl;
        mounts = (plugin-IsMounted m use_default_sa own, tt);
      }
