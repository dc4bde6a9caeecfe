-- ===== src/SecretVolumes.antt =====
-- internal/utils/volume_helper.go: the volume of a secret, and where it is mounted.
use rh_kernel_module_managem.Prelude.{
  String, false, true, ◌==◌, Option, none, some, [], ◌∷◌, if◌then◌else◌, ◌<>◌,
}
use rh_kernel_module_managem.Api.{Volume, VolumeMount, secret, no_source, LocalObjectReference}

unfoldable pub volume_name_from_secret_ref : LocalObjectReference → String
volume_name_from_secret_ref ref = "secret-" <> ref

unfoldable pub make_secret_volume : Option LocalObjectReference → String → String → Volume
unfolding volume_name_from_secret_ref
make_secret_volume none key path = record { name = ""; source = no_source }
make_secret_volume (some ref) key path = record {
  name = volume_name_from_secret_ref ref;
  source = secret ref (if key == "" then [] else record { key = key; path = path } ∷ []);
}

unfoldable pub make_secret_volume_mount : Option LocalObjectReference → String → VolumeMount
unfolding volume_name_from_secret_ref
make_secret_volume_mount none mount_path = record { name = ""; read_only = false; mount_path = "" }
make_secret_volume_mount (some ref) mount_path = record {
  name = volume_name_from_secret_ref ref;
  read_only = true;
  mount_path = mount_path;
}
