-- ===== src/Signer/Volumes.antt =====
-- The volumes of the signing pod, and where its container mounts them.
use rh_kernel_module_managem.Prelude.{String, true, Option, none, some, List, [], ◌∷◌, ◌++◌, ◌<>◌}
use rh_kernel_module_managem.Api.{Sign, Volume, VolumeMount, projected, LocalObjectReference}
use rh_kernel_module_managem.CaHelper.{CaConfigMap}
use rh_kernel_module_managem.SecretVolumes.{make_secret_volume, make_secret_volume_mount}

abbrev pub trusted_ca_mount_path : String
trusted_ca_mount_path = "/etc/pki/ca-trust/extracted/pem"

abbrev pub trusted_ca_volume_name : String
trusted_ca_volume_name = "trusted-ca"

unfoldable pub trusted_ca_volume : CaConfigMap → CaConfigMap → Volume
trusted_ca_volume cluster_ca service_ca = record {
  name = trusted_ca_volume_name;
  source = projected (
      (cluster_ca.name, record { key = cluster_ca.key_name; path = "tls-ca-bundle.pem" })
      ∷ (service_ca.name, record { key = service_ca.key_name; path = "ocp-service-ca-bundle.pem" })
      ∷ []);
}

-- The secret of the image's repository, and those of the service account that builds.
unfoldable pub image_secret_volume : Option LocalObjectReference → List Volume
unfolding make_secret_volume
image_secret_volume none = []
image_secret_volume (some name) = make_secret_volume (some name) "" "" ∷ []

unfoldable pub image_secret_mount : Option LocalObjectReference → List VolumeMount
unfolding make_secret_volume_mount
image_secret_mount none = []
image_secret_mount (some name) =
    make_secret_volume_mount (some name) ("/docker_config/" <> name) ∷ []

unfoldable pub builder_secret_volumes : List String → List Volume
unfolding make_secret_volume
builder_secret_volumes [] = []
builder_secret_volumes (name ∷ names) =
    make_secret_volume (some name) "" "" ∷ builder_secret_volumes names

unfoldable pub builder_secret_mounts : List String → List VolumeMount
unfolding make_secret_volume_mount
builder_secret_mounts [] = []
builder_secret_mounts (name ∷ names) =
    make_secret_volume_mount (some name) ("/docker_config/builder/" <> name)
    ∷ builder_secret_mounts names

unfoldable pub sign_volumes :
    Sign → CaConfigMap → CaConfigMap → Option LocalObjectReference → List String → List Volume
unfolding make_secret_volume trusted_ca_volume image_secret_volume builder_secret_volumes
sign_volumes sign cluster_ca service_ca image_secret builder_secrets =
    (make_secret_volume sign.key_secret "key" "key.priv"
      ∷ make_secret_volume sign.cert_secret "cert" "public.der"
      ∷ trusted_ca_volume cluster_ca service_ca
      ∷ [])
    ++ image_secret_volume image_secret
    ++ builder_secret_volumes builder_secrets

unfoldable pub sign_volume_mounts :
    Sign → Option LocalObjectReference → List String → List VolumeMount
unfolding make_secret_volume_mount image_secret_mount builder_secret_mounts
sign_volume_mounts sign image_secret builder_secrets =
    (make_secret_volume_mount sign.cert_secret "/signingcert"
      ∷ make_secret_volume_mount sign.key_secret "/signingkey"
      ∷ record {
        name = trusted_ca_volume_name;
        read_only = true;
        mount_path = trusted_ca_mount_path;
      }
      ∷ [])
    ++ image_secret_mount image_secret
    ++ builder_secret_mounts builder_secrets
