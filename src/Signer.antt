-- ===== src/Signer.antt =====
-- internal/sign/job/signer.go: the job that signs the modules in an image.
pub mod Args
pub mod Volumes
pub mod Mounted
pub mod Template
pub mod Settles
use rh_kernel_module_managem.Prelude.{
  ℕ, String, Bool, true, false, Option, none, some, List, [], ◌∷◌, ◌++◌, if◌then◌else◌, ◌<>◌,
}
use rh_kernel_module_managem.Prelude.Dict.{Dict, lookup}
use rh_kernel_module_managem.Api.{
  Sign, PodSpec, Container, Job, Owner, ModuleLoaderData, Result, ok, err, panic, errorf, wrapv,
  wrap_err,
}
use rh_kernel_module_managem.Api.Errors.{◌>>=◌}
use rh_kernel_module_managem.CaHelper.{CaConfigMap}
use rh_kernel_module_managem.JobHelper.{job_hash_annotation}
use Args.{sign_args}
use Volumes.{trusted_ca_mount_path, sign_volumes, sign_volume_mounts}

-- What `ca.Helper` returns for a namespace, the secrets of service accounts, the data of secrets,
-- the hash of a template and of the keys, the printing of a number, the image of the signer, and
-- `controllerutil.SetControllerReference`.
pub record SignerEnv : Type 0 where
  pub get_cluster_ca : String → Result CaConfigMap
  pub get_service_ca : String → Result CaConfigMap
  pub get_service_account_secrets : String → String → Result (List String)
  pub get_secret : String → String → Result (Dict String)
  pub hash_template : PodSpec → String → String → Result ℕ
  pub print : ℕ → String
  pub related_images_sign : String
  pub set_controller_reference : Owner → Job → Result Job

module _ (env : SignerEnv) where
  unfoldable pub get_secret_data : String → String → String → Result String
  get_secret_data secret_name key ns = do
    data' ← wrap_err (wrapv "failed to get Secret") (env.get_secret ns secret_name)
    elim (lookup key data') [
      | none ↦ err (errorf "invalid Secret format, key is missing")
      | some value ↦ ok value
    ]

  unfoldable pub get_hash_value : PodSpec → String → String → Result ℕ
  get_hash_value template public_key private_key =
      wrap_err (wrapv "could not hash job's spec template and dockefile")
        (env.hash_template template public_key private_key)

  unfoldable pub get_hash_annotation_value : String → String → String → PodSpec → Result ℕ
  unfolding get_secret_data get_hash_value
  get_hash_annotation_value private_secret public_secret ns template = do
    private_key ←
        wrap_err (wrapv "failed to get private secret for signing")
          (get_secret_data private_secret "key" ns)
    public_key ←
        wrap_err (wrapv "failed to get public secret for signing")
          (get_secret_data public_secret "cert" ns)
    get_hash_value template public_key private_key

  -- The names of the two secrets are read through their pointers.
  unfoldable pub template_hash : Sign → String → PodSpec → Result ℕ
  unfolding get_hash_annotation_value
  template_hash sign ns template = elim sign.key_secret [
    | none ↦ panic
    | some key ↦ elim sign.cert_secret [
      | none ↦ panic
      | some cert ↦ get_hash_annotation_value key cert ns template
    ]
  ]

  unfoldable pub get_sa_image_repo_secret : ModuleLoaderData → String → Result (List String)
  get_sa_image_repo_secret mld account_name =
      env.get_service_account_secrets mld.namespace account_name

  unfoldable pub spec_template :
      ModuleLoaderData → Sign → List String → CaConfigMap → CaConfigMap → List String → PodSpec
  unfolding sign_volumes sign_volume_mounts
  spec_template mld sign args cluster_ca service_ca builder_secrets = record {
    containers =
        record {
          name = "signimage";
          image = env.related_images_sign;
          image_pull_policy = "";
          command = [];
          args = args;
          env = ("SSL_CERT_DIR", trusted_ca_mount_path) ∷ [];
          resources = "";
          post_start = [];
          pre_stop = [];
          security_context = none;
          volume_mounts = sign_volume_mounts sign mld.image_repo_secret builder_secrets;
        }
        ∷ [];
    image_pull_secrets = [];
    node_selector = mld.selector;
    priority_class_name = "";
    restart_policy = "Never";
    service_account_name = "";
    volumes = sign_volumes sign cluster_ca service_ca mld.image_repo_secret builder_secrets;
  }

  unfoldable pub job_object : ModuleLoaderData → Dict String → PodSpec → ℕ → Job
  job_object mld labels template hash = record {
    name = "";
    generate_name = mld.name <> "-sign-";
    namespace = mld.namespace;
    labels = labels;
    annotations = some ((job_hash_annotation, env.print hash) ∷ []);
    controller = none;
    completions = 1;
    backoff_limit = 0;
    template = template;
    succeeded = 0;
    active = 0;
    failed = 0;
  }

  -- the hash, the object and its owner
  unfoldable pub finish : ModuleLoaderData → Sign → Dict String → Owner → PodSpec → Result Job
  finish mld sign labels owner template = do
    hash ←
        wrap_err (wrapv "could not hash job's definitions")
          (template_hash sign mld.namespace template)
    wrap_err (wrapv "could not set the owner reference")
        (env.set_controller_reference owner (job_object mld labels template hash))

  unfoldable pub make_template :
      ModuleLoaderData → Sign → Dict String → String → Bool → Owner → Result Job
  make_template mld sign labels image_to_sign push_image owner = do
    args ← sign_args mld sign image_to_sign push_image
    cluster_ca ←
        wrap_err (wrapv "could not get the cluster CA ConfigMap") (env.get_cluster_ca mld.namespace)
    service_ca ←
        wrap_err (wrapv "could not get the serving CA ConfigMap") (env.get_service_ca mld.namespace)
    builder_secrets ←
        wrap_err (wrapv "Failed to get secrets for service account")
          (get_sa_image_repo_secret mld "builder")
    finish mld sign labels owner (
        spec_template mld sign (args ++ ("-secretdir" ∷ "/docker_config/" ∷ [])) cluster_ca
          service_ca builder_secrets)

  -- Without signing settings every path reads through the nil pointer before anything can fail.
  unfoldable pub make_job_template :
      ModuleLoaderData → Dict String → String → Bool → Owner → Result Job
  unfolding make_template
  make_job_template mld labels image_to_sign push_image owner = elim mld.sign [
    | none ↦ panic
    | some sign ↦ make_template mld sign labels image_to_sign push_image owner
  ]
