-- ===== src/Api/Resource.antt =====
-- api/v1beta1 and api-hub/v1beta1: the custom resources and their status, and internal/api's
-- ModuleLoaderData.
use rh_kernel_module_managem.Prelude.{ℕ, ℤ, String, Bool, Option, List}
use rh_kernel_module_managem.Prelude.Dict.{Dict}
use rh_kernel_module_managem.Api.Spec.{
  LocalObjectReference, Build, Sign, ModprobeSpec, TlsOptions, ModuleSpec,
}

-- what `metav1.Object` shows of an owner
pub record Owner : Type 0 where
  pub name : String
  pub namespace : String
  pub uid : String

pub record DaemonSetStatus : Type 0 where
  pub nodes_matching_selector_number : ℤ
  pub desired_number : ℤ
  pub available_number : ℤ

pub record ModuleStatus : Type 0 where
  pub device_plugin : DaemonSetStatus
  pub module_loader : DaemonSetStatus

pub record Module : Type 0 where
  pub name : String
  pub namespace : String
  pub uid : String
  pub deleting : Bool
  pub spec : ModuleSpec
  pub status : ModuleStatus

pub record ModuleLoaderData : Type 0 where
  pub kernel_version : String
  pub image_repo_secret : Option LocalObjectReference
  pub selector : Dict String
  pub name : String
  pub namespace : String
  pub service_account_name : String
  pub build : Option Build
  pub sign : Option Sign
  pub container_image : String
  pub image_pull_policy : String
  pub modprobe : ModprobeSpec
  pub registry_tls : TlsOptions
  pub owner : Owner

pub data VerificationStatus : Type 0 where
  verification_true verification_false : VerificationStatus

pub data VerificationStage : Type 0 where
  stage_image stage_build stage_sign stage_requeued stage_done : VerificationStage

pub record CrStatus : Type 0 where
  pub verification_status : VerificationStatus
  pub status_reason : String
  pub verification_stage : VerificationStage
  pub last_transition_time : ℕ

pub record PreflightValidation : Type 0 where
  pub name : String
  pub namespace : String
  pub uid : String
  pub kernel_version : String
  pub push_built_image : Bool
  pub cr_statuses : Dict CrStatus

pub record PreflightValidationOcpSpec : Type 0 where
  pub release_image : String
  pub use_rt_kernel : Bool
  pub push_built_image : Bool

-- Its status is that of a PreflightValidation.
pub record PreflightValidationOcp : Type 0 where
  pub name : String
  pub namespace : String
  pub uid : String
  pub spec : PreflightValidationOcpSpec
  pub cr_statuses : Dict CrStatus

pub record ManagedClusterModuleStatus : Type 0 where
  pub number_desired : ℤ
  pub number_applied : ℤ
  pub number_degraded : ℤ

pub record ManagedClusterModule : Type 0 where
  pub name : String
  pub uid : String
  pub module_spec : ModuleSpec
  pub spoke_namespace : String
  pub selector : Dict String
  pub status : ManagedClusterModuleStatus

pub record ManagedCluster : Type 0 where
  pub name : String
  pub labels : Dict String
  pub cluster_claims : List (String × String)

-- workv1.ManifestWork: the Module in its workload, and its status conditions as type and status
pub record ManifestWork : Type 0 where
  pub name : String
  pub namespace : String
  pub labels : Dict String
  pub controller : Option String
  pub workload : List Module
  pub json_paths : List (String × String)
  pub conditions : List (String × String)
