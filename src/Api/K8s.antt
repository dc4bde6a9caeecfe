-- ===== src/Api/K8s.antt =====
-- The Kubernetes and OpenShift objects, with the fields that the program reads or writes. These
-- types belong to k8s.io/api and github.com/openshift/api, and have no line of the program. The
-- controller of an object is the UID of its controlling owner.
use rh_kernel_module_managem.Prelude.{ℕ, String, Bool, Option, List}
use rh_kernel_module_managem.Prelude.Dict.{Dict}

pub record VolumeMount : Type 0 where
  pub name : String
  pub read_only : Bool
  pub mount_path : String

pub record KeyToPath : Type 0 where
  pub key : String
  pub path : String

pub data HostPathType : Type 0 where
  directory directory_or_create : HostPathType

-- `no_source` is the zero value.
pub data VolumeSource : Type 0 where
  no_source : VolumeSource
  host_path : String → HostPathType → VolumeSource
  secret : String → List KeyToPath → VolumeSource
  projected : List (String × KeyToPath) → VolumeSource

pub record Volume : Type 0 where
  pub name : String
  pub source : VolumeSource

pub record SecurityContext : Type 0 where
  pub allow_privilege_escalation : Option Bool
  pub capabilities : List String
  pub privileged : Option Bool
  pub run_as_user : Option ℕ
  pub se_linux_type : String

pub record Container : Type 0 where
  pub name : String
  pub image : String
  pub image_pull_policy : String
  pub command : List String
  pub args : List String
  pub env : List (String × String)
  pub resources : String
  pub post_start : List String
  pub pre_stop : List String
  pub security_context : Option SecurityContext
  pub volume_mounts : List VolumeMount

pub record PodSpec : Type 0 where
  pub containers : List Container
  pub image_pull_secrets : List String
  pub node_selector : Dict String
  pub priority_class_name : String
  pub restart_policy : String
  pub service_account_name : String
  pub volumes : List Volume

pub record DaemonSetSpec : Type 0 where
  pub selector : Dict String
  pub template_labels : Dict String
  pub finalizers : List String
  pub pod : PodSpec

pub record DaemonSet : Type 0 where
  pub name : String
  pub generate_name : String
  pub namespace : String
  pub labels : Dict String
  pub controller : Option String
  pub spec : Option DaemonSetSpec
  pub number_available : ℕ  -- an int32, which is never negative

pub record Job : Type 0 where
  pub name : String
  pub generate_name : String
  pub namespace : String
  pub labels : Dict String
  pub annotations : Option (Dict String)
  pub controller : Option String
  pub completions : ℕ
  pub backoff_limit : ℕ
  pub template : PodSpec
  pub succeeded : ℕ
  pub active : ℕ
  pub failed : ℕ

pub data BuildPhase : Type 0 where
  new pending running complete failed error cancelled : BuildPhase
  other : String → BuildPhase

-- buildv1.Build
pub record OcpBuild : Type 0 where
  pub name : String
  pub generate_name : String
  pub namespace : String
  pub labels : Dict String
  pub annotations : Option (Dict String)
  pub controller : Option String
  pub service_account : String
  pub dockerfile : String
  pub build_args : List (String × String)
  pub volumes : List (Volume × String)
  pub output : Option (String × Option String)
  pub node_selector : Dict String
  pub mount_trusted_ca : Bool
  pub phase : BuildPhase

pub record Node : Type 0 where
  pub name : String
  pub labels : Dict String
  pub taint_effects : List String
  pub kernel_version : String
  pub os_image : String

pub record Pod : Type 0 where
  pub name : String
  pub namespace : String
  pub labels : Dict String
  pub finalizers : List String
  pub node_name : String
  pub ready : Bool
  pub deleting : Bool
