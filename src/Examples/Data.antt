-- ===== src/Examples/Data.antt =====
-- A module with one mapping, its data on a kernel, and objects of the cluster.
use rh_kernel_module_managem.Prelude.{
  pos, String, Bool, false, ◌==◌, Option, none, some, List, [], ◌∷◌,
}
use rh_kernel_module_managem.Api.{
  Build, TlsOptions, KernelMapping, ModprobeSpec, Module, ModuleLoaderData, Owner, DaemonSet,
  PodSpec, Job, OcpBuild, BuildPhase, Node, Result, ok,
}

abbrev pub strict_tls : TlsOptions
strict_tls = record { insecure = false; insecure_skip_tls_verify = false }

abbrev pub module_build : Build
module_build = record {
  build_args = record { name = "CC"; value = "gcc" } ∷ record { name = "OPT"; value = "2" } ∷ [];
  dockerfile_config_map = some "dockerfile";
  base_image_registry_tls = strict_tls;
  secrets = "pull" ∷ [];
  kaniko_params = none;
}

abbrev pub mapping_build : Build
mapping_build = record {
  build_args = record { name = "OPT"; value = "3" } ∷ record { name = "ARCH"; value = "x86" } ∷ [];
  dockerfile_config_map = none;
  base_image_registry_tls = strict_tls;
  secrets = "mapping" ∷ [];
  kaniko_params = none;
}

abbrev pub kernel : String
kernel = "5.14.0-70"

abbrev pub other_mapping : KernelMapping
other_mapping = record {
  build = none;
  sign = none;
  container_image = "quay.io/org/other";
  literal = "4.18.0-1";
  registry_tls = none;
  regexp = "";
}

abbrev pub mapping : KernelMapping
mapping = record {
  build = some mapping_build;
  sign = none;
  container_image = "";
  literal = "";
  registry_tls = none;
  regexp = "5.14.0-70";
}

abbrev pub modprobe : ModprobeSpec
modprobe = record {
  module_name = "kmm_ci";
  parameters = [];
  dir_name = "/opt";
  args = none;
  raw_args = none;
  firmware_path = "/firmware";
}

abbrev pub kmod : Module
kmod = record {
  name = "kmod";
  namespace = "ns";
  uid = "uid-1";
  deleting = false;
  spec = record {
    device_plugin = none;
    module_loader = record {
      container = record {
        build = some module_build;
        sign = none;
        container_image = "quay.io/org/kmod";
        image_pull_policy = "Always";
        kernel_mappings = other_mapping ∷ mapping ∷ [];
        modprobe = modprobe;
        registry_tls = strict_tls;
      };
      service_account_name = "";
    };
    image_repo_secret = none;
    selector = ("role", "worker") ∷ [];
  };
  status = record {
    device_plugin = record {
      nodes_matching_selector_number = pos 0;
      desired_number = pos 0;
      available_number = pos 0;
    };
    module_loader = record {
      nodes_matching_selector_number = pos 0;
      desired_number = pos 0;
      available_number = pos 0;
    };
  };
}

-- every template has the same value
abbrev pub parse : List String → String → Result String
parse env t = ok t

abbrev pub match_string : String → String → Result Bool
match_string re s = ok (re == s)

abbrev pub owner : Owner
owner = record { name = "kmod"; namespace = "ns"; uid = "uid-1" }

-- the data of a module with the build `b`
abbrev pub data_with : Option Build → ModuleLoaderData
data_with b = record {
  kernel_version = kernel;
  image_repo_secret = none;
  selector = ("role", "worker") ∷ [];
  name = "kmod";
  namespace = "ns";
  service_account_name = "";
  build = b;
  sign = none;
  container_image = "quay.io/org/kmod";
  image_pull_policy = "";
  modprobe = modprobe;
  registry_tls = strict_tls;
  owner = owner;
}

abbrev pub ds_of : String → String → DaemonSet
ds_of name kernel_version = record {
  name = name;
  generate_name = "";
  namespace = "ns";
  labels = ("kernel", kernel_version) ∷ [];
  controller = none;
  spec = none;
  number_available = 2;
}

abbrev pub no_pod : PodSpec
no_pod = record {
  containers = [];
  image_pull_secrets = [];
  node_selector = [];
  priority_class_name = "";
  restart_policy = "";
  service_account_name = "";
  volumes = [];
}

abbrev pub job_with : String → String → Job
job_with name hash = record {
  name = name;
  generate_name = "";
  namespace = "ns";
  labels =
      ("kmm.node.kubernetes.io/module.name", "kmod")
      ∷ ("kmm.node.kubernetes.io/job-type", "sign")
      ∷ ("kmm.node.kubernetes.io/target-kernel", "5.14.0-70")
      ∷ [];
  annotations = some (("kmm.node.kubernetes.io/last-hash", hash) ∷ []);
  controller = some "uid-1";
  completions = 1;
  backoff_limit = 0;
  template = no_pod;
  succeeded = 0;
  active = 1;
  failed = 0;
}

abbrev pub build_with : String → BuildPhase → OcpBuild
build_with hash phase = record {
  name = "build";
  generate_name = "";
  namespace = "ns";
  labels = [];
  annotations = some (("kmm.node.kubernetes.io/last-hash", hash) ∷ []);
  controller = some "uid-1";
  service_account = "";
  dockerfile = "FROM scratch";
  build_args = [];
  volumes = [];
  output = none;
  node_selector = [];
  mount_trusted_ca = false;
  phase = phase;
}

abbrev pub node_on : String → Node
node_on kernel_version = record {
  name = "node";
  labels = [];
  taint_effects = [];
  kernel_version = kernel_version;
  os_image = "";
}
