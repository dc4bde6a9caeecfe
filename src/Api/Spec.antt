-- ===== src/Api/Spec.antt =====
-- api/v1beta1/module_types.go: what a Module asks for. A reference to an object of the same
-- namespace has one field, the name, and is that name.
use rh_kernel_module_managem.Prelude.{String, Bool, Option, List}
use rh_kernel_module_managem.Prelude.Dict.{Dict}
use rh_kernel_module_managem.Api.K8s.{VolumeMount, Volume}

abbrev pub LocalObjectReference : Type 0
LocalObjectReference = String

pub record BuildArg : Type 0 where
  pub name : String
  pub value : String

pub record TlsOptions : Type 0 where
  pub insecure : Bool
  pub insecure_skip_tls_verify : Bool

pub record KanikoParams : Type 0 where
  pub tag : String

pub record Build : Type 0 where
  pub build_args : List BuildArg
  pub dockerfile_config_map : Option LocalObjectReference
  pub base_image_registry_tls : TlsOptions
  pub secrets : List LocalObjectReference
  pub kaniko_params : Option KanikoParams

pub record Sign : Type 0 where
  pub unsigned_image : String
  pub unsigned_image_registry_tls : TlsOptions
  pub key_secret : Option LocalObjectReference
  pub cert_secret : Option LocalObjectReference
  pub files_to_sign : List String

pub record KernelMapping : Type 0 where
  pub build : Option Build
  pub sign : Option Sign
  pub container_image : String
  pub literal : String
  pub registry_tls : Option TlsOptions
  pub regexp : String

pub record ModprobeArgs : Type 0 where
  pub load : List String
  pub unload : List String

pub record ModprobeSpec : Type 0 where
  pub module_name : String
  pub parameters : List String
  pub dir_name : String
  pub args : Option ModprobeArgs
  pub raw_args : Option ModprobeArgs
  pub firmware_path : String

pub record ModuleLoaderContainerSpec : Type 0 where
  pub build : Option Build
  pub sign : Option Sign
  pub container_image : String
  pub image_pull_policy : String
  pub kernel_mappings : List KernelMapping
  pub modprobe : ModprobeSpec
  pub registry_tls : TlsOptions

pub record ModuleLoaderSpec : Type 0 where
  pub container : ModuleLoaderContainerSpec
  pub service_account_name : String

pub record DevicePluginContainerSpec : Type 0 where
  pub command : List String
  pub args : List String
  pub env : List (String × String)
  pub image : String
  pub image_pull_policy : String
  pub resources : String
  pub volume_mounts : List VolumeMount

pub record DevicePluginSpec : Type 0 where
  pub container : DevicePluginContainerSpec
  pub service_account_name : String
  pub volumes : List Volume

pub record ModuleSpec : Type 0 where
  pub device_plugin : Option DevicePluginSpec
  pub module_loader : ModuleLoaderSpec
  pub image_repo_secret : Option LocalObjectReference
  pub selector : Dict String
