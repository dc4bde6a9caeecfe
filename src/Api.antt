-- ===== src/Api.antt =====
-- The data that the components share: the custom resources of api/v1beta1 and api-hub/v1beta1, the
-- fields of the Kubernetes objects that the program reads and writes, errors, and the calls that
-- change the cluster.
mod Spec
mod K8s
pub mod Errors
mod Resource
pub mod Calls
pub use Spec.*
pub use K8s.*
pub use Errors.{
  Sentinel, Error, Result, no_matching_job, no_matching_build, config_map_not_found, not_found,
  external, sentinel, errorf, wrapw, wrapv, ok, err, panic, wrap_err, is_ok,
}
unfoldable pub use Errors.{is_not_found, is_sentinel}
pub use Resource.*
