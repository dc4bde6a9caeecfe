-- ===== src/Lib.antt =====
-- The kernel module management operator: its core, on a cluster and on a hub.
--
-- A Module asks for a kernel module on the nodes of a cluster. For each kernel of its nodes the
-- operator takes the first suitable kernel mapping, merges its settings with the module's, has the
-- image built and signed where the registry lacks it, and runs the image in a DaemonSet. A
-- PreflightValidation tries this for a kernel to come, and a ManagedClusterModule on a hub builds and
-- signs for many clusters and sends each a Module without those settings.
--
-- Prelude: strings, lists and maps. A Go map is an association list, and a range over it visits the
--   entries in the list's order; a theorem for every list is one for every order.
-- Api: the custom resources of api/v1beta1 and api-hub/v1beta1 with internal/api, the fields of the
--   Kubernetes objects that are read or written, errors, and actions. An action is its result with the
--   calls that it makes to change the cluster, in order; Api/Calls/Makes.antt says what all of them
--   satisfy. An error keeps its fixed text and how it is wrapped. A panic is a third result.
-- Templates: internal/utils/replaceStrings.go. BuildHelper: internal/build/helper.go.
-- SignHelper: internal/sign/helper.go. KernelMapper: internal/module/kernelmapper.go.
-- Images: internal/module/helper.go. JobHelper: internal/utils/jobhelper.go.
-- BuildManager: internal/build/buildconfig/manager.go. SignManager: internal/sign/job/manager.go.
-- DaemonSets: internal/daemonset/daemonset.go. StatusUpdater:
--   internal/statusupdater/statusupdater.go. Reconciler: controllers/module_reconciler.go.
-- Preflight: internal/preflight/preflight.go. PreflightReconciler:
--   controllers/preflightvalidation_reconciler.go. Hub: internal/cluster/cluster.go,
--   internal/manifestwork/manifestwork.go and controllers/hub/managedclustermodule_reconciler.go.
-- PodNode: controllers/pod_node_module_reconciler.go. ClusterClaims:
--   controllers/node_kernel_clusterclaim.go.
-- DtkMapping: internal/syncronizedmap/syncronizedmap.go, with the two controllers that fill the
--   mapping, controllers/node_kernel_reconciler.go and controllers/imagestream_reconciler.go. Its
--   locks make each operation one step. PreflightOcp:
--   controllers/preflightvalidationocp_reconciler.go, which fills it from a release's image.
-- BuildMaker: internal/build/buildconfig/maker.go, which reads the mapping; its Builds are what
--   BuildManager compares. SecretVolumes: internal/utils/volume_helper.go. Signer:
--   internal/sign/job/signer.go, whose jobs SignManager compares, and whose command line SignImage
--   parses. SignImage: cmd/signimage/signimage.go, with what flag.Parse does to its flags, from the
--   command line to the exit code and the effects before it. Registry: internal/registry/registry.go.
-- Auth: internal/auth/auth.go. CaHelper: internal/ca/helper.go, with the stored ConfigMaps as its
--   state. Filters: internal/filter/filter.go, which decides what is reconciled when.
-- Examples: the theorems at concrete inputs.
--
-- A definition has the name of its function, in snake case; a loop, or a part of a long function, is a
-- definition of its own. A function that changes an object it is given returns the object too.
--
-- Parameters: the API server's answers (a list, a get, and for each call an error or none), the
-- HTTP client of the registry, archives and the decoding of JSON, the file system and the tool that
-- signs a file, hashstructure and the printing of its numbers, apimachinery's selectors, the engine of
-- regular expressions, the parser of templates, CreateOrPatch and SetControllerReference. BuildManager
-- and SignManager take the makers of their templates, and the reconcilers the synchronisation of the
-- CA's ConfigMaps, as interfaces of the program. A theorem that relies on what one of them does says
-- so in a hypothesis.
--
-- Bounds: every loop is over a list or the entries of an archive, but the one in
-- Registry/Extract.antt, which reads until the end of a file and has fuel for it: more than the reads
-- that the file takes is enough. A number of type int32 is held as its 32 bits, of which a status
-- shows the signed number.
--
-- Not modelled: logging, the texts that error messages fill in, the metadata of types,
-- SetupWithManager and the other wiring, the entry points of the operators, the registration of
-- metrics, and generated code. A DaemonSet that is patched is not read again in the same
-- reconciliation: its name, its labels for the kernel and its available pods stay as they were listed.

pub mod Prelude
pub mod Api
pub mod Templates
pub mod BuildHelper
pub mod SignHelper
pub mod KernelMapper
pub mod Images
pub mod JobHelper
pub mod SignManager
pub mod BuildManager
pub mod DaemonSets
pub mod StatusUpdater
pub mod Reconciler
pub mod Preflight
pub mod PreflightReconciler
pub mod Hub
pub mod PodNode
pub mod ClusterClaims
pub mod DtkMapping
pub mod CaHelper
pub mod SecretVolumes
pub mod BuildMaker
pub mod Signer
pub mod Registry
pub mod SignImage
pub mod Auth
pub mod PreflightOcp
pub mod Filters
pub mod Examples
