-- ===== src/DaemonSets/Commands.antt =====
-- `MakeLoadCommand` and `MakeUnloadCommand`: the shell commands that load and unload a module.
use rh_kernel_module_managem.Prelude.{
  String, ◌==◌, ◌<>◌, Option, none, some, List, [], ◌∷◌, if◌then◌else◌,
}
use rh_kernel_module_managem.Api.{ModprobeArgs, ModprobeSpec}

abbrev pub node_var_lib_firmware_path : String
node_var_lib_firmware_path = "/var/lib/firmware"

-- ` arg` for each argument
unfoldable pub spaced : List String → String
spaced [] = ""
spaced (a ∷ more) = " " <> a <> spaced more

abbrev pub load_of : Option ModprobeArgs → List String
load_of none = []
load_of (some a) = a.load

abbrev pub unload_of : Option ModprobeArgs → List String
unload_of none = []
unload_of (some a) = a.unload

-- Without arguments the default is used.
pub args_or : List String → String → String
args_or [] default = default
args_or (a ∷ more) default = spaced (a ∷ more)

pub dir_option : String → String
dir_option dir_name = if dir_name == "" then "" else " -d " <> dir_name

firmware_copy : String → String
firmware_copy fw =
    if fw == "" then "" else "cp -r " <> fw <> "/* " <> node_var_lib_firmware_path <> " && "

load_line : ModprobeSpec → List String → String
unfolding firmware_copy args_or dir_option spaced
load_line spec [] =
    firmware_copy spec.firmware_path
    <> "modprobe"
    <> args_or (load_of spec.args) " -v"
    <> dir_option spec.dir_name
    <> " "
    <> spec.module_name
    <> spaced spec.parameters
load_line spec (a ∷ more) = firmware_copy spec.firmware_path <> "modprobe" <> spaced (a ∷ more)

unfoldable pub make_load_command : ModprobeSpec → List String
unfolding load_line
make_load_command spec = "/bin/sh" ∷ "-c" ∷ load_line spec (load_of spec.raw_args) ∷ []

unfoldable pub firmware_remove : String → String
firmware_remove fw =
    if fw == ""
    then ""
    else " && cd " <> fw <> " && find |sort -r |xargs -I{} rm -d " <> node_var_lib_firmware_path
      <> "/{}"

-- The loop over the raw arguments writes the firmware command behind each of them.
unfoldable pub raw_unload : String → List String → String
raw_unload fw_command [] = ""
raw_unload fw_command (a ∷ more) = " " <> a <> fw_command <> raw_unload fw_command more

unfoldable pub unload_line : ModprobeSpec → List String → String
unfolding args_or dir_option spaced
unload_line spec [] =
    "modprobe"
    <> args_or (unload_of spec.args) " -rv"
    <> dir_option spec.dir_name
    <> " "
    <> spec.module_name
    <> firmware_remove spec.firmware_path
unload_line spec (a ∷ more) =
    "modprobe" <> raw_unload (firmware_remove spec.firmware_path) (a ∷ more)

unfoldable pub make_unload_command : ModprobeSpec → List String
make_unload_command spec = "/bin/sh" ∷ "-c" ∷ unload_line spec (unload_of spec.raw_args) ∷ []
