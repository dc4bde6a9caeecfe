-- ===== src/Reconciler/Metrics.antt =====
-- `setKMMOMetrics`: the gauges that describe all Modules.
use rh_kernel_module_managem.Prelude.{
  ℕ, ◌+◌, String, Bool, true, ◌&&◌, ◌||◌, Option, none, some, List, [], ◌∷◌, if◌then◌else◌, length,
  is_some, join,
}
use rh_kernel_module_managem.Api.{KernelMapping, ModprobeArgs, Module, Result, ok, err, panic}
use rh_kernel_module_managem.Api.Calls.{Act, pure, call, set_gauge, ◌>>=◌, ◌>>◌}

-- the loop over the mappings, from the container's `(build, sign)`
unfoldable pub capable_by : List KernelMapping → Bool × Bool → Bool × Bool
capable_by [] capable = capable
capable_by (mapping ∷ mappings) (build_capable, sign_capable) =
    capable_by mappings
      (build_capable || is_some mapping.build, sign_capable || is_some mapping.sign)

unfoldable pub is_module_build_and_sign_capable : Module → Bool × Bool
unfolding capable_by
is_module_build_and_sign_capable m =
    let container = m.spec.module_loader.container in
    if is_some container.build && is_some container.sign
    then (true, true)
    else capable_by container.kernel_mappings (is_some container.build, is_some container.sign)

abbrev pub count_if : Bool → ℕ → ℕ
count_if b n = if b then n + 1 else n

-- the numbers of Modules with a build, with signing and with a device plugin
pub record Totals : Type 0 where
  pub with_build : ℕ
  pub with_sign : ℕ
  pub with_device_plugin : ℕ

unfoldable pub add_module : Module → Totals → Totals
add_module m totals =
    let capable = is_module_build_and_sign_capable m in
    record {
      with_build = count_if capable.0 totals.with_build;
      with_sign = count_if capable.1 totals.with_sign;
      with_device_plugin = count_if (is_some m.spec.device_plugin) totals.with_device_plugin;
    }

-- Setting a gauge cannot fail.
abbrev pub gauge : String → List String → ℕ → Act (Unit {0})
gauge name labels value = call (set_gauge name labels value) none

unfoldable pub set_args : String → Module → Option ModprobeArgs → Act (Unit {0})
set_args gauge_name m none = pure tt
set_args gauge_name m (some args) =
    gauge gauge_name (m.name ∷ m.namespace ∷ join args.load "," ∷ []) 1

unfoldable pub set_modprobe_args : Module → Act (Unit {0})
unfolding set_args
set_modprobe_args m = do
  set_args "kmm_modprobe_args" m m.spec.module_loader.container.modprobe.args
  set_args "kmm_modprobe_raw_args" m m.spec.module_loader.container.modprobe.raw_args

unfoldable pub each_module : List Module → Totals → Act Totals
each_module [] totals = pure totals
each_module (m ∷ mods) totals = do set_modprobe_args m; each_module mods (add_module m totals)

unfoldable pub set_totals : ℕ → Totals → Act (Unit {0})
set_totals num_modules totals = do
  gauge "kmm_module_num" [] num_modules
  gauge "kmm_in_cluster_build_num" [] totals.with_build
  gauge "kmm_in_cluster_sign_num" [] totals.with_sign
  gauge "kmm_device_plugin_num" [] totals.with_device_plugin

abbrev pub no_totals : Totals
no_totals = record { with_build = 0; with_sign = 0; with_device_plugin = 0 }

-- A failing list is only logged.
unfoldable pub set_kmmo_metrics : Result (List Module) → Act (Unit {0})
set_kmmo_metrics (err e) = pure tt
set_kmmo_metrics panic = (panic, [])
set_kmmo_metrics (ok mods) = do totals ← each_module mods no_totals; set_totals (length mods) totals
