-- ===== src/PreflightOcp/Known.antt =====
-- What the mapping knows after a release's preflight was prepared.
use rh_kernel_module_managem.Prelude.{
  String, ◌≡◌, Bool, true, false, ◌==◌, none, some, sym, ap, ◌∙◌, ◌||◌, arith, eq_iff, eq_refl,
  if◌then◌else◌, Bool-cases, Option-cases, inl, inr,
}
use rh_kernel_module_managem.Prelude.Dict.{lookup, lookup-insert}
use rh_kernel_module_managem.Api.{PreflightValidationOcp, ok, is_ok}
use rh_kernel_module_managem.DtkMapping.{
  KernelOsDtkMapping, set_node_info, set_image_stream_info, get_image,
}
use rh_kernel_module_managem.PreflightOcp.{OcpEnv, discover, learn, prepare_preflight_validation}

-- The kernel belongs to a node with that version of the system.
abbrev pub runs : KernelOsDtkMapping → String → String → Bool
runs m os kernel = elim (lookup kernel m.kernel_to_os) [ none ↦ false | some o ↦ o == os ]

module _ (env : OcpEnv) (pvo : PreflightValidationOcp) (m : KernelOsDtkMapping)
    (dtk kernel os : String) (found : discover env pvo ≡ ok (dtk, kernel, os)) where
  learned : (prepare_preflight_validation env pvo m).1 ≡ learn env m dtk kernel os
  unfolding prepare_preflight_validation
  learned = ground (arith, found)

  abbrev pub after : KernelOsDtkMapping
  after = (prepare_preflight_validation env pvo m).1

  learn_known : is_ok (get_image m kernel) ≡ true → after ≡ m
  unfolding learn
  learn_known h = rw learned (ground (arith, h))

  learn_new :
      is_ok (get_image m kernel) ≡ false
      → after ≡ set_image_stream_info (set_node_info m kernel os) os dtk
  unfolding learn
  learn_new h = rw learned (ground (arith, h))

  image_of_kernel :
      get_image (set_image_stream_info (set_node_info m kernel os) os dtk) kernel ≡ ok dtk
  unfolding get_image set_image_stream_info set_node_info
  image_of_kernel = ground (
    arith,
    lookup-insert kernel kernel os m.kernel_to_os,
    eq_refl kernel,
    lookup-insert os os dtk m.os_to_dtk,
    eq_refl os,
  )

  image_of_other :
      (other : String)
      → (kernel == other) ≡ false
      → get_image (set_image_stream_info (set_node_info m kernel os) os dtk) other
        ≡ (if runs m os other then ok dtk else get_image m other)
  unfolding get_image set_image_stream_info set_node_info
  image_of_other other h = elim (Option-cases (lookup other m.kernel_to_os)) [
    | inl e ↦ ground (arith, e, h, lookup-insert kernel other os m.kernel_to_os)
    | inr (o, e) ↦ ground (
      arith,
      e,
      h,
      lookup-insert kernel other os m.kernel_to_os,
      lookup-insert os o dtk m.os_to_dtk,
      eq_iff os o,
      eq_iff o os,
    )
  ]

  -- Where a release was looked up and the mapping knew no image for its kernel, the kernel has the
  -- release's image from then on, and so has every other kernel with the same version of the system,
  -- whatever image it had; the others keep theirs.
  pub get_image-prepared :
      (other : String)
      → is_ok (get_image m kernel) ≡ false
      → get_image after other
        ≡ (if (kernel == other) || runs m os other then ok dtk else get_image m other)
  get_image-prepared other h = elim (Bool-cases (kernel == other)) [
    | inl e ↦
        let same : kernel ≡ other = (eq_iff kernel other).0 e in
        ap (get_image after) (sym same)
        ∙ ap (λ n. get_image n kernel) (learn_new h)
        ∙ image_of_kernel
        ∙ ground (arith, e)
    | inr e ↦ ap (λ n. get_image n other) (learn_new h) ∙ image_of_other other e ∙ ground (arith, e)
  ]
