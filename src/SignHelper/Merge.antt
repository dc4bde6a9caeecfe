-- ===== src/SignHelper/Merge.antt =====
-- `GetRelevantSign`: what the merged signing settings hold.
use rh_kernel_module_managem.Prelude.{
  String, ◌≡◌, ◌==◌, Option, none, some, List, [], ◌∷◌, ◌++◌, if◌then◌else◌,
}
use rh_kernel_module_managem.Api.{Sign, Result, ok}
use rh_kernel_module_managem.Templates.{kernel_components_as_env_vars, replace_in_templates, first}

-- `o`, or else `d`
abbrev pub or_else : Option String → Option String → Option String
or_else (some a) d = some a
or_else none d = d

-- The settings `s` before their templates are filled in.
abbrev pub IsMerged : Option Sign → Option Sign → Sign → Type 0
IsMerged none none s = ⊥
IsMerged none (some mapping) s = s ≡ mapping
IsMerged (some base) none s = s ≡ base
IsMerged (some base) (some mapping) s =
    (s.unsigned_image
      ≡ (if mapping.unsigned_image == "" then base.unsigned_image else mapping.unsigned_image))
    × (s.key_secret ≡ or_else mapping.key_secret base.key_secret)
    × (s.cert_secret ≡ or_else mapping.cert_secret base.cert_secret)
    × (s.files_to_sign ≡ base.files_to_sign ++ mapping.files_to_sign)
    × (s.unsigned_image_registry_tls ≡ base.unsigned_image_registry_tls)

module _ (parse : List String → String → Result String) where
  -- `t` is `s` with its templates filled in from the kernel's variables.
  abbrev pub IsFilled : String → Sign → Sign → Type 0
  IsFilled kernel s t =
      (env : List String) × (images : List String) × (kernel_components_as_env_vars kernel ≡ ok env)
      × (replace_in_templates parse env (s.unsigned_image ∷ []) ≡ ok images)
      × (first images ≡ ok t.unsigned_image)
      × (replace_in_templates parse env s.files_to_sign ≡ ok t.files_to_sign)
      × (t.key_secret ≡ s.key_secret)
      × (t.cert_secret ≡ s.cert_secret)
      × (t.unsigned_image_registry_tls ≡ s.unsigned_image_registry_tls)
