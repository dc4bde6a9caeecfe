-- ===== src/KernelMapper/Find.antt =====
-- `findKernelMapping` returns the first mapping that suits the kernel.
use rh_kernel_module_managem.Prelude.{
  String, ◌≡◌, ◌≢◌, ◌↔◌, ◌⊎◌, inl, inr, refl, Bool, true, false, eq_iff, List, [], ◌∷◌, ◌++◌, arith,
  All, ap,
}
use rh_kernel_module_managem.Api.{KernelMapping, Result, ok, is_ok}
use rh_kernel_module_managem.KernelMapper.{find_kernel_mapping}

module _ (match_string : String → String → Result Bool) (kernel : String) where
  -- The mapping names the kernel itself.
  abbrev pub IsLiteral : KernelMapping → Type 0
  IsLiteral m = (m.literal ≢ "") × (m.literal ≡ kernel)

  -- The mapping is for the kernel, by its literal or by its expression.
  abbrev pub Suits : KernelMapping → Type 0
  Suits m = IsLiteral m ⊎ ((m.regexp ≢ "") × (match_string m.regexp kernel ≡ ok true))

  -- The mapping is not for the kernel, and its expression, if there is one, is a valid one.
  abbrev pub IsPassed : KernelMapping → Type 0
  IsPassed m = (¬ IsLiteral m) × ((m.regexp ≡ "") ⊎ (match_string m.regexp kernel ≡ ok false))

  -- `m` is the first of the mappings that suits the kernel.
  pub record IsFirst (m : KernelMapping) (ms : List KernelMapping) : Type 0 where
    pub before : List KernelMapping
    pub behind : List KernelMapping
    pub place : ms ≡ before ++ m ∷ behind
    pub passed : All IsPassed before
    pub suits : Suits m

  find_complete :
      (before behind : List KernelMapping) (m : KernelMapping)
      → All IsPassed before
      → Suits m
      → find_kernel_mapping match_string (before ++ m ∷ behind) kernel ≡ ok m
  unfolding find_kernel_mapping
  find_complete [] behind m passed suits =
      ground (arith, eq_iff m.literal "", eq_iff m.literal kernel, eq_iff m.regexp "")
  find_complete (b ∷ before) behind m passed suits = ground (
    arith,
    eq_iff b.literal "",
    eq_iff b.literal kernel,
    eq_iff b.regexp "",
    find_complete before behind m passed.1 suits,
  )

  IsFirst-cons :
      {m b : KernelMapping} {ms : List KernelMapping}
      → IsPassed b
      → IsFirst m ms
      → IsFirst m (b ∷ ms)
  IsFirst-cons {b} p f = record {
    before = b ∷ f.before;
    behind = f.behind;
    place = ap (λ l. b ∷ l) f.place;
    passed = (p, f.passed);
    suits = f.suits;
  }

  IsFirst-here : {b : KernelMapping} {ms : List KernelMapping} → Suits b → IsFirst b (b ∷ ms)
  IsFirst-here {ms} s = record { before = []; behind = ms; place = refl; passed = tt; suits = s }

  -- One round of the loop: the mapping is returned, or passed over, or its expression fails.
  round :
      (b : KernelMapping) (ms : List KernelMapping)
      → (Suits b × (find_kernel_mapping match_string (b ∷ ms) kernel ≡ ok b))
        ⊎ (IsPassed b
            × (find_kernel_mapping match_string (b ∷ ms) kernel
                ≡ find_kernel_mapping match_string ms kernel))
        ⊎ (is_ok (find_kernel_mapping match_string (b ∷ ms) kernel) ≡ false)
  unfolding find_kernel_mapping
  round b ms = ground (arith, eq_iff b.literal "", eq_iff b.literal kernel, eq_iff b.regexp "")

  find_sound :
      (ms : List KernelMapping) (m : KernelMapping)
      → find_kernel_mapping match_string ms kernel ≡ ok m
      → IsFirst m ms
  find_sound [] m h = unfold find_kernel_mapping in cc h
  find_sound (b ∷ ms) m h = elim (round b ms) [
    | inl (s, e) ↦ let same : b ≡ m = cc (e, h) in rw (← same) (IsFirst-here s)
    | inr (inl (p, e)) ↦ IsFirst-cons p (find_sound ms m (cc (e, h)))
    | inr (inr e) ↦ ground (arith, h, e)
  ]

  -- A mapping is returned exactly if it is the first one that suits the kernel, with no broken
  -- expression before it.
  pub find_kernel_mapping_iff :
      (ms : List KernelMapping) (m : KernelMapping)
      → (find_kernel_mapping match_string ms kernel ≡ ok m) ↔ IsFirst m ms
  find_kernel_mapping_iff ms m =
      (find_sound ms m, λ f. rw f.place (find_complete f.before f.behind m f.passed f.suits))
