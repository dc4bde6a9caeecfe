-- ===== src/PreflightReconciler/ModulesToCheck.antt =====
-- `getModulesToCheck`: presetting the statuses leaves no nil pointer behind.
use rh_kernel_module_managem.Prelude.{
  ℕ, String, ◌≡◌, refl, inl, inr, Bool, true, false, not, ◌&&◌, ◌||◌, eq_iff, eq_refl, Bool-cases,
  In, sym, Option, none, some, List, [], ◌∷◌, arith, filter, mem, is_some, All,
}
use rh_kernel_module_managem.Prelude.Dict.{Dict, lookup}
use rh_kernel_module_managem.Api.{CrStatus, Module, PreflightValidation, ok}
use rh_kernel_module_managem.Api.Calls.{◌>>=◌}
use rh_kernel_module_managem.StatusUpdater.{preset_statuses, preflight_preset_statuses}
use rh_kernel_module_managem.StatusUpdater.Preflight.{lookup-preset_statuses}
use rh_kernel_module_managem.Preflight.{PreflightEnv}
use rh_kernel_module_managem.PreflightReconciler.{
  is_verified, existing_modules, new_modules, select_modules, preset_modules_statuses,
  get_modules_to_check,
}

-- The module is to be checked: it exists, and the old statuses do not show it as verified.
abbrev pub is_true : Option CrStatus → Bool
is_true none = false
is_true (some s) = is_verified s.verification_status

abbrev pub is_unverified : Dict CrStatus → Module → Bool
is_unverified statuses m = not m.deleting && not (is_true (lookup m.name statuses))

-- Every module that exists has a status.
abbrev HasStatus : Dict CrStatus → Module → Type 0
HasStatus statuses m = (m.deleting || is_some (lookup m.name statuses)) ≡ true

select_modules_lem :
    (statuses : Dict CrStatus) (modules : List Module)
    → All (HasStatus statuses) modules
    → select_modules statuses modules ≡ ok (filter (is_unverified statuses) modules)
unfolding select_modules
select_modules_lem statuses [] h = refl
select_modules_lem statuses (m ∷ modules) (p, h) =
    found (lookup m.name statuses) refl p (select_modules_lem statuses modules h)
  where
    found :
        (o : Option CrStatus)
        → lookup m.name statuses ≡ o
        → (m.deleting || is_some o) ≡ true
        → select_modules statuses modules ≡ ok (filter (is_unverified statuses) modules)
        → select_modules statuses (m ∷ modules) ≡ ok (filter (is_unverified statuses) (m ∷ modules))
    found none e p ih = ground (arith, e, p, ih)
    found (some s) e p ih = ground (arith, e, p, ih)

mem-new_modules :
    (modules : List Module) (name : String) (statuses : Dict CrStatus)
    → mem name (existing_modules modules) ≡ true
    → (mem name (new_modules statuses modules) || is_some (lookup name statuses)) ≡ true
unfolding existing_modules new_modules
mem-new_modules [] name statuses h = ground (arith, h)
mem-new_modules (m ∷ modules) name statuses h =
    ground (arith, h, eq_iff m.name name, mem-new_modules modules name statuses)

new_modules-none :
    (modules : List Module) (name : String) (statuses : Dict CrStatus)
    → mem name (new_modules statuses modules) ≡ true
    → lookup name statuses ≡ none
unfolding new_modules
new_modules-none [] name statuses h = ground (arith, h)
new_modules-none (m ∷ modules) name statuses h =
    ground (arith, h, eq_iff m.name name, new_modules-none modules name statuses)

existing-mem :
    (modules : List Module) (m : Module)
    → In m modules
    → m.deleting ≡ false
    → mem m.name (existing_modules modules) ≡ true
unfolding existing_modules
existing-mem [] m i h = absurd i
existing-mem (x ∷ modules) m (inl e) h = rw (sym e, h, eq_refl m.name) refl
existing-mem (x ∷ modules) m (inr i) h = ground (arith, existing-mem modules m i h)

All-In {ℓ} : {P : Module → Type ℓ} (xs : List Module) → ((x : Module) → In x xs → P x) → All P xs
All-In [] f = tt
All-In (x ∷ xs) f = (f x (inl refl), All-In xs (λ y i. f y (inr i)))

filter-eq :
    (p q : Module → Bool) (xs : List Module) → All (λ x. p x ≡ q x) xs → filter p xs ≡ filter q xs
filter-eq p q [] h = refl
filter-eq p q (x ∷ xs) (e, h) = rw (e, filter-eq p q xs h) refl

module _ (now : ℕ) (statuses : Dict CrStatus) (modules : List Module) where
  abbrev preset : Dict CrStatus
  preset = preset_statuses now (existing_modules modules) (new_modules statuses modules) statuses

  -- what presetting does for a module that exists
  preset_lem :
      (m : Module)
      → In m modules
      → HasStatus preset m × (is_unverified preset m ≡ is_unverified statuses m)
  preset_lem m i = elim (Bool-cases m.deleting) [
    | inl d ↦ (ground (arith, d), ground (arith, d))
    | inr d ↦
        let e = existing-mem modules m i d in
        let n = mem-new_modules modules m.name statuses e in
        let l =
          lookup-preset_statuses now (existing_modules modules) (new_modules statuses modules)
            m.name statuses in
        (
          ground (arith, e, n, l),
          elim (Bool-cases (mem m.name (new_modules statuses modules))) [
            | inl new ↦ rw (l, new, new_modules-none modules m.name statuses new) refl
            | inr old ↦ rw (l, old, e) refl
          ],
        )
  ]

module _ {Digest Layer : Type 0} (env : PreflightEnv Digest Layer) where
  -- Where the list of the modules is read and the update of the preset statuses succeeds, the modules
  -- to check are those that are not being deleted and that the old statuses do not show as verified:
  -- no module lacks the status that the loop dereferences.
  pub get_modules_to_check_lem :
      (pv : PreflightValidation) (modules : List Module)
      → env.answer_update (preset_modules_statuses env pv modules).0 ≡ none
      → (get_modules_to_check env (ok modules) pv).1.0
        ≡ ok (filter (is_unverified pv.cr_statuses) modules)
  unfolding get_modules_to_check preset_modules_statuses preflight_preset_statuses ◌>>=◌
  get_modules_to_check_lem pv modules h =
      let each = preset_lem env.now pv.cr_statuses modules in
      rw
        (
          h,
          select_modules_lem _ modules (All-In modules (λ m i. (each m i).0)),
          filter-eq _ _ modules (All-In modules (λ m i. (each m i).1)),
        )
        refl
