-- ===== src/SignImage/Finished.antt =====
-- An exit code of 0 means that every file that was asked for is signed and in the new layer.
use rh_kernel_module_managem.Prelude.{
  String, ◌≡◌, ◌⊎◌, true, false, ◌=ℕ◌, List, [], All, In, split_on, is_some,
}
use rh_kernel_module_managem.Prelude.Dict.{Dict, lookup}
use rh_kernel_module_managem.Api.{ok}
use rh_kernel_module_managem.SignImage.{World, exit, Run}
use rh_kernel_module_managem.SignImage.Flags.{Options}
use rh_kernel_module_managem.SignImage.Tarball.{FileInfo}
use rh_kernel_module_managem.SignImage.Kmods.{Effect, added, pushed}
use rh_kernel_module_managem.SignImage.OnlySigned.{IsTaken, IsSigned}

module _ (o : Options) where
  -- What an exit code of 0 stands for: for each listed file, a file of the image with its path was
  -- extracted below the temporary directory, signed there, and put from there into the new layer
  -- under the listed name; and the image was pushed, if it was to be.
  pub record IsDone (dir : String) (w : List Effect) : Type 0 where
    pub files :
        All
          (λ f. (p : String) × IsTaken dir f p w × In (added p f) w)
          (split_on (λ c. c =ℕ b':') o.files_to_sign)
    pub image : (o.no_push ≡ true) ⊎ In (pushed o.signed_image) w

-- The map that the search starts with has every listed file, and none of them signed.
record IsListed (dir : String) (xs : List String) (m m' : Dict String) : Type 0 where
  missing : All (IsSigned dir []) m'
  kept : (f : String) → is_some (lookup f m) ≡ true → is_some (lookup f m') ≡ true
  listed : All (λ f. is_some (lookup f m') ≡ true) xs

module _ (world : World)
    (no_dirs : (p : String) (i : FileInfo) → world.tarball.stat p ≡ ok i → i.is_dir ≡ false)
    (o : Options) (dir : String) where
  abbrev Ok : Run → Type 0
  Ok r = r.0 ≡ exit 0 → IsDone o dir r.1

  abbrev AllSigned : List Effect → Type 0
  AllSigned w =
      All (λ f. (p : String) × IsTaken dir f p w × In (added p f) w)
        (split_on (λ c. c =ℕ b':') o.files_to_sign)

module _ (world : World)
    (no_dirs : (p : String) (i : FileInfo) → world.tarball.stat p ≡ ok i → i.is_dir ≡ false)
    (o : Options) where
  abbrev Ends : Run → Type 0
  Ends r = r.0 ≡ exit 0 → (dir : String) × (world.make_temp_dir ≡ ok dir) × IsDone o dir r.1
