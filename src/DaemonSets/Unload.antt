-- ===== src/DaemonSets/Unload.antt =====
-- The firmware command in the unload line of raw arguments.
use Prim.Native.String.{len}
use Prim.Native.String.append
use text.Mathlib.TextLemmas.{append-nil, append_assoc}
use Prim.Native.Nat.{◌*◌}
use text.Mathlib.TextPositions.{len-append}
use rh_kernel_module_managem.Prelude.{
  ◌+◌, ◌<◌, String, ◌≡◌, ◌≢◌, refl, ap, ◌↔◌, ◌⊎◌, arith, ◌<>◌, ◌==◌, eq_iff, List, [], ◌∷◌, length,
  Bool-cases, inl, inr,
}
use rh_kernel_module_managem.Api.{ModprobeSpec}
use rh_kernel_module_managem.DaemonSets.Commands.{spaced, firmware_remove, raw_unload, unload_line}

len-raw_unload :
    (fw_command : String) (args : List String)
    → len (raw_unload fw_command args) ≡ len (spaced args) + length args * len fw_command
unfolding raw_unload spaced
len-raw_unload fw_command [] = omega arith
len-raw_unload fw_command (a ∷ more) =
    rw (len-append, len-append, len-append, len-append, len-append)
      (omega (arith, len-raw_unload fw_command more))

-- the line that removes the firmware once, behind all the arguments
abbrev pub intended_line : ModprobeSpec → List String → String
intended_line spec args = "modprobe" <> spaced args <> firmware_remove spec.firmware_path

raw_unload_empty : (args : List String) → raw_unload "" args ≡ spaced args
unfolding raw_unload spaced
raw_unload_empty [] = refl
raw_unload_empty (a ∷ more) = rw append.nil (ap (λ s. " " <> a <> s) (raw_unload_empty more))

firmware_remove-empty : (fw : String) → fw ≡ "" → firmware_remove fw ≡ ""
unfolding firmware_remove
firmware_remove-empty fw h = ground (arith, eq_iff fw "")

len-firmware_remove-pos : (fw : String) → fw ≢ "" → 0 < len (firmware_remove fw)
unfolding firmware_remove
len-firmware_remove-pos fw h = elim (Bool-cases (fw == "")) [
  | inl e ↦ absurd (h ((eq_iff fw "").0 e))
  | inr e ↦ rw (e, len-append) (omega arith)
]

module _ (spec : ModprobeSpec) (args : List String) where
  -- the line that the loop over the raw arguments writes
  abbrev looped : String
  looped = "modprobe" <> raw_unload (firmware_remove spec.firmware_path) args

  -- the lengths of the two lines differ by the copies of the firmware command
  len-looped :
      len looped + len (firmware_remove spec.firmware_path)
      ≡ len (intended_line spec args) + length args * len (firmware_remove spec.firmware_path)
  len-looped =
      let fw = firmware_remove spec.firmware_path in
      omega (
        arith,
        len-append "modprobe" (raw_unload fw args),
        len-raw_unload fw args,
        len-append "modprobe" (spaced args <> fw),
        len-append (spaced args) fw,
      )

one_argument :
    (spec : ModprobeSpec) (a : String) → looped spec (a ∷ []) ≡ intended_line spec (a ∷ [])
unfolding raw_unload spaced
one_argument spec a = simp (append-nil, append_assoc)

no_firmware :
    (spec : ModprobeSpec) (args : List String)
    → spec.firmware_path ≡ ""
    → looped spec args ≡ intended_line spec args
no_firmware spec args h =
    rw (firmware_remove-empty spec.firmware_path h, raw_unload_empty, append-nil)

looped-ne :
    (spec : ModprobeSpec) (a b : String) (more : List String)
    → spec.firmware_path ≢ ""
    → looped spec (a ∷ b ∷ more) ≢ intended_line spec (a ∷ b ∷ more)
looped-ne spec a b more h e =
    omega (
      arith,
      len-looped spec (a ∷ b ∷ more),
      ap len e,
      len-firmware_remove-pos spec.firmware_path h,
    )

-- For raw unload arguments the command is the intended one exactly if there is no firmware or only
-- one argument; with more arguments the firmware command stands between them.
pub unload_line_iff :
    (spec : ModprobeSpec) (a : String) (more : List String)
    → (unload_line spec (a ∷ more) ≡ intended_line spec (a ∷ more))
      ↔ ((spec.firmware_path ≡ "") ⊎ (more ≡ []))
unfolding unload_line
unload_line_iff spec a [] = (λ _. inr refl, λ _. one_argument spec a)
unload_line_iff spec a (b ∷ more) = elim (Bool-cases (spec.firmware_path == "")) [
  | inl e ↦
      let none : spec.firmware_path ≡ "" = (eq_iff _ _).0 e in
      (λ _. inl none, λ _. no_firmware spec (a ∷ b ∷ more) none)
  | inr e ↦
      let ne : spec.firmware_path ≢ "" = λ h. cc (e, (eq_iff _ _).1 h) in
      (λ same. absurd (looped-ne spec a b more ne same), λ h. absurd (ground (arith, h, ne)))
]
