-- ===== src/Registry/Repos.antt =====
-- The repository that is read off the name of an image.
use Prim.Native.Char.{code}
use Prim.Native.String.append
use rh_kernel_module_managem.Prelude.{
  ℕ, Bool-cases, inl, inr, String, ◌≡◌, refl, Bool, ◌=ℕ◌, List, [], ◌∷◌, arith, ◌<>◌, split_on,
}
use rh_kernel_module_managem.Templates.Components.{Lacks, split_on-append}
use rh_kernel_module_managem.Registry.{first_of_many, repo_of}

abbrev pub is_at : ℕ → Bool
is_at c = c =ℕ b'@'

abbrev pub is_colon : ℕ → Bool
is_colon c = c =ℕ b':'

split_on-Lacks : (is_sep : ℕ → Bool) (s : String) → Lacks is_sep s → split_on is_sep s ≡ s ∷ []
unfolding split_on
split_on-Lacks is_sep String.[] h = refl
split_on-Lacks is_sep (String.◌∷◌ c s) (p, h) = ground (arith, p, split_on-Lacks is_sep s h)

Lacks-append :
    (is_sep : ℕ → Bool) (x y : String) → Lacks is_sep x → Lacks is_sep y → Lacks is_sep (x <> y)
Lacks-append is_sep String.[] y h k = rw append.nil k
Lacks-append is_sep (String.◌∷◌ c x) y (p, h) k = rw append.cons (p, Lacks-append is_sep x y h k)

two_parts :
    (is_sep : ℕ → Bool) (s : String)
    → (p : String) × (ps : List String) × (split_on is_sep s ≡ p ∷ ps)
unfolding split_on
two_parts is_sep String.[] = ("", [], refl)
two_parts is_sep (String.◌∷◌ c s) =
    let (p, ps, q) = two_parts is_sep s in
    elim (Bool-cases (is_sep (code c))) [
      | inl e ↦ ("", split_on is_sep s, ground (arith, e))
      | inr e ↦ (String.◌∷◌ c p, ps, ground (arith, e, q))
    ]

-- What stands before the first `@` or colon of a name is its repository, where no further `@` follows:
-- of an image with a tag in a registry with a port that is no more than the host.
pub repo_of_lem :
    (repo rest : String)
    → Lacks is_at repo
    → Lacks is_colon repo
    → Lacks is_at rest
    → (repo_of (repo <> String.◌∷◌ "@" rest) ≡ repo)
      × (repo_of (repo <> String.◌∷◌ ":" rest) ≡ repo)
unfolding repo_of first_of_many
repo_of_lem repo rest h c r =
    let (p, ps, q) = two_parts is_at rest in
    let (t, ts, u) = two_parts is_colon rest in
    let no_digest = Lacks-append is_at repo (String.◌∷◌ ":" rest) h (refl, r) in
    (
      ground (arith, split_on-append is_at repo rest "@" h refl, q),
      ground (
        arith,
        split_on-Lacks is_at (repo <> String.◌∷◌ ":" rest) no_digest,
        split_on-append is_colon repo rest ":" c refl,
        u,
      ),
    )
