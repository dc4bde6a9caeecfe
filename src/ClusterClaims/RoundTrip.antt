-- ===== src/ClusterClaims/RoundTrip.antt =====
-- What the hub reads of the claim that a cluster writes.
use Prim.Native.Char.{Char}
use Prim.Native.String.append
use rh_kernel_module_managem.Prelude.{
  ℕ, String, ◌≡◌, refl, ap, ◌∙◌, Bool, true, false, ◌||◌, ◌==◌, ◌=ℕ◌, eq_iff, List, [], ◌∷◌, arith,
  All, map, mem, join, ◌<>◌, sort_strings, insert_sorted, split_on, if◌then◌else◌, Bool-cases, inl,
  inr,
}
use rh_kernel_module_managem.Prelude.Dict.{Dict, insert, keys}
use rh_kernel_module_managem.Api.{Node, ok}
use rh_kernel_module_managem.Templates.Components.{Lacks, split_on-append}
use rh_kernel_module_managem.BuildHelper.Overrides.{mem-sort_strings}
use rh_kernel_module_managem.Hub.{kernel_versions}
use rh_kernel_module_managem.ClusterClaims.{collect_kernels, sorted_kernels, claim_value}

abbrev pub is_newline : ℕ → Bool
is_newline c = c =ℕ 10

-- A text without lines is one empty line.
abbrev pub lines_of : List String → List String
lines_of [] = "" ∷ []
lines_of (k ∷ ks) = k ∷ ks

split_on-Lacks : (s : String) → Lacks is_newline s → split_on is_newline s ≡ s ∷ []
unfolding split_on
split_on-Lacks String.[] h = refl
split_on-Lacks (String.◌∷◌ c s) (p, h) = ground (arith, p, split_on-Lacks s h)

one_char : (c : Char) (t : String) → String.◌∷◌ c String.[] <> t ≡ String.◌∷◌ c t
one_char c t = rw (append.cons, append.nil) refl

split_on-join :
    (ks : List String)
    → All (Lacks is_newline) ks
    → split_on is_newline (join ks "\n") ≡ lines_of ks
unfolding join
split_on-join [] h = unfold split_on in refl
split_on-join (k ∷ []) (p, h) = split_on-Lacks k p
split_on-join (k ∷ j ∷ ks) (p, h) =
    ap (λ t. split_on is_newline (k <> t)) (one_char "\n" (join (j ∷ ks) "\n"))
    ∙ split_on-append is_newline k (join (j ∷ ks) "\n") "\n" p refl
    ∙ ap (λ l. k ∷ l) (split_on-join (j ∷ ks) h)

module _ (P : String → Type 0) where
  All-if : (b : Bool) (xs ys : List String) → All P xs → All P ys → All P (if b then xs else ys)
  All-if true xs ys hx hy = hx
  All-if false xs ys hx hy = hy

  All-insert_sorted : (x : String) (ys : List String) → P x → All P ys → All P (insert_sorted x ys)
  unfolding insert_sorted
  All-insert_sorted x [] px h = (px, tt)
  All-insert_sorted x (y ∷ ys) px (py, h) =
      All-if _ (x ∷ y ∷ ys) (y ∷ insert_sorted x ys) (px, (py, h)) (py, All-insert_sorted x ys px h)

  All-sort_strings : (xs : List String) → All P xs → All P (sort_strings xs)
  unfolding sort_strings
  All-sort_strings [] h = tt
  All-sort_strings (x ∷ xs) (p, h) = All-insert_sorted x (sort_strings xs) p (All-sort_strings xs h)

  All-insert :
      (k : String) (m : Dict (Unit {0})) → P k → All P (keys m) → All P (keys (insert k tt m))
  unfolding keys insert
  All-insert k [] p h = (p, tt)
  All-insert k ((j, v) ∷ m) p (q, h) = elim (Bool-cases (j == k)) [
    | inl e ↦ rw e (p, h)
    | inr e ↦ rw e (q, All-insert k m p h)
  ]

  All-collect_kernels :
      (m : Dict (Unit {0})) (nodes : List Node)
      → All P (keys m)
      → All (λ n. P n.kernel_version) nodes
      → All P (keys (collect_kernels m nodes))
  unfolding collect_kernels
  All-collect_kernels m [] hm h = hm
  All-collect_kernels m (n ∷ nodes) hm (p, h) =
      All-collect_kernels (insert n.kernel_version tt m) nodes (All-insert n.kernel_version m p hm)
        h

mem-insert :
    (k j : String) (m : Dict (Unit {0}))
    → mem j (keys (insert k tt m)) ≡ ((k == j) || mem j (keys m))
unfolding keys insert
mem-insert k j [] = refl
mem-insert k j ((i, v) ∷ m) = ground (arith, eq_iff i k, eq_iff i j, eq_iff k j, mem-insert k j m)

mem-collect_kernels :
    (j : String) (m : Dict (Unit {0})) (nodes : List Node)
    → mem j (keys (collect_kernels m nodes))
      ≡ (mem j (keys m) || mem j (map (λ n. n.kernel_version) nodes))
unfolding collect_kernels
mem-collect_kernels j m [] = ground arith
mem-collect_kernels j m (n ∷ nodes) = ground (
  arith,
  mem-collect_kernels j (insert n.kernel_version tt m) nodes,
  mem-insert n.kernel_version j m,
)

-- What the hub reads of the claim that a cluster writes are the kernels of the cluster's nodes, each
-- of them and no other, where none of them has a line break. Without nodes it reads one empty version.
pub kernel_versions-claim_value :
    (nodes : List Node)
    → All (λ n. Lacks is_newline n.kernel_version) nodes
    → (kernel_versions (("kernel-versions.kmm.node.kubernetes.io", claim_value nodes) ∷ [])
        ≡ ok (lines_of (sorted_kernels nodes)))
      × ((k : String) → mem k (sorted_kernels nodes) ≡ mem k (map (λ n. n.kernel_version) nodes))
unfolding kernel_versions claim_value sorted_kernels keys
kernel_versions-claim_value nodes h = (
  ap ok (
      split_on-join (sorted_kernels nodes) (
        All-sort_strings (Lacks is_newline) (keys (collect_kernels [] nodes))
          (All-collect_kernels (Lacks is_newline) [] nodes tt h))),
  λ k. mem-sort_strings k (keys (collect_kernels [] nodes)) ∙ mem-collect_kernels k [] nodes,
)
