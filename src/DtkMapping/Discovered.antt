-- ===== src/DtkMapping/Discovered.antt =====
-- The two reconcilers together: the image of a node's kernel is found after both, in either order.
use rh_kernel_module_managem.Prelude.{
  String, ◌≡◌, refl, true, false, ◌==◌, Option, none, some, List, [], ◌∷◌, if◌then◌else◌, arith, ap,
  ◌∙◌, eq_refl, is_some, Bool, not, ◌&&◌, Option-cases, inl, inr,
}
use rh_kernel_module_managem.Prelude.Dict.{Dict, lookup, insert, lookup-insert}
use rh_kernel_module_managem.Api.{Node, ok}
use rh_kernel_module_managem.DtkMapping.{
  KernelOsDtkMapping, set_node_info, set_image_stream_info, get_image,
}
use rh_kernel_module_managem.DtkMapping.Reconcilers.{
  NodeEnv, kernel_of, os_of, reconcile_node, TagReference, set_tags, reconcile_image_stream,
}

-- what the last tag of that name refers to, if there is one
unfoldable pub last_tag : String → List TagReference → Option String
last_tag name [] = none
last_tag name (t ∷ ts) =
    let later = last_tag name ts in
    if is_some later
    then later
    else if (t.name == name) && not (t.name == "latest")
    then t.from
    else none

-- every tag but `latest` refers to an image
unfoldable pub all_refer : List TagReference → Bool
all_refer [] = true
all_refer (t ∷ ts) = (if t.name == "latest" then true else is_some t.from) && all_refer ts

kernel_to_os-set_tags :
    (ts : List TagReference) (m : KernelOsDtkMapping)
    → (set_tags m ts).1.kernel_to_os ≡ m.kernel_to_os
unfolding set_tags set_image_stream_info
kernel_to_os-set_tags [] m = refl
kernel_to_os-set_tags (t ∷ ts) m = elim (Option-cases t.from) [
  | inl e ↦ ground (arith, kernel_to_os-set_tags ts m)
  | inr (dtk, e) ↦ ground (
    arith,
    kernel_to_os-set_tags ts m,
    kernel_to_os-set_tags ts (set_image_stream_info m t.name dtk),
  )
]

lookup-set_tags :
    (ts : List TagReference) (m : KernelOsDtkMapping) (os : String)
    → all_refer ts ≡ true
    → lookup os (set_tags m ts).1.os_to_dtk
      ≡ (if is_some (last_tag os ts) then last_tag os ts else lookup os m.os_to_dtk)
unfolding set_tags set_image_stream_info last_tag all_refer
lookup-set_tags [] m os h = refl
lookup-set_tags (t ∷ ts) m os h = elim (Option-cases t.from) [
  | inl e ↦ ground (arith, lookup-set_tags ts m os)
  | inr (dtk, e) ↦ ground (
    arith,
    lookup-set_tags ts m os,
    lookup-set_tags ts (set_image_stream_info m t.name dtk) os,
    lookup-insert t.name os dtk m.os_to_dtk,
  )
]

set_tags_ok :
    (ts : List TagReference) (m : KernelOsDtkMapping)
    → all_refer ts ≡ true
    → (set_tags m ts).0 ≡ ok tt
unfolding set_tags all_refer
set_tags_ok [] m h = refl
set_tags_ok (t ∷ ts) m h = elim (Option-cases t.from) [
  | inl e ↦ ground (arith, set_tags_ok ts m)
  | inr (dtk, e) ↦
      ground (arith, set_tags_ok ts m, set_tags_ok ts (set_image_stream_info m t.name dtk))
]

-- A node with a known version and an ImageStream that names an image for that version.
pub record IsDescribed (env : NodeEnv) (name : String) (node : Node) (tags : List TagReference)
    (dtk : String) : Type 0 where
  pub got : env.get_node name ≡ ok node
  pub versioned : (os_of node == "") ≡ false
  pub refer : all_refer tags ≡ true
  pub tagged : last_tag (os_of node) tags ≡ some dtk

get_image_found :
    (m : KernelOsDtkMapping) (kernel os dtk : String)
    → lookup kernel m.kernel_to_os ≡ some os
    → lookup os m.os_to_dtk ≡ some dtk
    → get_image m kernel ≡ ok dtk
unfolding get_image
get_image_found m kernel os dtk p q = ground (arith, p, q)

lookup-insert_self : (k v : String) (m : Dict String) → lookup k (insert k v m) ≡ some v
lookup-insert_self k v m = ground (arith, lookup-insert k k v m, eq_refl k)

module _ (env : NodeEnv) (m : KernelOsDtkMapping) (name : String) (node : Node)
    (tags : List TagReference) (dtk : String) (d : IsDescribed env name node tags dtk) where
  reconcile_node_lem :
      (n : KernelOsDtkMapping)
      → (reconcile_node env n name).1 ≡ set_node_info n (kernel_of node) (os_of node)
  unfolding reconcile_node
  reconcile_node_lem n = ground (arith, d.got, d.versioned)

  -- Once a node and the ImageStream are reconciled, in either order, the kernel of the node has
  -- the image that the last tag with the node's version refers to, and the tags all get set.
  pub get_image-reconciled :
      (get_image (reconcile_image_stream (ok tags) (reconcile_node env m name).1).1 (kernel_of node)
        ≡ ok dtk)
      × (get_image
            (reconcile_node env (reconcile_image_stream (ok tags) m).1 name).1
            (kernel_of node)
          ≡ ok dtk)
      × ((reconcile_image_stream (ok tags) m).0 ≡ ok tt)
  unfolding reconcile_image_stream set_node_info
  get_image-reconciled =
      let n = set_node_info m (kernel_of node) (os_of node) in
      (
        rw (reconcile_node_lem m) (
            get_image_found (set_tags n tags).1 (kernel_of node) (os_of node) dtk
              (ap (lookup (kernel_of node)) (kernel_to_os-set_tags tags n)
                ∙ lookup-insert_self (kernel_of node) (os_of node) m.kernel_to_os)
              (ground (arith, lookup-set_tags tags n (os_of node) d.refer, d.tagged))),
        rw (reconcile_node_lem (set_tags m tags).1) (
            get_image_found (set_node_info (set_tags m tags).1 (kernel_of node) (os_of node))
              (kernel_of node) (os_of node) dtk
              (lookup-insert_self (kernel_of node) (os_of node) (set_tags m tags).1.kernel_to_os)
              (ground (arith, lookup-set_tags tags m (os_of node) d.refer, d.tagged))),
        set_tags_ok tags m d.refer,
      )
