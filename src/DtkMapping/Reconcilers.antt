-- ===== src/DtkMapping/Reconcilers.antt =====
-- controllers/node_kernel_reconciler.go and controllers/imagestream_reconciler.go: what feeds the
-- mapping. The mapping is shared: it comes in and goes out beside the calls.
use Prim.Native.Char.{Char, code}
use rh_kernel_module_managem.Prelude.{
  ℕ, String, Bool, true, false, ◌&&◌, Option, none, some, List, [], ◌∷◌, if◌then◌else◌, ◌==◌,
  trim_suffix, leb, ◌=ℕ◌, ◌<>◌, get_or,
}
use rh_kernel_module_managem.Prelude.Dict.{insert}
use rh_kernel_module_managem.Api.{Node, Error, Result, ok, err, panic, errorf, wrapv}
use rh_kernel_module_managem.Api.Calls.{Act, call, raise, wrapping, patch_node}
use rh_kernel_module_managem.DtkMapping.{KernelOsDtkMapping, set_node_info, set_image_stream_info}

-- `\d`
unfoldable pub is_digit : Char → Bool
is_digit c = leb 48 (code c) && leb (code c) 57

pub data Part : Type 0 where
  digit digits : Part
  char : ℕ → Part

-- the expression `\d+\.\d+\.\d+\-\d`
abbrev pub os_version_regexp : List Part
os_version_regexp = digits ∷ char b'.' ∷ digits ∷ char b'.' ∷ digits ∷ char b'-' ∷ digit ∷ []

-- The run of digits that the text starts with, and the rest.
unfoldable pub take_digits : String → String × String
unfolding is_digit
take_digits String.[] = (String.[], String.[])
take_digits (String.◌∷◌ c s) =
    let (run, rest) = take_digits s in
    if is_digit c then (String.◌∷◌ c run, rest) else (String.[], String.◌∷◌ c s)

unfoldable pub take_char : (Char → Bool) → String → Option (String × String)
take_char test String.[] = none
take_char test (String.◌∷◌ c s) = if test c then some (String.◌∷◌ c String.[], s) else none

-- A run of digits is taken whole: what follows `\d+` in the expression is not a digit.
unfoldable pub match_part : Part → String → Option (String × String)
unfolding take_digits take_char is_digit
match_part digit s = take_char is_digit s
match_part (char n) s = take_char (λ c. code c =ℕ n) s
match_part digits s =
    let (run, rest) = take_digits s in if run == "" then none else some (run, rest)

-- the match at the start of the text
unfoldable pub match_here : List Part → String → Option String
unfolding match_part
match_here [] s = some ""
match_here (p ∷ ps) s = elim (match_part p s) [
  | none ↦ none
  | some (a, rest) ↦ elim (match_here ps rest) [ none ↦ none | some b ↦ some (a <> b) ]
]

-- `osVersionRegexp.FindString(s)`: the leftmost match, or the empty text
unfoldable pub find_string : List Part → String → String
unfolding match_here
find_string re String.[] = get_or (match_here re String.[]) ""
find_string re (String.◌∷◌ c s) =
    let later = find_string re s in get_or (match_here re (String.◌∷◌ c s)) later

pub record NodeEnv : Type 0 where
  pub label_name : String
  pub get_node : String → Result Node
  pub answer_patch : Node → Option Error

unfoldable pub kernel_of : Node → String
kernel_of node = trim_suffix node.kernel_version b'+'

unfoldable pub os_of : Node → String
unfolding find_string
os_of node = find_string os_version_regexp node.os_image

unfoldable pub with_kernel_label : String → Node → Node
unfolding kernel_of
with_kernel_label label_name node = record node {
  labels = insert label_name (kernel_of node) node.labels;
}

-- `NodeKernelReconciler.Reconcile`: the mapping is set before the patch, and stays if that fails.
unfoldable pub reconcile_node :
    NodeEnv → KernelOsDtkMapping → String → Act (Unit {0}) × KernelOsDtkMapping
unfolding kernel_of os_of with_kernel_label
reconcile_node env m name = elim (env.get_node name) [
  | err e ↦ (raise (wrapv "could not get node" e), m)
  | panic ↦ ((panic, []), m)
  | ok node ↦
      if os_of node == "" then (raise (errorf "could not get node osImageVersion"), m) else (
        wrapping (wrapv "could not patch the node") (
            call (patch_node (with_kernel_label env.label_name node))
              (env.answer_patch (with_kernel_label env.label_name node))),
        set_node_info m (kernel_of node) (os_of node),
      )
]

-- One tag of an ImageStream, with the name of `From` where it is set.
pub record TagReference : Type 0 where
  pub name : String
  pub from : Option String

-- The loop over the tags; `From` of a tag that is not `latest` is read without a test for nil.
unfoldable pub set_tags :
    KernelOsDtkMapping → List TagReference → Result (Unit {0}) × KernelOsDtkMapping
unfolding set_image_stream_info
set_tags m [] = (ok tt, m)
set_tags m (t ∷ ts) = elim (t.name == "latest") [
  | true ↦ set_tags m ts
  | false ↦ elim t.from [
    | none ↦ (panic, m)
    | some dtk ↦ set_tags (set_image_stream_info m t.name dtk) ts
  ]
]

-- `ImageStreamReconciler.Reconcile`
unfoldable pub reconcile_image_stream :
    Result (List TagReference) → KernelOsDtkMapping → Result (Unit {0}) × KernelOsDtkMapping
unfolding set_tags
reconcile_image_stream (err e) m = (err (wrapv "could not get imagestream" e), m)
reconcile_image_stream panic m = (panic, m)
reconcile_image_stream (ok tags) m = set_tags m tags
