-- ===== src/Images/Names.antt =====
-- The name of the image before it is signed.
use Prim.Native.String.{len}
use Prim.Native.String.append
use text.Mathlib.TextPositions.{len-append}
use rh_kernel_module_managem.Prelude.{
  ℕ, ◌<◌, String, ◌≡◌, ◌≢◌, refl, ap, Bool, true, false, ◌||◌, arith, ◌<>◌, contains_char,
  if◌then◌else◌,
}
use rh_kernel_module_managem.Images.{append_to_tag, intermediate_image_name}

separator-len : (b : Bool) → len (if b then "_" else ":") ≡ 1
separator-len true = refl
separator-len false = refl

pub len-lt-append_to_tag : (name tag : String) → len name < len (append_to_tag name tag)
unfolding append_to_tag
len-lt-append_to_tag name tag =
    rw (len-append, len-append) (omega (arith, separator-len (contains_char name b':')))

contains_char-append :
    (s t : String) (c : ℕ) → contains_char (s <> t) c ≡ (contains_char s c || contains_char t c)
unfolding contains_char
contains_char-append String.[] t c = rw append.nil
contains_char-append (String.◌∷◌ d s) t c =
    rw append.cons (ground (arith, contains_char-append s t c))

-- The intermediate image is never the image that signing produces.
pub intermediate_image_name_ne :
    (name namespace image : String) → intermediate_image_name name namespace image ≢ image
unfolding intermediate_image_name
intermediate_image_name_ne name namespace image e =
    let longer = len-lt-append_to_tag image (namespace <> "_" <> name <> "_kmm_unsigned") in
    omega (arith, longer, ap len e)
