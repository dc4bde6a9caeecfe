-- ===== src/Prelude/Paths.antt =====
-- Go's `path/filepath` on Unix, for the functions that the program calls.
use Prim.Native.Nat.{ℕ}
use Prim.Native.Char.{code}
use Prim.Native.String.{String}
use mathlib.Core.Path.{◌≡◌, refl}
use mathlib.Core.Bool.{Bool, false, not, ◌||◌}
use mathlib.Core.List.{List, [], ◌∷◌}
use text.Mathlib.Text.{◌==◌}
use rh_kernel_module_managem.Prelude.Tests.{if◌then◌else◌, ◌=ℕ◌}
use rh_kernel_module_managem.Prelude.Lists.{reverse, filter}
use rh_kernel_module_managem.Prelude.Text.{◌<>◌, split_on, join}

unfoldable pub is_slash : ℕ → Bool
is_slash c = c =ℕ b'/'

unfoldable pub is_rooted : String → Bool
is_rooted String.[] = false
is_rooted (String.◌∷◌ c s) = code c =ℕ b'/'

-- One part put on what stands before it, which is held last part first: `..` takes one away, and
-- at the front of a path it stays, but in a rooted one.
unfoldable pub put_part : Bool → List String → String → List String
put_part rooted [] part = if part == ".." then (if rooted then [] else ".." ∷ []) else part ∷ []
put_part rooted (top ∷ before) part =
    if part == ".."
    then (if top == ".." then ".." ∷ top ∷ before else before)
    else part ∷ top ∷ before

unfoldable pub is_skipped : String → Bool
is_skipped part = (part == "") || (part == ".")

unfoldable pub put_parts : Bool → List String → List String → List String
unfolding put_part is_skipped
put_parts rooted before [] = before
put_parts rooted before (part ∷ parts) =
    put_parts rooted (if is_skipped part then before else put_part rooted before part) parts

-- `filepath.Clean(path)`
unfoldable pub clean : String → String
unfolding put_parts is_rooted is_slash split_on join
clean path =
    let rooted = is_rooted path in
    let text = join (reverse (put_parts rooted [] (split_on is_slash path))) "/" in
    if rooted then "/" <> text else if text == "" then "." else text

-- `filepath.Join(parts...)`
unfoldable pub join_path : List String → String
unfolding clean join
join_path parts = join_nonempty (filter (λ p. not (p == "")) parts)
  where
    join_nonempty : List String → String
    join_nonempty [] = ""
    join_nonempty (p ∷ ps) = clean (join (p ∷ ps) "/")

-- the parts of a path with nothing in place of the last
unfoldable blank_last : List String → List String
blank_last [] = []
blank_last (p ∷ []) = "" ∷ []
blank_last (p ∷ q ∷ ps) = p ∷ blank_last (q ∷ ps)

-- `filepath.Dir(path)`
unfoldable pub dir_of : String → String
unfolding clean blank_last split_on join is_slash
dir_of path = clean (join (blank_last (split_on is_slash path)) "/")

dir_of_examples :
    (dir_of "/tmp/kmod_signer/lib/a.ko" ≡ "/tmp/kmod_signer/lib")
    × (dir_of "/a" ≡ "/")
    × (dir_of "a" ≡ ".")
unfolding dir_of
dir_of_examples = (refl, refl, refl)
