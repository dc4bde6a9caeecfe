-- ===== src/Prelude/Text.antt =====
-- Go's `strings` functions that the program calls, on native texts. A separator is one ASCII
-- character in every call, and is given by its code.
use Prim.Native.Nat.{ℕ}
use Prim.Native.Char.{Char, code}
use Prim.Native.String
use Prim.Native.String.{String}
use text.Mathlib.Text.{is_le, ◌==◌}
use mathlib.Core.Bool.{Bool, true, false, ◌&&◌, ◌||◌}
use mathlib.Core.List.{List, [], ◌∷◌}
use rh_kernel_module_managem.Prelude.Tests.{if◌then◌else◌, ◌=ℕ◌}

-- `s + t`
infixr 68 ◌<>◌
abbrev pub ◌<>◌ : String → String → String
s <> t = String.◌++◌ s t

-- `strings.Contains(s, sep)`
unfoldable pub contains_char : String → ℕ → Bool
contains_char String.[] sep = false
contains_char (String.◌∷◌ c s) sep = (code c =ℕ sep) || contains_char s sep

-- Go's result of a split is never empty: its first part and the parts behind it.
abbrev push_char : Char → List String → List String
push_char c [] = String.◌∷◌ c String.[] ∷ []
push_char c (p ∷ ps) = String.◌∷◌ c p ∷ ps

-- `regexp.Split(s, -1)` for a class of single characters, and `strings.Split(s, sep)`
unfoldable pub split_on : (ℕ → Bool) → String → List String
split_on is_sep String.[] = String.[] ∷ []
split_on is_sep (String.◌∷◌ c s) =
    let rest = split_on is_sep s in if is_sep (code c) then String.[] ∷ rest else push_char c rest

-- `strings.Join(parts, sep)`
unfoldable pub join : List String → String → String
join [] sep = ""
join (p ∷ []) sep = p
join (p ∷ q ∷ ps) sep = p <> sep <> join (q ∷ ps) sep

-- `strings.TrimSuffix(s, c)` for one character
unfoldable pub trim_suffix : String → ℕ → String
trim_suffix String.[] sep = String.[]
trim_suffix (String.◌∷◌ c String.[]) sep =
    if code c =ℕ sep then String.[] else String.◌∷◌ c String.[]
trim_suffix (String.◌∷◌ c (String.◌∷◌ d s)) sep = String.◌∷◌ c (trim_suffix (String.◌∷◌ d s) sep)

-- `sort.Strings`: ascending by bytes
unfoldable pub insert_sorted : String → List String → List String
insert_sorted x [] = x ∷ []
insert_sorted x (y ∷ ys) = if is_le (String.compare x y) then x ∷ y ∷ ys else y ∷ insert_sorted x ys

unfoldable pub sort_strings : List String → List String
unfolding insert_sorted
sort_strings [] = []
sort_strings (x ∷ xs) = insert_sorted x (sort_strings xs)

-- `set.Has(n)`
abbrev pub mem : String → List String → Bool
mem n [] = false
mem n (x ∷ xs) = (x == n) || mem n xs

-- `strings.HasPrefix(s, prefix)`
unfoldable pub has_prefix : String → String → Bool
has_prefix s String.[] = true
has_prefix String.[] (String.◌∷◌ d p) = false
has_prefix (String.◌∷◌ c s) (String.◌∷◌ d p) = (code c =ℕ code d) && has_prefix s p

-- `strings.Contains(s, part)`
unfoldable pub contains : String → String → Bool
unfolding has_prefix
contains String.[] part = has_prefix String.[] part
contains (String.◌∷◌ c s) part = has_prefix (String.◌∷◌ c s) part || contains s part
