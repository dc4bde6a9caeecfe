-- ===== src/SignImage/Flags.antt =====
-- The command line: Go's `flag.Parse` with the flags that `main` defines, and `checkArg`.
use Prim.Native.Char.{Char, code}
use rh_kernel_module_managem.Prelude.{
  ℕ, String, Bool, true, false, ◌==◌, ◌=ℕ◌, ◌||◌, Option, none, some, List, [], ◌∷◌, ◌<>◌,
  if◌then◌else◌, mem,
}

pub record Options : Type 0 where
  pub unsigned_image : String
  pub signed_image : String
  pub files_to_sign : String
  pub key : String
  pub cert : String
  pub secret_dir : String
  pub no_push : Bool
  pub insecure_pull : Bool
  pub skip_tls_verify_pull : Bool
  pub insecure_push : Bool
  pub skip_tls_verify_push : Bool

abbrev pub default_options : Options
default_options = record {
  unsigned_image = "";
  signed_image = "";
  files_to_sign = "";
  key = "";
  cert = "";
  secret_dir = "";
  no_push = false;
  insecure_pull = false;
  skip_tls_verify_pull = false;
  insecure_push = false;
  skip_tls_verify_push = false;
}

-- `flag.StringVar` of that name
unfoldable pub set_string : String → Option (String → Options → Options)
set_string name =
    if name == "unsignedimage"
    then some (λ v o. record o { unsigned_image = v })
    else if name == "signedimage"
    then some (λ v o. record o { signed_image = v })
    else if name == "filestosign"
    then some (λ v o. record o { files_to_sign = v })
    else if name == "key"
    then some (λ v o. record o { key = v })
    else if name == "cert"
    then some (λ v o. record o { cert = v })
    else if name == "secretdir"
    then some (λ v o. record o { secret_dir = v })
    else none

-- `flag.BoolVar` of that name
unfoldable pub set_bool : String → Option (Bool → Options → Options)
set_bool name =
    if name == "no-push"
    then some (λ b o. record o { no_push = b })
    else if name == "insecure-pull"
    then some (λ b o. record o { insecure_pull = b })
    else if name == "skip-tls-verify-pull"
    then some (λ b o. record o { skip_tls_verify_pull = b })
    else if name == "insecure"
    then some (λ b o. record o { insecure_push = b })
    else if name == "skip-tls-verify"
    then some (λ b o. record o { skip_tls_verify_push = b })
    else none

-- `strconv.ParseBool`
unfoldable pub parse_bool : String → Option Bool
parse_bool s =
    if mem s ("1" ∷ "t" ∷ "T" ∷ "true" ∷ "TRUE" ∷ "True" ∷ [])
    then some true
    else if mem s ("0" ∷ "f" ∷ "F" ∷ "false" ∷ "FALSE" ∷ "False" ∷ [])
    then some false
    else none

-- An argument as `flag` reads it.
pub data Argument : Type 0 where
  positional terminator bad_syntax : Argument
  flag : String → Option String → Argument

-- a name up to a `=`, and the value behind it
unfoldable pub split_value : String → String × Option String
split_value String.[] = (String.[], none)
split_value (String.◌∷◌ c s) =
    let (name, value) = split_value s in
    if code c =ℕ b'=' then (String.[], some s) else (String.◌∷◌ c name, value)

-- what is behind the dashes; a name does not start with `-` or `=`
unfoldable pub read_name : String → Argument
unfolding split_value
read_name String.[] = bad_syntax
read_name (String.◌∷◌ c s) =
    if (code c =ℕ b'-') || (code c =ℕ b'=')
    then bad_syntax
    else let (name, value) = split_value (String.◌∷◌ c s) in flag name value

unfoldable pub read_second : Char → String → Argument
unfolding read_name
read_second d String.[] = if code d =ℕ b'-' then terminator else read_name (String.◌∷◌ d String.[])
read_second d (String.◌∷◌ e s) =
    if code d =ℕ b'-' then read_name (String.◌∷◌ e s) else read_name (String.◌∷◌ d (String.◌∷◌ e s))

unfoldable pub read_argument : String → Argument
unfolding read_second
read_argument String.[] = positional
read_argument (String.◌∷◌ c String.[]) = positional
read_argument (String.◌∷◌ c (String.◌∷◌ d s)) =
    if code c =ℕ b'-' then read_second d s else positional

-- Options, or the exit of a program that was asked for help or called wrongly.
pub data Parsed : Type 0 where
  parsed : Options → Parsed
  exits : ℕ → Parsed

-- What one argument does: end the flags, end the program, set options, or wait for a value.
pub data Step : Type 0 where
  stop : Step
  leave : ℕ → Step
  set : Options → Step
  wait : (String → Options) → Step

unfoldable pub bool_step : (Bool → Options → Options) → Option String → Options → Step
unfolding parse_bool
bool_step f none o = set (f true o)
bool_step f (some v) o = elim (parse_bool v) [ none ↦ leave 2 | some b ↦ set (f b o) ]

unfoldable pub string_step : (String → Options → Options) → Option String → Options → Step
string_step f none o = wait (λ v. f v o)
string_step f (some v) o = set (f v o)

unfoldable pub flag_step : String → Option String → Options → Step
unfolding set_string set_bool bool_step string_step
flag_step name value o = elim (set_string name) [
  | some f ↦ string_step f value o
  | none ↦ elim (set_bool name) [
    | some f ↦ bool_step f value o
    | none ↦ if (name == "help") || (name == "h") then leave 0 else leave 2
  ]
]

unfoldable pub argument_step : String → Options → Step
unfolding read_argument flag_step
argument_step arg o = elim (read_argument arg) [
  | positional ↦ stop
  | terminator ↦ stop
  | bad_syntax ↦ leave 2
  | flag name value ↦ flag_step name value o
]

unfoldable pub parse_flags : List String → Options → Parsed
unfolding argument_step
parse_flags [] o = parsed o
parse_flags (arg ∷ []) o = elim (argument_step arg o) [
  | stop ↦ parsed o
  | leave code ↦ exits code
  | set o' ↦ parsed o'
  | wait f ↦ exits 2
]
parse_flags (arg ∷ value ∷ rest) o = elim (argument_step arg o) [
  | stop ↦ parsed o
  | leave code ↦ exits code
  | set o' ↦ parse_flags (value ∷ rest) o'
  | wait f ↦ parse_flags rest (f value)
]

unfoldable pub parse_args : List String → Parsed
unfolding parse_flags
parse_args args = parse_flags args default_options

-- `checkArg`: a value, the fallback, or `none` where the program prints its usage and exits with 0.
unfoldable pub check_arg : String → String → Option String
check_arg arg fallback =
    if arg == "" then (if fallback == "" then none else some fallback) else some arg

-- the checks in their order
unfoldable pub check_args : Options → Option Options
check_args o = elim (check_arg o.unsigned_image "") [
  | none ↦ none
  | some unsigned ↦ elim (check_arg o.signed_image (unsigned <> "signed")) [
    | none ↦ none
    | some signed ↦ elim (check_arg o.files_to_sign "") [
      | none ↦ none
      | some files ↦ elim (check_arg o.key "") [
        | none ↦ none
        | some key ↦ elim (check_arg o.cert "") [
          | none ↦ none
          | some cert ↦ elim (check_arg o.secret_dir "") [
            | none ↦ none
            | some dir ↦ some (record o { signed_image = signed })
          ]
        ]
      ]
    ]
  ]
]
