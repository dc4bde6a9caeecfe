-- ===== src/SignImage/Kmods.antt =====
-- The files to sign, and what is done with each file of the image.
use rh_kernel_module_managem.Prelude.{
  ℕ, String, Bool, true, false, ◌==◌, ◌&&◌, Option, none, some, List, [], ◌∷◌, ◌++◌, ◌<>◌,
  if◌then◌else◌, get_or, clean, dir_of,
}
use rh_kernel_module_managem.Prelude.Dict.{Dict, lookup, insert}
use rh_kernel_module_managem.Api.{Result, ok, err, panic, wrapv}
use rh_kernel_module_managem.Registry.Layers.{TarEntry}
use rh_kernel_module_managem.SignImage.Flags.{Options}

pub data Effect : Type 0 where
  extracted : String → String → Effect  -- where to, and from which header
  signed : String → Effect
  added : String → String → Effect  -- which file, and under which name
  pushed : String → Effect

-- The file system and the program that signs a file.
pub record Files : Type 0 where
  pub make_dirs : String → Result (Unit {0})
  pub write_file : String → List ℕ → Result (Unit {0})
  pub run_sign_file : String → String → String → Result (Unit {0})

pub record Work : Type 0 where
  pub kmods : Dict String
  pub effects : List Effect

unfoldable pub canonicalise_path : String → String
unfolding clean
canonicalise_path path = clean ("/" <> path)

abbrev pub not_found_yet : String
not_found_yet = "not found"

-- The map of what is to be signed; `none` where a path is not absolute.
unfoldable pub kmods_to_sign : List String → Dict String → Option (Dict String)
unfolding canonicalise_path insert
kmods_to_sign [] m = some m
kmods_to_sign (x ∷ xs) m = elim (canonicalise_path x == x) [
  | true ↦ kmods_to_sign xs (insert x not_found_yet m)
  | false ↦ none
]

-- `ExtractFileToFile`: the content is what extracting the header's size of bytes gives.
unfoldable pub extract_file_to_file : Files → String → TarEntry → Result (Unit {0})
unfolding dir_of
extract_file_to_file files destination e = elim e.content [
  | err x ↦ err (wrapv "could not read file" x)
  | panic ↦ panic
  | ok bytes ↦ elim (files.make_dirs (dir_of destination)) [
    | err x ↦ err (wrapv "could not create directory structure" x)
    | panic ↦ panic
    | ok _ ↦ elim (files.write_file destination bytes) [
      | err x ↦ err (wrapv "could not create temp" x)
      | panic ↦ panic
      | ok _ ↦ ok tt
    ]
  ]
]

unfoldable pub sign_file : Files → String → String → String → Result (Unit {0})
sign_file files filename public_key private_key =
    elim (files.run_sign_file private_key public_key filename) [
      | err x ↦ err (wrapv "signing returned" x)
      | panic ↦ panic
      | ok _ ↦ ok tt
    ]

-- `name[len(name)-3:] == ".ko"`; `none` where the name is shorter, which panics
unfoldable pub has_ko_suffix : String → Option Bool
has_ko_suffix String.[] = none
has_ko_suffix (String.◌∷◌ a String.[]) = none
has_ko_suffix (String.◌∷◌ a (String.◌∷◌ b String.[])) = none
has_ko_suffix (String.◌∷◌ a (String.◌∷◌ b (String.◌∷◌ c String.[]))) =
    some (String.◌∷◌ a (String.◌∷◌ b (String.◌∷◌ c String.[])) == ".ko")
has_ko_suffix (String.◌∷◌ a (String.◌∷◌ b (String.◌∷◌ c (String.◌∷◌ d s)))) =
    has_ko_suffix (String.◌∷◌ b (String.◌∷◌ c (String.◌∷◌ d s)))

-- Whether a file is to be signed: it is listed and not found yet, or nothing is listed and it is a
-- module that was not met before.
unfoldable pub is_wanted : Options → Dict String → String → Option Bool
unfolding has_ko_suffix lookup
is_wanted o kmods canon =
    let found = get_or (lookup canon kmods) "" in
    if found == not_found_yet
    then some true
    else if (o.files_to_sign == "") && (found == "")
    then has_ko_suffix canon
    else some false

-- The map has the file before it is signed.
unfoldable pub take_signed : Result (Unit {0}) → String → Work → Result (Unit {0}) × Work
take_signed (err x) destination work = (err (wrapv "error signing file" x), work)
take_signed panic destination work = (panic, work)
take_signed (ok _) destination work =
    (ok tt, record work { effects = work.effects ++ signed destination ∷ [] })

unfoldable pub take_extracted :
    Result (Unit {0}) → Files → Options → String → String → String → Work → Result (Unit {0}) × Work
unfolding take_signed sign_file insert
take_extracted (err x) files o destination canon name work = (err x, work)
take_extracted panic files o destination canon name work = (panic, work)
take_extracted (ok _) files o destination canon name work =
    take_signed (sign_file files destination o.cert o.key) destination (record {
      kmods = insert canon destination work.kmods;
      effects = work.effects ++ extracted destination name ∷ [];
    })

unfoldable pub take_file :
    Files → Options → String → String → TarEntry → Work → Result (Unit {0}) × Work
unfolding extract_file_to_file take_extracted
take_file files o dir canon e work =
    let destination = dir <> "/" <> e.name in
    take_extracted (extract_file_to_file files destination e) files o destination canon e.name work

unfoldable pub take_wanted :
    Option Bool → Files → Options → String → String → TarEntry → Work → Result (Unit {0}) × Work
unfolding take_file
take_wanted none files o dir canon e work = (panic, work)
take_wanted (some false) files o dir canon e work = (ok tt, work)
take_wanted (some true) files o dir canon e work = take_file files o dir canon e work

unfoldable pub process_file : Files → Options → String → TarEntry → Work → Result (Unit {0}) × Work
unfolding is_wanted take_wanted canonicalise_path
process_file files o dir e work =
    let canon = canonicalise_path e.name in
    take_wanted (is_wanted o work.kmods canon) files o dir canon e work
