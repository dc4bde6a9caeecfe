-- ===== src/SignImage/Credentials.antt =====
-- The credentials for the two registries, from the files of a directory.
use rh_kernel_module_managem.Prelude.{
  String, Bool, ◌==◌, Option, none, some, List, [], ◌∷◌, if◌then◌else◌, contains,
}
use rh_kernel_module_managem.Prelude.Dict.{Dict, lookup}

-- What `WalkDir` meets below its root: a path, whether it is a directory, and the text of the file,
-- where it can be opened and read.
pub record CredentialFiles : Type 0 where
  pub path : String
  pub is_dir : Bool
  pub content : Option String

-- `json.Unmarshal` to a map of raw texts and to a map of credentials; `none` is an error.
pub record Decoder : Type 0 where
  pub raw_messages : String → Option (Dict String)
  pub auth_configs : String → Option (Dict String)

pub record RepoAuth : Type 0 where
  pub pull_repo : String
  pub push_repo : String
  pub pull_auth : String
  pub push_auth : String

-- The credentials that were found; `none` is a nil pointer.
pub record Found : Type 0 where
  pub pull : Option String
  pub push : Option String

abbrev or_keep : Option String → Option String → Option String
or_keep (some a) old = some a
or_keep none old = old

-- The file is a map of credentials, or a map that holds one as `auths`.
unfoldable pub all_auth_configs : Decoder → String → Option (Dict String)
unfolding lookup
all_auth_configs d text = elim (d.raw_messages text) [
  | none ↦ none
  | some result ↦ elim (lookup "auths" result) [
    | some raw ↦ d.auth_configs raw
    | none ↦ d.auth_configs text
  ]
]

unfoldable pub take_auths : String → String → Option (Dict String) → Found → Found
unfolding lookup
take_auths pull_repo push_repo none f = f
take_auths pull_repo push_repo (some auths) f = record {
  pull = or_keep (lookup pull_repo auths) f.pull;
  push = or_keep (lookup push_repo auths) f.push;
}

-- A file that cannot be read or decoded is passed over.
unfoldable pub get_auth_from_single_file : Decoder → String → String → Option String → Found → Found
unfolding all_auth_configs take_auths
get_auth_from_single_file d pull_repo push_repo none f = f
get_auth_from_single_file d pull_repo push_repo (some text) f =
    take_auths pull_repo push_repo (all_auth_configs d text) f

-- `authDirFileHandler` on one path. Below a directory with `..` in its path nothing is read: every
-- path there has `..` too.
unfoldable pub auth_dir_file_handler : Decoder → String → String → CredentialFiles → Found → Found
unfolding get_auth_from_single_file contains
auth_dir_file_handler d pull_repo push_repo file f =
    if contains file.path ".."
    then f
    else if file.is_dir
    then f
    else get_auth_from_single_file d pull_repo push_repo file.content f

unfoldable pub populate_auth_from_file_list :
    Decoder → String → String → List CredentialFiles → Found → Found
unfolding auth_dir_file_handler
populate_auth_from_file_list d pull_repo push_repo [] f = f
populate_auth_from_file_list d pull_repo push_repo (x ∷ xs) f =
    populate_auth_from_file_list d pull_repo push_repo xs
      (auth_dir_file_handler d pull_repo push_repo x f)

abbrev or_anonymous : Option String → String
or_anonymous none = "anonymous"
or_anonymous (some a) = a

unfoldable pub new_repo_auth : Decoder → List CredentialFiles → String → String → RepoAuth
unfolding populate_auth_from_file_list
new_repo_auth d files pull_repo push =
    let push_repo = if push == "" then pull_repo else push in
    let found =
      populate_auth_from_file_list d pull_repo push_repo files
        (record { pull = none; push = none }) in
    record {
      pull_repo = pull_repo;
      push_repo = push_repo;
      pull_auth = or_anonymous found.pull;
      push_auth = or_anonymous found.push;
    }
