-- ===== src/Examples/RegistryRuns.antt =====
-- Names of images, and the reading of files.
use rh_kernel_module_managem.Prelude.{
  ℕ, String, ◌≡◌, ◌≢◌, ◌<◌, refl, true, ◌==◌, not, some, List, [], ◌∷◌, ◌++◌, ◌<>◌, length, arith,
}
use rh_kernel_module_managem.Api.{Error, ok}
use rh_kernel_module_managem.Registry.{repo_of}
use rh_kernel_module_managem.Registry.Repos.{repo_of_lem}
use rh_kernel_module_managem.Registry.Extract.{
  Reader, ReadStatus, more, eof, failed, zeros, extract_bytes_from_tar, IsFile,
  extract_bytes_from_tar_lem,
}
use rh_kernel_module_managem.Filters.{Selectors, all_valid, find_matching}
use rh_kernel_module_managem.Filters.Enqueued.{find_matching-append}

-- A registry with a port is cut off behind its host.
repo_of_example :
    (repo_of ("host" <> String.◌∷◌ "@" "5000/kmod:1") ≡ "host")
    × (repo_of ("host" <> String.◌∷◌ ":" "5000/kmod:1") ≡ "host")
repo_of_example =
    repo_of_lem "host" "5000/kmod:1" (refl, (refl, (refl, (refl, tt))))
      (refl, (refl, (refl, (refl, tt))))
      (refl, (refl, (refl, (refl, (refl, (refl, (refl, (refl, (refl, (refl, (refl, tt)))))))))))

-- A reader that gives one byte at a time.
abbrev read_one : List ℕ → List ℕ × ReadStatus × List ℕ
read_one [] = ([], eof, [])
read_one (b ∷ bs) = (b ∷ [], more, bs)

abbrev by_bytes : Reader (List ℕ)
by_bytes = record { read = λ bs n. read_one bs }

by_bytes-IsFile : IsFile by_bytes (λ bs. bs) (λ bs. length bs)
by_bytes-IsFile = record {
  pieces = λ bs n h. pieces bs;
  at_end = λ bs n h e. at_end bs e;
  ends = λ bs n h e. ends bs e;
  no_error = λ bs n e h. no_error bs e;
}
  where
    pieces : (bs : List ℕ) → (read_one bs).0 ++ (read_one bs).2 ≡ bs
    pieces [] = refl
    pieces (b ∷ bs) = refl

    at_end : (bs : List ℕ) → (read_one bs).1 ≡ eof → (read_one bs).2 ≡ []
    at_end [] e = refl
    at_end (b ∷ bs) e = cc

    ends : (bs : List ℕ) → (read_one bs).1 ≡ more → length (read_one bs).2 < length bs
    ends [] e = cc
    ends (b ∷ bs) e = omega arith

    no_error : (bs : List ℕ) (e : Error) → (read_one bs).1 ≢ failed e
    no_error [] e p = cc
    no_error (b ∷ bs) e p = cc

extract_bytes_from_tar_example :
    extract_bytes_from_tar by_bytes 4 5 (7 ∷ 8 ∷ 9 ∷ []) ≡ some (ok (7 ∷ 8 ∷ 9 ∷ 0 ∷ 0 ∷ []))
unfolding zeros
extract_bytes_from_tar_example =
    extract_bytes_from_tar_lem by_bytes (λ bs. bs) (λ bs. length bs) by_bytes-IsFile 4 5
      (7 ∷ 8 ∷ 9 ∷ []) (omega arith) (omega arith)

abbrev selectors : Selectors
selectors = record { valid = λ k v. not (v == "bad value"); matches = λ sel labels. true }

find_matching_example :
    (find_matching selectors (λ sel. sel) [] ((("role", "worker") ∷ []) ∷ [])
      ≡ (("role", "worker") ∷ []) ∷ [])
    × (find_matching selectors
          (λ sel. sel)
          []
          ((("role", "worker") ∷ [])
            ∷ (("role", "bad value") ∷ [])
            ∷ (("role", "worker") ∷ [])
            ∷ [])
        ≡ (("role", "worker") ∷ []) ∷ [])
unfolding all_valid
find_matching_example =
    find_matching-append selectors (λ sel. sel) [] ((("role", "worker") ∷ []) ∷ [])
      (("role", "bad value") ∷ []) ((("role", "worker") ∷ []) ∷ []) (refl, tt) refl
