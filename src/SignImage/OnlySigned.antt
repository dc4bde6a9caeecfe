-- ===== src/SignImage/OnlySigned.antt =====
-- What has happened when the program ends well.
use rh_kernel_module_managem.Prelude.{
  String, ◌≡◌, refl, ◌⊎◌, inl, inr, Bool, true, false, ◌==◌, Option, none, some, List, [], ◌∷◌,
  ◌++◌, ◌<>◌, All, In, arith, Bool-cases, is_some,
}
use rh_kernel_module_managem.Prelude.Dict.{Dict, lookup, insert, lookup-insert}
use rh_kernel_module_managem.Api.{Result, ok, err, panic}
use rh_kernel_module_managem.Registry.Layers.{TarEntry, Image, walk_files_in_image}
use rh_kernel_module_managem.Registry.Walks.{walk_files_in_image-keeps}
use rh_kernel_module_managem.SignImage.Flags.{Options}
use rh_kernel_module_managem.SignImage.Kmods.{
  Effect, extracted, signed, Files, Work, canonicalise_path, not_found_yet, is_wanted,
  extract_file_to_file, sign_file, take_signed, take_extracted, take_file, take_wanted,
  process_file,
}

pub In-left : {A : Type 0} (a : A) (xs ys : List A) → In a xs → In a (xs ++ ys)
In-left a [] ys h = absurd h
In-left a (x ∷ xs) ys (inl e) = inl e
In-left a (x ∷ xs) ys (inr h) = inr (In-left a xs ys h)

pub In-last : {A : Type 0} (a : A) (xs : List A) → In a (xs ++ a ∷ [])
In-last a [] = inl refl
In-last a (x ∷ xs) = inr (In-last a xs)

-- A file of the image whose path is that of the kernel module was extracted to its place below the
-- directory, and signed there.
pub record IsTaken (dir kmod path : String) (w : List Effect) : Type 0 where
  pub name : String
  pub asked : canonicalise_path name ≡ kmod
  pub place : path ≡ dir <> "/" <> name
  pub was_extracted : In (extracted path name) w
  pub was_signed : In (signed path) w

pub IsTaken-more :
    (dir kmod path : String) (w v : List Effect)
    → ((e : Effect) → In e w → In e v)
    → IsTaken dir kmod path w
    → IsTaken dir kmod path v
IsTaken-more dir kmod path w v more t = record {
  name = t.name;
  asked = t.asked;
  place = t.place;
  was_extracted = more _ t.was_extracted;
  was_signed = more _ t.was_signed;
}

-- Every file of the map is still missing, or it has been extracted and signed.
abbrev pub IsSigned : String → List Effect → String × String → Type 0
IsSigned dir w (kmod, path) = ((path == not_found_yet) ≡ true) ⊎ IsTaken dir kmod path w

module _ (dir : String) (listed : Dict String) where
  -- the map has every listed file, and is truthful
  pub record IsTrue (work : Work) : Type 0 where
    pub truthful : All (IsSigned dir work.effects) work.kmods
    pub complete :
        (f : String) → is_some (lookup f listed) ≡ true → is_some (lookup f work.kmods) ≡ true

  All-IsSigned-insert :
      (w : List Effect) (k p : String) (m : Dict String)
      → All (IsSigned dir w) m
      → IsTaken dir k p w
      → All (IsSigned dir w) (insert k p m)
  unfolding insert
  All-IsSigned-insert w k p [] h i = (inr i, tt)
  All-IsSigned-insert w k p ((j, q) ∷ m) (s, h) i = elim (Bool-cases (j == k)) [
    | inl e ↦ rw e (inr i, h)
    | inr e ↦ rw e (s, All-IsSigned-insert w k p m h i)
  ]

  All-IsSigned-more :
      (w v : List Effect) (m : Dict String) → All (IsSigned dir w) m → All (IsSigned dir (w ++ v)) m
  All-IsSigned-more w v [] h = tt
  All-IsSigned-more w v ((j, q) ∷ m) (inl e, h) = (inl e, All-IsSigned-more w v m h)
  All-IsSigned-more w v ((j, q) ∷ m) (inr i, h) =
      (inr (IsTaken-more dir j q w (w ++ v) (λ x. In-left x w v) i), All-IsSigned-more w v m h)

  still_listed :
      (k p : String) (m : Dict String)
      → ((f : String) → is_some (lookup f listed) ≡ true → is_some (lookup f m) ≡ true)
      → (f : String) → is_some (lookup f listed) ≡ true
      → is_some (lookup f (insert k p m)) ≡ true
  still_listed k p m h f l = ground (arith, lookup-insert k f p m, h f l)

  IsTrue-take_signed :
      (r : Result (Unit {0})) (name canon destination : String) (m : Dict String) (w : List Effect)
      → canonicalise_path name ≡ canon
      → destination ≡ dir <> "/" <> name
      → In (extracted destination name) w
      → All (IsSigned dir w) m
      → ((f : String) → is_some (lookup f listed) ≡ true → is_some (lookup f m) ≡ true)
      → (take_signed r destination (record { kmods = insert canon destination m; effects = w })).0
        ≡ ok tt
      → IsTrue
          (take_signed r destination (record { kmods = insert canon destination m; effects = w })).1
  unfolding take_signed
  IsTrue-take_signed (ok _) name canon destination m w asked place x h l e = record {
    truthful =
        All-IsSigned-insert (w ++ signed destination ∷ []) canon destination m
          (All-IsSigned-more w (signed destination ∷ []) m h)
          (record {
            name = name;
            asked = asked;
            place = place;
            was_extracted = In-left (extracted destination name) w (signed destination ∷ []) x;
            was_signed = In-last (signed destination) w;
          });
    complete = still_listed canon destination m l;
  }
  IsTrue-take_signed (err _) name canon destination m w asked place x h l e = cc
  IsTrue-take_signed panic name canon destination m w asked place x h l e = cc

  IsTrue-take_extracted :
      (r : Result (Unit {0})) (files : Files) (o : Options) (destination canon name : String)
      (work : Work)
      → canonicalise_path name ≡ canon
      → destination ≡ dir <> "/" <> name
      → IsTrue work
      → (take_extracted r files o destination canon name work).0 ≡ ok tt
      → IsTrue (take_extracted r files o destination canon name work).1
  unfolding take_extracted
  IsTrue-take_extracted (ok _) files o destination canon name work asked place i e =
      IsTrue-take_signed (sign_file files destination o.cert o.key) name canon destination
        work.kmods (work.effects ++ extracted destination name ∷ []) asked place
        (In-last (extracted destination name) work.effects)
        (All-IsSigned-more work.effects (extracted destination name ∷ []) work.kmods i.truthful)
        i.complete e
  IsTrue-take_extracted (err x) files o destination canon name work asked place i e = i
  IsTrue-take_extracted panic files o destination canon name work asked place i e = i

  IsTrue-take_wanted :
      (wanted : Option Bool) (files : Files) (o : Options) (canon : String) (e : TarEntry)
      (work : Work)
      → canonicalise_path e.name ≡ canon
      → IsTrue work
      → (take_wanted wanted files o dir canon e work).0 ≡ ok tt
      → IsTrue (take_wanted wanted files o dir canon e work).1
  unfolding take_wanted take_file
  IsTrue-take_wanted none files o canon e work asked i h = i
  IsTrue-take_wanted (some false) files o canon e work asked i h = i
  IsTrue-take_wanted (some true) files o canon e work asked i h =
      IsTrue-take_extracted (extract_file_to_file files (dir <> "/" <> e.name) e) files o
        (dir <> "/" <> e.name) canon e.name work asked refl i h

  pub IsTrue-walk :
      (files : Files) (o : Options) (image : Image) (work : Work)
      → IsTrue work
      → (walk_files_in_image (process_file files o dir) image work).0 ≡ ok tt
      → IsTrue (walk_files_in_image (process_file files o dir) image work).1
  unfolding process_file
  IsTrue-walk files o = walk_files_in_image-keeps (process_file files o dir) IsTrue λ e work.
      IsTrue-take_wanted (is_wanted o work.kmods (canonicalise_path e.name)) files o
        (canonicalise_path e.name) e work refl
