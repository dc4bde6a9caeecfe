-- ===== src/Registry/Layers.antt =====
-- The files in the layers of an image, as archive/tar reads them.
use Prim.Native.Char.{code}
use rh_kernel_module_managem.Prelude.{
  ℕ, String, Bool, ◌=ℕ◌, ◌==◌, ◌≡◌, refl, List, [], ◌∷◌, ◌++◌, reverse, if◌then◌else◌, join_path,
  mem, arith,
}
use rh_kernel_module_managem.Api.{
  Error, Result, ok, err, panic, errorf, wrapw, wrapv, wrap_err, is_ok,
}
use rh_kernel_module_managem.Registry.{PullOption, with_auth, get_transport_options}

-- One file of an archive: its header's name and size, and what reading it gives.
pub record TarEntry : Type 0 where
  pub name : String
  pub size : ℕ
  pub content : Result (List ℕ)

-- What `Next` gives in turn: headers, and at last the end of the archive or another error.
pub data TarStream : Type 0 where
  archive_end : TarStream
  broken : Error → TarStream
  entry : TarEntry → TarStream → TarStream

-- v1.Layer and v1.Image, with what the program asks them for
pub record Layer : Type 0 where
  pub uncompressed : Result TarStream
  pub media_type : Result String

pub record Image : Type 0 where
  pub layers : Result (List Layer)
  pub media_type : Result String

-- the archive up to the header of that name
unfoldable pub find_header : String → TarStream → Result TarEntry
find_header name archive_end = err (errorf "header not found in the layer")
find_header name (broken e) = err (wrapw "failed to get next entry from targz" e)
find_header name (entry e rest) =
    let later = find_header name rest in if e.name == name then ok e else later

unfoldable pub get_header_reader_from_layer : Layer → String → Result TarEntry
unfolding find_header
get_header_reader_from_layer layer name = elim layer.uncompressed [
  | ok stream ↦ find_header name stream
  | err e ↦ err (wrapv "failed to get layerreader from layer" e)
  | panic ↦ panic
]

unfoldable pub get_header_data_from_layer : Layer → String → Result (List ℕ)
unfolding get_header_reader_from_layer
get_header_data_from_layer layer name = elim (get_header_reader_from_layer layer name) [
  | ok e ↦ wrap_err (wrapv "failed to read header data") e.content
  | err e ↦ err (wrapv "failed to get reader for the header in the layer" e)
  | panic ↦ panic
]

-- `strings.TrimPrefix(s, "/")`
unfoldable pub trim_slash : String → String
trim_slash String.[] = String.[]
trim_slash (String.◌∷◌ c s) = if code c =ℕ b'/' then s else String.◌∷◌ c s

unfoldable pub module_path : String → String → String → String
unfolding join_path trim_slash
module_path path_prefix kernel_version module_file_name =
    join_path (trim_slash path_prefix ∷ "lib/modules" ∷ kernel_version ∷ module_file_name ∷ [])

unfoldable pub verify_module_exists : Layer → String → String → String → Bool
unfolding get_header_reader_from_layer module_path
verify_module_exists layer path_prefix kernel_version module_file_name =
    is_ok
      (get_header_reader_from_layer layer (module_path path_prefix kernel_version module_file_name))

-- the names of the files that can be reached
unfoldable pub names_of : TarStream → List String
names_of archive_end = []
names_of (broken e) = []
names_of (entry e rest) = e.name ∷ names_of rest

find_header-mem :
    (name : String) (stream : TarStream)
    → is_ok (find_header name stream) ≡ mem name (names_of stream)
unfolding find_header names_of
find_header-mem name archive_end = refl
find_header-mem name (broken e) = refl
find_header-mem name (entry e rest) = ground (arith, find_header-mem name rest)

-- A module is found in a layer that can be read exactly if the archive holds its path, before any
-- header that cannot be read.
pub verify_module_exists_lem :
    (layer : Layer) (stream : TarStream) (path_prefix kernel_version file : String)
    → layer.uncompressed ≡ ok stream
    → verify_module_exists layer path_prefix kernel_version file
      ≡ mem (module_path path_prefix kernel_version file) (names_of stream)
unfolding verify_module_exists get_header_reader_from_layer
verify_module_exists_lem layer stream p k f h =
    ground (arith, h, find_header-mem (module_path p k f) stream)

-- `if err != nil { return … }` behind a step on the walk's state
abbrev pub and_then {ℓ} :
    {S : Type ℓ}
    → (Error → Error)
    → Result (Unit {0}) × S
    → (S → Result (Unit {0}) × S)
    → Result (Unit {0}) × S
and_then f (ok _, t) next = next t
and_then f (err x, t) next = (err (f x), t)
and_then f (panic, t) next = (panic, t)

module _ {S : Type 0} (fn : TarEntry → S → Result (Unit {0}) × S) where
  -- One layer: any error of `Next` comes without a header, and ends the layer like its end does.
  unfoldable pub walk_stream : TarStream → S → Result (Unit {0}) × S
  walk_stream archive_end s = (ok tt, s)
  walk_stream (broken e) s = (ok tt, s)
  walk_stream (entry e rest) s =
      and_then (wrapv "died processing file") (fn e s) λ t. walk_stream rest t

  unfoldable pub walk_opened : Result TarStream → S → Result (Unit {0}) × S
  unfolding walk_stream
  walk_opened (err e) s = (err (wrapv "could not get layer" e), s)
  walk_opened panic s = (panic, s)
  walk_opened (ok stream) s = walk_stream stream s

  unfoldable pub walk_layers : List Layer → S → Result (Unit {0}) × S
  unfolding walk_opened
  walk_layers [] s = (ok tt, s)
  walk_layers (layer ∷ layers) s =
      and_then (λ e. e) (walk_opened layer.uncompressed s) λ t. walk_layers layers t

  -- from the last layer to the first
  unfoldable pub walk_fetched : Result (List Layer) → S → Result (Unit {0}) × S
  unfolding walk_layers
  walk_fetched (err e) s = (err (wrapv "could not get the layers from the fetched image" e), s)
  walk_fetched panic s = (panic, s)
  walk_fetched (ok layers) s = walk_layers (reverse layers) s

  unfoldable pub walk_files_in_image : Image → S → Result (Unit {0}) × S
  unfolding walk_fetched
  walk_files_in_image image s = walk_fetched image.layers s

-- `layers[len(layers)-1].MediaType()`, which panics on no layers
unfoldable pub last_media_type : List Layer → Result String
last_media_type [] = panic
last_media_type (layer ∷ []) = layer.media_type
last_media_type (_ ∷ layer ∷ layers) = last_media_type (layer ∷ layers)

unfoldable pub get_layer_media_type : Image → Result String
unfolding last_media_type
get_layer_media_type image = elim image.layers [
  | ok layers ↦ last_media_type layers
  | err e ↦ err (wrapv "could not get the layers from image" e)
  | panic ↦ panic
]

-- What go-containerregistry does with a tarball and an image.
pub record Mutations : Type 0 where
  pub layer_from_file : String → String → Result Layer
  pub append_layers : Image → Layer → Result Image
  pub set_media_type : Image → Result String → Image

unfoldable pub add_layer_to_image : Mutations → String → Image → Result Image
unfolding get_layer_media_type
add_layer_to_image m tarfile image = elim (get_layer_media_type image) [
  | err e ↦ err e
  | panic ↦ panic
  | ok media_type ↦ elim (m.layer_from_file tarfile media_type) [
    | err e ↦ err (wrapv "failed to generate layer from tar" e)
    | panic ↦ panic
    | ok layer ↦ elim (m.append_layers image layer) [
      | err e ↦ err (wrapv "failed to append layer" e)
      | panic ↦ panic
      | ok new ↦ ok (m.set_media_type new image.media_type)
    ]
  ]
]

-- what both calls of crane are given
unfoldable pub client_options : String → Bool → Bool → List PullOption
client_options auth insecure skip_tls_verify =
    get_transport_options insecure skip_tls_verify ++ with_auth auth ∷ []

-- `push` and `pull` are crane's.
unfoldable pub write_image_by_name :
    (Image → String → List PullOption → Result (Unit {0}))
    → String
    → Image
    → String
    → Bool
    → Bool
    → Result (Unit {0})
unfolding client_options
write_image_by_name push image_name image auth insecure skip_tls_verify =
    wrap_err (wrapv "failed to push signed image")
      (push image image_name (client_options auth insecure skip_tls_verify))

unfoldable pub get_image_by_name :
    (String → List PullOption → Result Image) → String → String → Bool → Bool → Result Image
unfolding client_options
get_image_by_name pull image_name auth insecure skip_tls_verify =
    wrap_err (wrapv "could not get image")
      (pull image_name (client_options auth insecure skip_tls_verify))
