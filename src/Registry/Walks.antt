-- ===== src/Registry/Walks.antt =====
-- The walk through the files of an image keeps what each of its steps keeps.
use rh_kernel_module_managem.Prelude.{◌≡◌, refl, List, [], ◌∷◌, reverse}
use rh_kernel_module_managem.Api.{Error, Result, ok, err, panic, wrapv}
use rh_kernel_module_managem.Registry.Layers.{
  TarEntry, TarStream, archive_end, broken, entry, Layer, Image, and_then, walk_stream, walk_opened,
  walk_layers, walk_fetched, walk_files_in_image,
}

-- What each step of a walk keeps, a walk that ends without an error keeps too.
module _ {S : Type 0} (fn : TarEntry → S → Result (Unit {0}) × S) (I : S → Type 0)
    (keep : (e : TarEntry) (s : S) → I s → (fn e s).0 ≡ ok tt → I (fn e s).1) where
  and_then-keeps :
      (f : Error → Error) (r : Result (Unit {0}) × S) (next : S → Result (Unit {0}) × S)
      → (r.0 ≡ ok tt → I r.1)
      → ((t : S) → I t → (next t).0 ≡ ok tt → I (next t).1)
      → (and_then f r next).0 ≡ ok tt
      → I (and_then f r next).1
  and_then-keeps f (ok tt, t) next k ih h = ih t (k refl) h
  and_then-keeps f (err x, t) next k ih h = cc
  and_then-keeps f (panic, t) next k ih h = cc

  walk_stream-keeps :
      (stream : TarStream) (s : S)
      → I s
      → (walk_stream fn stream s).0 ≡ ok tt
      → I (walk_stream fn stream s).1
  unfolding walk_stream
  walk_stream-keeps archive_end s i h = i
  walk_stream-keeps (broken e) s i h = i
  walk_stream-keeps (entry e rest) s i h =
      and_then-keeps (wrapv "died processing file") (fn e s) (walk_stream fn rest) (keep e s i)
        (walk_stream-keeps rest) h

  walk_opened-keeps :
      (r : Result TarStream) (s : S)
      → I s
      → (walk_opened fn r s).0 ≡ ok tt
      → I (walk_opened fn r s).1
  unfolding walk_opened
  walk_opened-keeps (ok stream) s i h = walk_stream-keeps stream s i h
  walk_opened-keeps (err e) s i h = i
  walk_opened-keeps panic s i h = i

  walk_layers-keeps :
      (layers : List Layer) (s : S)
      → I s
      → (walk_layers fn layers s).0 ≡ ok tt
      → I (walk_layers fn layers s).1
  unfolding walk_layers
  walk_layers-keeps [] s i h = i
  walk_layers-keeps (layer ∷ layers) s i h =
      and_then-keeps (λ e. e) (walk_opened fn layer.uncompressed s) (walk_layers fn layers)
        (walk_opened-keeps layer.uncompressed s i) (walk_layers-keeps layers) h

  walk_fetched-keeps :
      (r : Result (List Layer)) (s : S)
      → I s
      → (walk_fetched fn r s).0 ≡ ok tt
      → I (walk_fetched fn r s).1
  unfolding walk_fetched
  walk_fetched-keeps (ok layers) s i h = walk_layers-keeps (reverse layers) s i h
  walk_fetched-keeps (err e) s i h = i
  walk_fetched-keeps panic s i h = i

  pub walk_files_in_image-keeps :
      (image : Image) (s : S)
      → I s
      → (walk_files_in_image fn image s).0 ≡ ok tt
      → I (walk_files_in_image fn image s).1
  unfolding walk_files_in_image
  walk_files_in_image-keeps image = walk_fetched-keeps image.layers
