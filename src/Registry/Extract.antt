-- ===== src/Registry/Extract.antt =====
-- `ExtractBytesFromTar`: a loop that reads into what is left of a buffer until the reader ends.
use rh_kernel_module_managem.Prelude.{
  ℕ, zero, suc, ◌+◌, ◌-◌, ◌≤◌, ◌<◌, ◌≡◌, ◌≢◌, refl, sym, ap, ◌∙◌, Option, none, some, List, [], ◌∷◌,
  ◌++◌, append-nil, append_assoc, length, arith,
}
use rh_kernel_module_managem.Api.{Error, Result, ok, err, wrapv}

-- What one `Read` returns beside its bytes: no error, `io.EOF`, or another error.
pub data ReadStatus : Type 0 where
  more eof : ReadStatus
  failed : Error → ReadStatus

-- io.Reader: a read into a buffer of that length.
pub record Reader (R : Type 0) : Type 0 where
  pub read : R → ℕ → List ℕ × ReadStatus × R

unfoldable pub zeros : ℕ → List ℕ
zeros zero = []
zeros (suc n) = 0 ∷ zeros n

length-append : (xs ys : List ℕ) → length (xs ++ ys) ≡ length xs + length ys
length-append [] ys = omega arith
length-append (x ∷ xs) ys = omega (arith, length-append xs ys)

module _ {R : Type 0} (reader : Reader R) where
  -- The buffer is what has been read, followed by zeros up to its size. The fuel bounds the reads.
  unfoldable pub extract_loop : ℕ → ℕ → List ℕ → R → Option (Result (List ℕ))
  unfolding zeros
  extract_loop zero size got r = none
  extract_loop (suc fuel) size got r =
      let (bytes, status, next) = reader.read r (size - length got) in
      elim status [
        | failed e ↦ some (err (wrapv "could not read from tar" e))
        | eof ↦ some (ok ((got ++ bytes) ++ zeros (size - length (got ++ bytes))))
        | more ↦ extract_loop fuel size (got ++ bytes) next
      ]

  unfoldable pub extract_bytes_from_tar : ℕ → ℕ → R → Option (Result (List ℕ))
  unfolding extract_loop
  extract_bytes_from_tar fuel size r = extract_loop fuel size [] r

  -- What archive/tar promises of a file that fits into the buffer: what is left of it comes piece by
  -- piece, and its end is reported after finitely many reads.
  pub record IsFile (left : R → List ℕ) (reads : R → ℕ) : Type 0 where
    pub pieces :
        (r : R) (n : ℕ)
        → length (left r) ≤ n
        → (reader.read r n).0 ++ left (reader.read r n).2 ≡ left r
    pub at_end :
        (r : R) (n : ℕ)
        → length (left r) ≤ n
        → (reader.read r n).1 ≡ eof
        → left (reader.read r n).2 ≡ []
    pub ends :
        (r : R) (n : ℕ)
        → length (left r) ≤ n
        → (reader.read r n).1 ≡ more
        → reads (reader.read r n).2 < reads r
    pub no_error :
        (r : R) (n : ℕ) (e : Error) → length (left r) ≤ n → (reader.read r n).1 ≢ failed e

  module _ (left : R → List ℕ) (reads : R → ℕ) (file : IsFile left reads) where
    extract_loop_lem :
        (fuel size : ℕ) (got : List ℕ) (r : R)
        → reads r < fuel
        → length got + length (left r) ≤ size
        → extract_loop fuel size got r
          ≡ some (ok ((got ++ left r) ++ zeros (size - length (got ++ left r))))
    unfolding extract_loop
    extract_loop_lem zero size got r h f = absurd (omega arith)
    extract_loop_lem (suc fuel) size got r h f =
        let n = size - length got in
        let room : length (left r) ≤ n = omega (arith, f) in
        by_status _ _ _ (file.pieces r n room) (file.at_end r n room) (file.ends r n room)
          (λ e. file.no_error r n e room) (extract_loop_lem fuel size)
      where
        by_status :
            (bytes : List ℕ) (status : ReadStatus) (next : R)
            → bytes ++ left next ≡ left r
            → (status ≡ eof → left next ≡ [])
            → (status ≡ more → reads next < reads r)
            → ((e : Error) → status ≢ failed e)
            → ((got' : List ℕ) (r' : R)
                → reads r' < fuel
                → length got' + length (left r') ≤ size
                → extract_loop fuel size got' r'
                  ≡ some (ok ((got' ++ left r') ++ zeros (size - length (got' ++ left r')))))
            → elim status [
              | failed e ↦ some (err (wrapv "could not read from tar" e))
              | eof ↦ some (ok ((got ++ bytes) ++ zeros (size - length (got ++ bytes))))
              | more ↦ extract_loop fuel size (got ++ bytes) next
            ]
              ≡ some (ok ((got ++ left r) ++ zeros (size - length (got ++ left r))))
        by_status bytes (failed e) next p q m x ih = absurd (x e refl)
        by_status bytes eof next p q m x ih =
            let whole : bytes ≡ left r =
              sym (append-nil bytes) ∙ ap (λ l. bytes ++ l) (sym (q refl)) ∙ p in
            rw whole refl
        by_status bytes more next p q m x ih =
            let whole : (got ++ bytes) ++ left next ≡ got ++ left r =
              append_assoc got bytes (left next) ∙ ap (λ l. got ++ l) p in
            let shorter : reads next < fuel = omega (arith, m refl, h) in
            let fits : length (got ++ bytes) + length (left next) ≤ size = omega (
              arith,
              f,
              length-append got bytes,
              sym (length-append bytes (left next)) ∙ ap length p,
            ) in
            rw (← whole) (ih (got ++ bytes) next shorter fits)

    -- With more fuel than the reads that the file takes, the loop ends, and what it returns is the
    -- file, with zeros behind it where it is shorter than the given size.
    pub extract_bytes_from_tar_lem :
        (fuel size : ℕ) (r : R)
        → reads r < fuel
        → length (left r) ≤ size
        → extract_bytes_from_tar fuel size r ≡ some (ok (left r ++ zeros (size - length (left r))))
    unfolding extract_bytes_from_tar
    extract_bytes_from_tar_lem fuel size r h f = extract_loop_lem fuel size [] r h (omega arith)
