-- ===== src/Archive/Trailer.antt =====
-- How find_manifest of src/ArchiveIO.cpp finds the manifest from the end of a file.
use zekvok.Prelude.{
  ℕ, ◌+◌, ◌-◌, ◌^◌, ◌≤◌, ◌<◌, ◌≡◌, ap, ap₂, ◌∙◌, sym, Bool, false, some, List, ◌++◌, append_assoc,
  arith, length, take, drop, take-append, take-append_le, drop-append, length-append, ltb,
}
use zekvok.Exception.{Result, ok}
use zekvok.Utility.LeInt.{
  serialize_fixed_le_int, deserialize_fixed_le_int, deserialize-serialize,
  length-serialize_fixed_le_int,
}
use zekvok.Archive.Reader.{ArchiveReader, new_reader, find_manifest}

-- The end of an archive leads to its manifest.
module _ (P M S : List ℕ) (kp : Bool) (small : length M < 256 ^ 8) (digest : length S ≡ 32) where
  unfoldable pub len_bytes : List ℕ
  len_bytes = serialize_fixed_le_int 8 (length M)

  unfoldable pub whole : List ℕ
  whole = (P ++ (M ++ len_bytes)) ++ S

  eight : length len_bytes ≡ 8
  unfolding len_bytes
  eight = length-serialize_fixed_le_int 8 (length M)

  length-whole : length whole ≡ length P + length M + 40
  unfolding whole
  length-whole = omega (
    arith,
    length-append (P ++ (M ++ len_bytes)) S,
    length-append P (M ++ len_bytes),
    length-append M len_bytes,
    eight,
    digest,
  )

  regrouped : whole ≡ (P ++ M) ++ (len_bytes ++ S)
  unfolding whole
  regrouped =
      ap (λ xs. xs ++ S) (sym (append_assoc P M len_bytes)) ∙ append_assoc (P ++ M) len_bytes S

  length_at : take 8 (drop (length whole - 40) whole) ≡ len_bytes
  length_at =
      ap₂ (λ k xs. take 8 (drop k xs))
        (let e : length whole - 40 ≡ length (P ++ M) =
            omega (arith, length-whole, length-append P M) in
          e)
        regrouped
      ∙ ap (take 8) (drop-append (P ++ M) (len_bytes ++ S))
      ∙ ap (λ k. take k (len_bytes ++ S)) (sym eight)
      ∙ take-append len_bytes S

  pub manifest_at : take (length M) (drop (length P) whole) ≡ M
  manifest_at =
      ap (λ xs. take (length M) (drop (length P) xs))
        (regrouped ∙ append_assoc P M (len_bytes ++ S))
      ∙ ap (take (length M)) (drop-append P (M ++ (len_bytes ++ S)))
      ∙ take-append M (len_bytes ++ S)

  prefix_at : (k : ℕ) → k ≤ length P → take k whole ≡ take k P
  unfolding whole
  prefix_at k h = ap (take k) (append_assoc P (M ++ len_bytes) S) ∙ take-append_le k P _ h

  abbrev pub found_reader : ArchiveReader
  found_reader = record (new_reader whole kp) {
    manifest_offset = some (length P);
    manifest_size = length M;
  }

  pub find_manifest-whole : find_manifest (new_reader whole kp) ≡ ok found_reader
  unfolding find_manifest new_reader len_bytes
  find_manifest-whole =
      rw (length_at, value)
        (rw (long_enough, inside)
          (ap {B = Result ArchiveReader}
            (λ k.
              ok (record (new_reader whole kp) {
                manifest_offset = some k;
                manifest_size = length M;
              }))
            offset))
    where
      value : deserialize_fixed_le_int 8 len_bytes ≡ length M
      value = deserialize-serialize 8 (length M) small

      long_enough : ltb (length whole) 40 ≡ false
      long_enough = ground (arith, length-whole)

      inside : ltb (length whole - 40) (length M) ≡ false
      inside = ground (arith, length-whole)

      offset : length whole - 40 - length M ≡ length P
      offset = omega (arith, length-whole)
