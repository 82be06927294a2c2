-- ===== src/Utility/LeInt.antt =====
-- serialize_fixed_le_int, deserialize_fixed_le_int and the length-prefixed buffers of src/Utility.h.
-- A byte is a number below 256, and an unsigned integer of w bytes a number below 256 ^ w.
use native.Mathlib.Nat.{mod-eq_of_lt, pow-suc, pow-le-pow_right}
use zekvok.Prelude.{
  ℕ, zero, suc, ◌+◌, ◌*◌, ◌/◌, ◌%◌, ◌^◌, ◌≤◌, ◌<◌, ◌≡◌, refl, ap, ap₂, ◌∙◌, List, [], ◌∷◌, arith,
  length,
}

-- The loop over p[0 .. n): the low byte, then the rest of `copy`.
unfoldable pub serialize_fixed_le_int : ℕ → ℕ → List ℕ
serialize_fixed_le_int zero copy = []
serialize_fixed_le_int (suc n) copy = copy % 256 ∷ serialize_fixed_le_int n (copy / 256)

-- The loop takes the bytes from the last to the first: `ret <<= 8` in an integer of `width` bytes,
-- whose low byte is then 0, so that `ret |= p[i]` is a sum.
unfoldable pub deserialize_fixed_le_int : ℕ → List ℕ → ℕ
deserialize_fixed_le_int width [] = 0
deserialize_fixed_le_int width (p ∷ ps) =
    (deserialize_fixed_le_int width ps * 256) % 256 ^ width + p

pub length-serialize_fixed_le_int : (n x : ℕ) → length (serialize_fixed_le_int n x) ≡ n
unfolding serialize_fixed_le_int
length-serialize_fixed_le_int zero x = refl
length-serialize_fixed_le_int (suc n) x = ap suc (length-serialize_fixed_le_int n (x / 256))

deserialize-serialize_part :
    (width n x : ℕ)
    → n ≤ width
    → x < 256 ^ n
    → deserialize_fixed_le_int width (serialize_fixed_le_int n x) ≡ x
unfolding serialize_fixed_le_int deserialize_fixed_le_int
deserialize-serialize_part width zero x h b = omega arith
deserialize-serialize_part width (suc n) x h b =
    ap (λ k. (k * 256) % 256 ^ width + x % 256)
      (deserialize-serialize_part width n (x / 256) (omega arith) (omega (arith, pow-suc 256 n)))
    ∙ ap (λ k. k + x % 256)
        (mod-eq_of_lt (omega (arith, pow-suc 256 n, pow-le-pow_right {n = 256} (omega arith) h)))
    ∙ omega arith

-- An integer that fits its width is read back from its bytes.
pub deserialize-serialize :
    (width x : ℕ)
    → x < 256 ^ width
    → deserialize_fixed_le_int width (serialize_fixed_le_int width x) ≡ x
deserialize-serialize width x = deserialize-serialize_part width width x (omega arith)

abbrev pub AllBytes : List ℕ → Type 0
AllBytes [] = Unit {0}
AllBytes (p ∷ ps) = (p < 256) × AllBytes ps

module _ (width p : ℕ) (ps : List ℕ) (h : suc (length ps) ≤ width) where
  no_carry :
      deserialize_fixed_le_int width ps < 256 ^ length ps
      → deserialize_fixed_le_int width (p ∷ ps) ≡ deserialize_fixed_le_int width ps * 256 + p
  unfolding deserialize_fixed_le_int
  no_carry b =
      ap (λ k. k + p)
        (mod-eq_of_lt
          (omega (arith, pow-suc 256 (length ps), pow-le-pow_right {n = 256} (omega arith) h)))

value-lt :
    (width : ℕ) (ps : List ℕ)
    → length ps ≤ width
    → AllBytes ps
    → deserialize_fixed_le_int width ps < 256 ^ length ps
value-lt width [] h b = unfold deserialize_fixed_le_int in omega arith
value-lt width (p ∷ ps) h b =
    let smaller = value-lt width ps (omega arith) b.1 in
    omega (arith, smaller, no_carry width p ps h smaller, pow-suc 256 (length ps), b.0)

-- And the bytes of an integer are read back from the integer.
serialize-deserialize :
    (width : ℕ) (ps : List ℕ)
    → length ps ≤ width
    → AllBytes ps
    → serialize_fixed_le_int (length ps) (deserialize_fixed_le_int width ps) ≡ ps
unfolding serialize_fixed_le_int
serialize-deserialize width [] h b = refl
serialize-deserialize width (p ∷ ps) h b = ap₂ ◌∷◌ (omega (arith, e, b.0)) (
    ap (serialize_fixed_le_int (length ps)) (
      let d : deserialize_fixed_le_int width (p ∷ ps) / 256 ≡ deserialize_fixed_le_int width ps =
        omega (arith, e, b.0) in
      d)
    ∙ serialize-deserialize width ps (omega arith) b.1)
  where
    e : deserialize_fixed_le_int width (p ∷ ps) ≡ deserialize_fixed_le_int width ps * 256 + p
    e = no_carry width p ps h (value-lt width ps (omega arith) b.1)
