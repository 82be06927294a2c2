-- ===== src/Utility/Tests.antt =====
-- Runs of the functions of src/Utility.h.
use zekvok.Prelude.{ℕ, ◌+◌, ◌≡◌, refl, true, List, [], ◌∷◌, leb, ltb, if◌then◌else◌, arith}
use zekvok.Utility.LeInt.{serialize_fixed_le_int, deserialize_fixed_le_int, deserialize-serialize}
use zekvok.Utility.Buffer.{read_buffers, written, read_buffers-written}
use zekvok.Utility.Strcmpci.{scan, less_than}
use zekvok.Utility.Search.{IsFirst, find_first_true, find_first_true-IsFirst}

-- tolower on the codes of ASCII
abbrev lower : ℕ → ℕ
lower c = if ltb c 65 then c else if ltb 90 c then c else c + 32

deserialize-serialize_example : deserialize_fixed_le_int 2 (serialize_fixed_le_int 2 513) ≡ 513
deserialize-serialize_example = deserialize-serialize 2 513 (omega arith)

read_buffers-written_example :
    read_buffers 8 (written ((4 ∷ 5 ∷ []) ∷ [] ∷ [])) ≡ (4 ∷ 5 ∷ []) ∷ [] ∷ []
read_buffers-written_example =
    read_buffers-written 8 ((4 ∷ 5 ∷ []) ∷ [] ∷ []) (omega arith, (omega arith, tt))
      (omega arith, (omega arith, tt))

a_before_b : less_than lower (65 ∷ []) (98 ∷ []) ≡ true
unfolding less_than scan
a_before_b = refl

b_before_c : less_than lower (98 ∷ []) (67 ∷ []) ≡ true
unfolding less_than scan
b_before_c = refl

find_first_true-IsFirst_example : IsFirst (λ i. leb 3 i) 0 5 (find_first_true 0 5 (λ i. leb 3 i))
find_first_true-IsFirst_example =
    find_first_true-IsFirst (λ i. leb 3 i) 0 5 (λ i j a b c h. ground (arith, h)) (omega arith)

abbrev two_letters : List ℕ
two_letters = 65 ∷ 66 ∷ []

abbrev one_letter : List ℕ
one_letter = 65 ∷ []
