-- ===== src/Base/Sorting.antt =====
-- `std::sort` of numbers, as insertion sort: sorted lists with the same entries are equal.
use Prim.Native.Nat.{ℕ, ◌≤◌}
use mathlib.Core.Path.{◌≡◌, refl}
use mathlib.Core.Bool.{true}
use mathlib.Core.List.{List, [], ◌∷◌}
use native.Mathlib.Omega.{arith}
use cpp_chat.Base.Tests.{if◌then◌else◌, ◌==◌, leb}
use cpp_chat.Base.Sets.{contains}

unfoldable pub insert_sorted : ℕ → List ℕ → List ℕ
insert_sorted a [] = a ∷ []
insert_sorted a (x ∷ xs) = if leb a x then a ∷ x ∷ xs else x ∷ insert_sorted a xs

unfoldable pub sort : List ℕ → List ℕ
unfolding insert_sorted
sort [] = []
sort (x ∷ xs) = insert_sorted x (sort xs)

abbrev pub IsBelow : ℕ → List ℕ → Type 0
IsBelow a [] = Unit
IsBelow a (x ∷ xs) = a ≤ x

abbrev pub IsSorted : List ℕ → Type 0
IsSorted [] = Unit
IsSorted (x ∷ xs) = IsBelow x xs × IsSorted xs

insert_sorted-IsBelow :
    (b a : ℕ) (xs : List ℕ) → b ≤ a → IsBelow b xs → IsBelow b (insert_sorted a xs)
unfolding insert_sorted
insert_sorted-IsBelow b a [] h h' = ground arith
insert_sorted-IsBelow b a (x ∷ xs) h h' = ground arith

insert_sorted-IsSorted : (a : ℕ) (xs : List ℕ) → IsSorted xs → IsSorted (insert_sorted a xs)
unfolding insert_sorted
insert_sorted-IsSorted a [] h = ground arith
insert_sorted-IsSorted a (x ∷ xs) h =
    ground (arith, insert_sorted-IsSorted a xs, insert_sorted-IsBelow x a xs)

pub sort-IsSorted : (xs : List ℕ) → IsSorted (sort xs)
unfolding sort
sort-IsSorted [] = tt
sort-IsSorted (x ∷ xs) = insert_sorted-IsSorted x (sort xs) (sort-IsSorted xs)

contains-insert_sorted :
    (b a : ℕ) (xs : List ℕ)
    → contains b (insert_sorted a xs) ≡ (if a == b then true else contains b xs)
unfolding contains insert_sorted
contains-insert_sorted b a [] = ground arith
contains-insert_sorted b a (x ∷ xs) = ground (arith, contains-insert_sorted b a xs)

pub contains-sort : (b : ℕ) (xs : List ℕ) → contains b (sort xs) ≡ contains b xs
unfolding sort contains
contains-sort b [] = refl
contains-sort b (x ∷ xs) = ground (arith, contains-insert_sorted b x (sort xs), contains-sort b xs)
