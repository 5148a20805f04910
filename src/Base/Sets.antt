-- ===== src/Base/Sets.antt =====
-- `std::unordered_set<std::uint64_t>` as a list, read only through `contains`, and maps to such sets.
use Prim.Native.Nat.{ℕ}
use mathlib.Core.Path.{◌≡◌, refl}
use mathlib.Core.Bool.{Bool, true, false, ◌&&◌}
use mathlib.Core.Logic.{inl, inr}
use mathlib.Core.List.{List, [], ◌∷◌}
use mathlib.Core.Option.{Option, none, some}
use native.Mathlib.Omega.{arith}
use cpp_chat.Base.Tests.{if◌then◌else◌, ◌==◌, Bool-cases, is_empty, nat_eq}
use cpp_chat.Base.Maps.{lookup, insert, erase, lookup-insert, lookup-erase}

-- `count`
unfoldable pub contains : ℕ → List ℕ → Bool
contains a [] = false
contains a (x ∷ xs) = if x == a then true else contains a xs

-- `insert`
unfoldable pub set_insert : ℕ → List ℕ → List ℕ
unfolding contains
set_insert a xs = if contains a xs then xs else a ∷ xs

-- `erase`
unfoldable pub set_erase : ℕ → List ℕ → List ℕ
set_erase a [] = []
set_erase a (x ∷ xs) = let rest = set_erase a xs in if x == a then rest else x ∷ rest

-- The set at a key, or the empty set that `operator[]` makes there.
abbrev pub members_or_empty : Option (List ℕ) → List ℕ
members_or_empty none = []
members_or_empty (some members) = members

pub contains-set_insert :
    (a b : ℕ) (xs : List ℕ)
    → contains b (set_insert a xs) ≡ (if a == b then true else contains b xs)
unfolding set_insert
contains-set_insert a b xs = elim (Bool-cases (contains a xs)) [
  | inl e ↦ rw e (ground arith)
  | inr e ↦ rw e (unfold contains in refl)
]

pub contains-set_erase :
    (a b : ℕ) (xs : List ℕ)
    → contains b (set_erase a xs) ≡ (if a == b then false else contains b xs)
unfolding contains set_erase
contains-set_erase a b [] = ground arith
contains-set_erase a b (x ∷ xs) = ground (arith, contains-set_erase a b xs)

-- Whether `w` is in the set at `h`.
abbrev pub in_group : List (ℕ × List ℕ) → ℕ → ℕ → Bool
in_group m h w = contains w (members_or_empty (lookup h m))

pub in_group-insert :
    (m : List (ℕ × List ℕ)) (g h u w : ℕ)
    → in_group (insert g (set_insert u (members_or_empty (lookup g m))) m) h w
      ≡ (if g == h && u == w then true else in_group m h w)
in_group-insert m g h u w = ground (
  arith,
  lookup-insert g h (set_insert u (members_or_empty (lookup g m))) m,
  contains-set_insert u w (members_or_empty (lookup g m)),
)

-- `erase` of a member, and of the set when no member is left.
abbrev pub drop_member : List (ℕ × List ℕ) → ℕ → ℕ → List ℕ → List (ℕ × List ℕ)
drop_member m g u members =
    let rest = set_erase u members in if is_empty rest then erase g m else insert g rest m

pub in_group-drop_member :
    (m : List (ℕ × List ℕ)) (g h u w : ℕ) (members : List ℕ)
    → lookup g m ≡ some members
    → in_group (drop_member m g u members) h w
      ≡ (if g == h && u == w then false else in_group m h w)
in_group-drop_member m g h u w members e = ground (
  arith,
  lookup-insert g h (set_erase u members) m,
  lookup-erase g h m,
  contains-set_erase u w members,
)
