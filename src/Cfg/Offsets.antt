-- ===== src/Cfg/Offsets.antt =====
-- cfg.go: sets of offsets (Go's `map[uint32]struct{}`) as lists without repetition, and their sorting.
pub mod Laws
use shell_sight.Common.{ℕ, Bool, true, false, ◌||◌, List, [], ◌∷◌, ◌==◌, leb, if◌then◌else◌}

unfoldable pub member : ℕ → List ℕ → Bool
member x [] = false
member x (y ∷ ys) = y == x || member x ys

-- `set[x] = struct{}{}`.
unfoldable pub add : ℕ → List ℕ → List ℕ
unfolding member
add x set = if member x set then set else x ∷ set

unfoldable pub add_all : List ℕ → List ℕ → List ℕ
add_all [] set = set
add_all (x ∷ xs) set = add_all xs (add x set)

unfoldable pub insert_sorted : ℕ → List ℕ → List ℕ
insert_sorted x [] = x ∷ []
insert_sorted x (y ∷ ys) = if leb x y then x ∷ y ∷ ys else y ∷ insert_sorted x ys

-- `sortedOffsets`, and the sorting of `cfg.Order`: the keys of a set, increasing.
unfoldable pub sorted_offsets : List ℕ → List ℕ
unfolding insert_sorted
sorted_offsets [] = []
sorted_offsets (x ∷ xs) = insert_sorted x (sorted_offsets xs)
