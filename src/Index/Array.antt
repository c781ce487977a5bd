-- ===== src/Index/Array.antt =====
-- The arrays of the nodes of p3/src/btree.h: copyArray, and a value put in its place. An `int` is the
-- number greater by 2^31, which has the same order.
pub mod Laws
use cs564_projects.Prelude.{
  ℕ, suc, ◌+◌, ◌-◌, ◌^◌, List, [], ◌∷◌, ltb, if◌then◌else◌, set, take, drop,
}

abbrev pub int_max : ℕ
int_max = 2 ^ 32 - 1

-- The copy of the values into an array, from a place on.
unfoldable pub write_all {ℓ} : {A : Type ℓ} → List A → ℕ → List A → List A
write_all xs i [] = xs
write_all xs i (y ∷ ys) = write_all (set xs i y) (suc i) ys

-- `copyArray` within an array; the values are read before any is written.
unfoldable pub copy_array {ℓ} : {A : Type ℓ} → List A → ℕ → ℕ → ℕ → List A
unfolding write_all
copy_array xs from to n = write_all xs to (take n (drop from xs))

-- One array with a value put in its place.
unfoldable pub put_in {ℓ} : {A : Type ℓ} → ℕ → ℕ → ℕ → A → List A → List A
unfolding copy_array
put_in occupancy pos n a xs =
    set (if ltb pos occupancy then copy_array xs pos (suc pos) (n - pos) else xs) pos a
