-- ===== src/Wl/Node/Strings.antt =====
-- Strings as `Node::Diff`, `Split` and `Search` of p1/wl.cpp compare and cut them.
use cs564_projects.Prelude.{
  ℕ, suc, ◌+◌, ◌≤◌, ◌<◌, true, false, List, [], ◌∷◌, ◌++◌, none, some, ltb, if◌then◌else◌, length,
  take, drop, ◌≡◌, refl, arith,
}
use cs564_projects.Wl.Node.{str_eq, fronts, diff_from, diff}
use cs564_projects.Wl.Node.Spec.{strip}

pub str_eq_refl : (a : List ℕ) → str_eq a a ≡ true
str_eq_refl [] = refl
str_eq_refl (x ∷ a) = ground (arith, str_eq_refl a)

pub str_eq→eq : (a b : List ℕ) → str_eq a b ≡ true → a ≡ b
str_eq→eq [] [] h = refl
str_eq→eq [] (y ∷ b) h = cc
str_eq→eq (x ∷ a) [] h = cc
str_eq→eq (x ∷ a) (y ∷ b) h = ground (arith, str_eq→eq a b)

pub str_eq_append : (p a b : List ℕ) → str_eq (p ++ a) (p ++ b) ≡ str_eq a b
str_eq_append [] a b = refl
str_eq_append (x ∷ p) a b = ground (arith, str_eq_append p a b)

pub strip-append : (p r : List ℕ) → strip p (p ++ r) ≡ some r
strip-append [] r = refl
strip-append (x ∷ p) r = ground (arith, strip-append p r)

-- A word from which the prefix can be stripped is the prefix and the rest.
pub strip→append : (p w r : List ℕ) → strip p w ≡ some r → w ≡ p ++ r
strip→append [] w r h = ground arith
strip→append (x ∷ p) [] r h = cc
strip→append (x ∷ p) (y ∷ w) r h = ground (arith, strip→append p w r)

pub strip-none : (p w r : List ℕ) → strip p w ≡ none → str_eq w (p ++ r) ≡ false
strip-none [] w r h = cc
strip-none (x ∷ p) [] r h = refl
strip-none (x ∷ p) (y ∷ w) r h = ground (arith, strip-none p w r)

-- To strip a prefix is to strip it in two steps.
pub strip_twice :
    (p q w : List ℕ) → strip (p ++ q) w ≡ elim (strip p w) [ none ↦ none | some r ↦ strip q r ]
strip_twice [] q w = refl
strip_twice (x ∷ p) q [] = refl
strip_twice (x ∷ p) q (y ∷ w) = ground (arith, strip_twice p q w)

-- The three tests of the loop of `Node::Search` on a prefix are one `strip`.
pub strip_tests :
    (p w : List ℕ)
    → strip p w ≡ (
        if str_eq p w
        then some []
        else (if ltb (length p) (length w)
            then (if str_eq p (take (length p) w) then some (drop (length p) w) else none)
            else none))
strip_tests [] [] = refl
strip_tests [] (y ∷ w) = ground arith
strip_tests (x ∷ p) [] = ground arith
strip_tests (x ∷ p) (y ∷ w) = ground (arith, strip_tests p w)

-- Where the loop of `Node::Diff` finds no difference, the shorter string is a prefix of the longer.
pub diff_from-none :
    (j : ℕ) (p w : List ℕ)
    → diff_from j p w ≡ none
    → length p ≤ length w
    → w ≡ p ++ drop (length p) w
unfolding diff_from
diff_from-none j [] w h l = refl
diff_from-none j (x ∷ p) [] h l = absurd (omega arith)
diff_from-none j (x ∷ p) (y ∷ w) h l = ground (arith, diff_from-none (suc j) p w)

pub diff_from_comm : (j : ℕ) (p w : List ℕ) → diff_from j p w ≡ diff_from j w p
unfolding diff_from
diff_from_comm j [] [] = refl
diff_from_comm j [] (y ∷ w) = refl
diff_from_comm j (x ∷ p) [] = refl
diff_from_comm j (x ∷ p) (y ∷ w) = ground (arith, diff_from_comm (suc j) p w)

-- Where it finds one, at `j + n`, both strings are longer than `n` and agree before it.
pub diff_from-some :
    (j i : ℕ) (p w : List ℕ)
    → diff_from j p w ≡ some i
    → (j ≤ i) × (i < j + length p) × (i < j + length w)
unfolding diff_from
diff_from-some j i [] w h = cc
diff_from-some j i (x ∷ p) [] h = cc
diff_from-some j i (x ∷ p) (y ∷ w) h = ground (arith, diff_from-some (suc j) i p w)

-- The two strings that `Node::Insert` compares begin with the same character.
pub diff-none :
    (x : ℕ) (p w : List ℕ)
    → fronts x p ≡ true
    → diff p (x ∷ w) ≡ none
    → length p ≤ length (x ∷ w)
    → x ∷ w ≡ p ++ drop (length p) (x ∷ w)
unfolding diff
diff-none x [] w f h l = cc
diff-none x (y ∷ p) w f h l = ground (arith, diff_from-none 1 p w)

pub diff-none_short :
    (x : ℕ) (p w : List ℕ)
    → fronts x p ≡ true
    → diff p (x ∷ w) ≡ none
    → length (x ∷ w) ≤ length p
    → p ≡ (x ∷ w) ++ drop (length (x ∷ w)) p
unfolding diff
diff-none_short x [] w f h l = cc
diff-none_short x (y ∷ p) w f h l = ground (arith, diff_from_comm 1 p w, diff_from-none 1 w p)

pub diff-some :
    (x i : ℕ) (p w : List ℕ)
    → diff p (x ∷ w) ≡ some i
    → (0 < i) × (i < length p) × (i < length (x ∷ w))
unfolding diff
diff-some x i [] w h = cc
diff-some x i (y ∷ p) w h = ground (arith, diff_from-some 1 i p w)

-- A prefix that differs from the word within both is no prefix of it.
diff_from-strip : (j i : ℕ) (p w : List ℕ) → diff_from j p w ≡ some i → strip p w ≡ none
unfolding diff_from
diff_from-strip j i [] w h = cc
diff_from-strip j i (x ∷ p) [] h = cc
diff_from-strip j i (x ∷ p) (y ∷ w) h = ground (arith, diff_from-strip (suc j) i p w)

pub diff-strip : (x i : ℕ) (p w : List ℕ) → diff p (x ∷ w) ≡ some i → strip p (x ∷ w) ≡ none
unfolding diff
diff-strip x i [] w h = cc
diff-strip x i (y ∷ p) w h = ground (arith, diff_from-strip 1 i p w)

-- Where the first difference is at index 1, the second characters differ.
pub diff-one : (x y : ℕ) (p w : List ℕ) → diff p (x ∷ y ∷ w) ≡ some 1 → fronts y (drop 1 p) ≡ false
unfolding diff
diff-one x y [] w h = cc
diff-one x y (a ∷ []) w h = refl
diff-one x y (a ∷ b ∷ p) w h = ground (arith, diff_from-some 2 1 p w)
