-- ===== src/Index/Entry/Cut.antt =====
-- The halves of a list, and the copy of one of them into an array.
use cs564_projects.Prelude.{
  ℕ, zero, suc, ◌+◌, ◌≤◌, List, [], ◌∷◌, ◌++◌, map, length, ◌≡◌, refl, ap, sym, ◌∙◌, arith,
  length-map, take, drop, take-append-drop, length-drop, length-take,
}
use cs564_projects.Index.Array.{write_all}
use cs564_projects.Index.Array.Laws.{write_all_front}

pub map-take {ℓ κ} :
    {E : Type κ} {A : Type ℓ} (f : E → A) (n : ℕ) (es : List E)
    → map f (take n es) ≡ take n (map f es)
map-take f zero es = refl
map-take f (suc n) [] = refl
map-take f (suc n) (e ∷ es) = ap (◌∷◌ (f e)) (map-take f n es)

pub map-drop {ℓ κ} :
    {E : Type κ} {A : Type ℓ} (f : E → A) (n : ℕ) (es : List E)
    → map f (drop n es) ≡ drop n (map f es)
map-drop f zero es = refl
map-drop f (suc n) [] = refl
map-drop f (suc n) (e ∷ es) = map-drop f n es

pub take_all {ℓ} : {A : Type ℓ} (n : ℕ) (xs : List A) → length xs ≡ n → take n xs ≡ xs
take_all zero [] e = refl
take_all zero (x ∷ xs) e = absurd (omega arith)
take_all (suc n) [] e = refl
take_all (suc n) (x ∷ xs) e = ap (◌∷◌ x) (take_all n xs (omega arith))

pub append_nil {ℓ} : {A : Type ℓ} (xs ys : List A) → length ys ≡ 0 → xs ++ ys ≡ xs
append_nil [] [] e = refl
append_nil [] (y ∷ ys) e = absurd (omega arith)
append_nil (x ∷ xs) ys e = ap (◌∷◌ x) (append_nil xs ys e)

-- An array of the new page, after the copy of the upper half of a field of the entries.
pub copied {ℓ κ} :
    {E : Type κ} {A : Type ℓ} (f : E → A) (n m : ℕ) (es : List E) (xs : List A)
    → length es ≡ m + n
    → n ≤ length xs
    → write_all xs 0 (take n (drop m (map f es))) ≡ map f (drop m es) ++ drop n xs
copied f n m es xs l r =
    let size : length (drop m (map f es)) ≡ n =
      omega (arith, length-drop m (map f es), length-map es f) in
    let all = take_all n (drop m (map f es)) size in
    let front : length (take n xs) ≡ length (drop m (map f es)) =
      omega (arith, size, length-take n xs) in
    ap (write_all xs 0) all
    ∙ ap (λ ys. write_all ys 0 (drop m (map f es))) (sym (take-append-drop n xs))
    ∙ write_all_front (take n xs) (drop m (map f es)) (drop n xs) front
    ∙ ap (λ ys. ys ++ drop n xs) (sym (map-drop f m es))

-- A field of the entries, as the lower half and the rest.
pub parted {ℓ κ} :
    {E : Type κ} {A : Type ℓ} (f : E → A) (m : ℕ) (es : List E)
    → map f es ≡ map f (take m es) ++ drop m (map f es)
parted f m es =
    sym (take-append-drop m (map f es)) ∙ ap (λ xs. xs ++ drop m (map f es)) (sym (map-take f m es))
