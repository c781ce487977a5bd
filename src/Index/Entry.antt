-- ===== src/Index/Entry.antt =====
-- Keys with values, in a list: the entries of a leaf and the children of an inner node of p3/src/btree.cpp.
pub mod Order
pub mod Cut
use cs564_projects.Prelude.{
  ℕ, suc, ◌+◌, ◌<◌, ◌≤◌, false, List, [], ◌∷◌, ◌++◌, map, ltb, ◌==◌, if◌then◌else◌, set, get_or,
  length, ◌≡◌, refl, ap, sym, ◌∙◌, arith, Bool-cases, inl, inr, length-map, length-append,
}
use cs564_projects.Index.Array.{put_in}
use cs564_projects.Index.Array.Laws.{put_in-append}

-- RIDKeyPair<int> and PageKeyPair<int>
pub record Entry {ℓ} (V : Type ℓ) : Type ℓ where
  pub key : ℕ
  pub value : V

module _ {ℓ} {V : Type ℓ} where
  abbrev pub keys : List (Entry V) → List ℕ
  keys es = map (λ e. e.key) es

  abbrev pub values : List (Entry V) → List V
  values es = map (λ e. e.value) es

  -- A list with `x` before the first entry that has a key greater than `key`.
  abbrev pub insert_for : ℕ → Entry V → List (Entry V) → List (Entry V)
  insert_for key x [] = x ∷ []
  insert_for key x (y ∷ es) = if ltb key y.key then x ∷ y ∷ es else y ∷ insert_for key x es

  abbrev pub ordered_insert : Entry V → List (Entry V) → List (Entry V)
  ordered_insert e es = insert_for e.key e es

  abbrev pub before : ℕ → List (Entry V) → List (Entry V)
  before key [] = []
  before key (x ∷ es) = if ltb key x.key then [] else x ∷ before key es

  abbrev pub behind : ℕ → List (Entry V) → List (Entry V)
  behind key [] = []
  behind key (x ∷ es) = if ltb key x.key then x ∷ es else behind key es

  pub before-append-behind : (key : ℕ) (es : List (Entry V)) → before key es ++ behind key es ≡ es
  before-append-behind key [] = refl
  before-append-behind key (x ∷ es) = elim (Bool-cases (ltb key x.key)) [
    | inl e ↦ rw e
    | inr e ↦ rw e (ap (◌∷◌ x) (before-append-behind key es))
  ]

  pub insert_for-append :
      (key : ℕ) (e : Entry V) (es : List (Entry V))
      → insert_for key e es ≡ before key es ++ (e ∷ behind key es)
  insert_for-append key e [] = refl
  insert_for-append key e (x ∷ es) = elim (Bool-cases (ltb key x.key)) [
    | inl l ↦ rw l
    | inr l ↦ rw l (ap (◌∷◌ x) (insert_for-append key e es))
  ]

  pub length-insert_for :
      (key : ℕ) (e : Entry V) (es : List (Entry V)) → length (insert_for key e es) ≡ suc (length es)
  length-insert_for key e [] = refl
  length-insert_for key e (x ∷ es) = elim (Bool-cases (ltb key x.key)) [
    | inl t ↦ rw t
    | inr t ↦ rw t (ap suc (length-insert_for key e es))
  ]

pub map-append {ℓ κ} :
    {A : Type ℓ} {B : Type κ} (f : A → B) (xs ys : List A) → map f (xs ++ ys) ≡ map f xs ++ map f ys
map-append f [] ys = refl
map-append f (x ∷ xs) ys = ap (◌∷◌ (f x)) (map-append f xs ys)

pub append_assoc {ℓ} : {A : Type ℓ} (xs ys zs : List A) → (xs ++ ys) ++ zs ≡ xs ++ (ys ++ zs)
append_assoc [] ys zs = refl
append_assoc (x ∷ xs) ys zs = ap (◌∷◌ x) (append_assoc xs ys zs)

pub set-append {ℓ} :
    {A : Type ℓ} (xs : List A) (y z : A) (ys : List A)
    → set (xs ++ (y ∷ ys)) (length xs) z ≡ xs ++ (z ∷ ys)
set-append [] y z ys = refl
set-append (x ∷ xs) y z ys = ap (◌∷◌ x) (set-append xs y z ys)

pub nonempty {ℓ} :
    {A : Type ℓ} (xs : List A) → 0 < length xs → (x : A) × (ys : List A) × (xs ≡ x ∷ ys)
nonempty [] l = absurd (omega arith)
nonempty (x ∷ xs) l = (x, xs, refl)

-- A field of the entries, put into its array over the place behind them.
pub put_in-field {ℓ κ} :
    {V : Type κ} {A : Type ℓ} (f : Entry V → A) (occupancy key : ℕ) (e : Entry V)
    (es : List (Entry V)) (z : A) (rest : List A)
    → length es ≤ occupancy
    → put_in occupancy (length (before key es)) (length es) (f e) (map f es ++ (z ∷ rest))
      ≡ map f (insert_for key e es) ++ rest
put_in-field f occupancy key e es z rest l =
    let a = before key es in
    let b = behind key es in
    let whole = before-append-behind key es in
    let n : length es ≡ length a + length b = ap length (sym whole) ∙ length-append a b in
    let la = length-map a f in
    let lb = length-map b f in
    let split : map f es ++ (z ∷ rest) ≡ map f a ++ (map f b ++ (z ∷ rest)) =
      ap (λ xs. map f xs ++ (z ∷ rest)) (sym whole)
      ∙ ap (λ xs. xs ++ (z ∷ rest)) (map-append f a b)
      ∙ append_assoc (map f a) (map f b) (z ∷ rest) in
    let joined : map f (insert_for key e es) ++ rest ≡ map f a ++ (f e ∷ (map f b ++ rest)) =
      ap (λ xs. map f xs ++ rest) (insert_for-append key e es)
      ∙ ap (λ xs. xs ++ rest) (map-append f a (e ∷ b))
      ∙ append_assoc (map f a) (f e ∷ map f b) rest in
    let put =
      put_in-append occupancy (map f a) (map f b) z (f e) rest (omega (arith, l, n, la, lb)) in
    rw (split, joined, n, sym la, sym lb) put
