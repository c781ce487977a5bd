-- ===== src/Wl/Text/Runs.antt =====
-- The words of a line as its longest runs of letters, digits and apostrophes, and the pieces of
-- `Dictionary::Parse` of p1/wl.cpp that read one.
use cs564_projects.Prelude.{
  ℕ, zero, suc, Bool, ◌+◌, ◌-◌, true, false, List, [], ◌∷◌, ◌++◌, map, none, some, ltb, ◌==◌,
  if◌then◌else◌, length, take, drop, get_or, ◌≡◌, ◌≤◌, ◌<◌, refl, arith, ap, sym, ◌∙◌, ◌&&◌, ◌||◌,
  Bool-cases, Option-cases, inl, inr,
}
use mathlib.Core.List.{append-nil}
use cs564_projects.Wl.Text.{to_lower, to_lower_byte, is_word_byte, substr, find_valid, flush_word}

-- A run that has been read is a word unless it is empty.
abbrev pub close_run : List ℕ → List (List ℕ)
close_run [] = []
close_run (c ∷ run) = (c ∷ run) ∷ []

-- A letter, a digit or an apostrophe, by the places in the code table.
unfoldable pub in_word : ℕ → Bool
in_word c =
    if ltb c 58 then ltb 47 c || c == 39 else (ltb 64 c && ltb c 91) || (ltb 96 c && ltb c 123)

-- A capital letter is 32 places before the small one.
unfoldable pub lower : ℕ → ℕ
lower c = if ltb 90 c then c else if ltb c 65 then c else 32 + c

-- The longest runs of such characters, where `run` is the one that is being read.
unfoldable pub runs : List ℕ → List ℕ → List (List ℕ)
unfolding in_word
runs run [] = close_run run
runs run (c ∷ rest) = if in_word c then runs (run ++ c ∷ []) rest else close_run run ++ runs [] rest

pub is_word_byte_lem : (c : ℕ) → is_word_byte c ≡ in_word c
unfolding is_word_byte in_word
is_word_byte_lem c = ground arith

to_lower_lem : (s : List ℕ) → to_lower s ≡ map lower s
unfolding to_lower to_lower_byte lower
to_lower_lem [] = refl
to_lower_lem (c ∷ s) = let e : to_lower_byte c ≡ lower c = ground arith in rw (e, to_lower_lem s)

pub drop-get_or :
    (line : List ℕ) (e : ℕ) → e < length line → drop e line ≡ get_or line e 0 ∷ drop (e + 1) line
drop-get_or [] e h = absurd (omega arith)
drop-get_or (c ∷ line) zero h = refl
drop-get_or (c ∷ line) (suc e) h =
    let k : suc e + 1 ≡ suc (e + 1) = omega arith in rw k (drop-get_or line e (omega arith))

take-suc :
    (s n : ℕ) (line : List ℕ)
    → s + n < length line
    → take (suc n) (drop s line) ≡ take n (drop s line) ++ get_or line (s + n) 0 ∷ []
take-suc s n [] h = absurd (omega arith)
take-suc zero zero (c ∷ line) h = refl
take-suc zero (suc n) (c ∷ line) h =
    let k : 0 + suc n ≡ suc (0 + n) = omega arith in
    rw k (ap (◌∷◌ c) (take-suc zero n line (omega arith)))
take-suc (suc s) n (c ∷ line) h =
    let k : suc s + n ≡ suc (s + n) = omega arith in rw k (take-suc s n line (omega arith))

-- One more valid character makes the run longer by it.
pub substr-onward :
    (line : List ℕ) (s e : ℕ)
    → s ≤ e
    → e < length line
    → substr line s (e + 1 - s) ≡ substr line s (e - s) ++ get_or line e 0 ∷ []
substr-onward line s e h l =
    let grow : e + 1 - s ≡ suc (e - s) = omega arith in
    let back : s + (e - s) ≡ e = omega arith in
    rw (grow, take-suc s (e - s) line (omega arith), back)

pub flush_word-close_run :
    (line : List ℕ) (s e : ℕ) (vec : List (List ℕ))
    → s ≤ e
    → e ≤ length line
    → flush_word line s e vec ≡ vec ++ map (map lower) (close_run (substr line s (e - s)))
unfolding flush_word
flush_word-close_run line s e vec h l = elim (Bool-cases (s == e)) [
  | inl same ↦ let empty : e - s ≡ 0 = ground arith in rw (flush_word, same, empty, append-nil)
  | inr longer ↦
      let more : e - s ≡ suc (e - s - 1) = ground arith in
      rw (flush_word, longer, more, drop-get_or line s (ground arith), to_lower_lem)
]

pub find_valid-bounds :
    (i j : ℕ) (rest : List ℕ) → find_valid i rest ≡ some j → (i ≤ j) × (j < i + length rest)
unfolding find_valid
find_valid-bounds i j [] e = cc
find_valid-bounds i j (c ∷ rest) e = ground (arith, find_valid-bounds (suc i) j rest)

-- The inner loop skips no word.
pub find_valid-runs :
    (i : ℕ) (rest : List ℕ)
    → runs [] rest ≡ elim (find_valid i rest) [ none ↦ [] | some j ↦ runs [] (drop (j - i) rest) ]
unfolding find_valid runs
find_valid-runs i [] = refl
find_valid-runs i (c ∷ rest) = elim (Bool-cases (is_word_byte c)) [
  | inl e ↦
      let here : i - i ≡ 0 = omega arith in
      let word : in_word c ≡ true = sym (is_word_byte_lem c) ∙ e in rw (e, here, runs, word)
  | inr e ↦
      let other : in_word c ≡ false = sym (is_word_byte_lem c) ∙ e in
      rw (e, other) (find_valid-runs (suc i) rest ∙ later i c rest)
]
  where
    later :
        (i c : ℕ) (rest : List ℕ)
        → elim (find_valid (suc i) rest) [ none ↦ [] | some j ↦ runs [] (drop (j - suc i) rest) ]
          ≡ elim (find_valid (suc i) rest) [
            | none ↦ []
            | some j ↦ runs [] (drop (j - i) (c ∷ rest))
          ]
    later i c rest = elim (Option-cases (find_valid (suc i) rest)) [
      | inl e ↦ rw e
      | inr (j, e) ↦
          let below = (find_valid-bounds (suc i) j rest e).0 in
          let step : j - i ≡ suc (j - suc i) = omega arith in rw (e, step)
    ]

pub drop-drop : (a b : ℕ) (xs : List ℕ) → drop a (drop b xs) ≡ drop (b + a) xs
drop-drop a zero xs = let e : 0 + a ≡ a = omega arith in rw e
drop-drop zero (suc b) [] = let e : suc b + 0 ≡ suc b = omega arith in rw e
drop-drop (suc a) (suc b) [] = let e : suc b + suc a ≡ suc (b + suc a) = omega arith in rw e
drop-drop a (suc b) (x ∷ xs) =
    let e : suc b + a ≡ suc (b + a) = omega arith in rw e (drop-drop a b xs)
