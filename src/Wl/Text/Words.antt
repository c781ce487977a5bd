-- ===== src/Wl/Text/Words.antt =====
-- `Dictionary::Parse` of p1/wl.cpp against the words of a line as its longest runs of letters, digits
-- and apostrophes.
use cs564_projects.Prelude.{
  ℕ, zero, suc, ◌+◌, ◌-◌, true, false, List, [], ◌∷◌, ◌++◌, map, none, some, ltb, length, drop,
  get_or, ◌≡◌, ◌≤◌, ◌<◌, arith, ap, sym, ◌∙◌, Bool-cases, Option-cases, inl, inr, length-drop,
  drop_all,
}
use mathlib.Core.List.{append-nil, append_assoc, map-append}
use cs564_projects.Wl.Text.{is_word_byte, substr, find_valid, flush_word, parse_loop, parse}
use cs564_projects.Wl.Text.Runs.{
  close_run, in_word, lower, runs, is_word_byte_lem, drop-get_or, substr-onward,
  flush_word-close_run, find_valid-bounds, find_valid-runs, drop-drop,
}

-- The three ways through a round of the loop.
module _ (fuel : ℕ) (line : List ℕ) (s e : ℕ) (vec : List (List ℕ)) where
  parse_loop_end :
      length line ≤ e → parse_loop (suc fuel) line s e vec ≡ some (flush_word line s e vec)
  unfolding parse_loop
  parse_loop_end h = elim (Bool-cases (ltb s (length line))) [
    | inl inside ↦ let out : ltb e (length line) ≡ false = ground arith in rw (inside, out)
    | inr outside ↦ rw outside
  ]

  parse_loop_onward :
      s ≤ e
      → e < length line
      → is_word_byte (get_or line e 0) ≡ true
      → parse_loop (suc fuel) line s e vec ≡ parse_loop fuel line s (e + 1) vec
  unfolding parse_loop
  parse_loop_onward h l valid =
      let s_in : ltb s (length line) ≡ true = ground arith in
      let e_in : ltb e (length line) ≡ true = ground arith in rw (s_in, e_in, valid)

  parse_loop_separator :
      s ≤ e
      → e < length line
      → is_word_byte (get_or line e 0) ≡ false
      → parse_loop (suc fuel) line s e vec ≡ elim (find_valid (e + 1) (drop (e + 1) line)) [
        | none ↦ some (flush_word line e e (flush_word line s e vec))
        | some i ↦ parse_loop fuel line i i (flush_word line s e vec)
      ]
  unfolding parse_loop
  parse_loop_separator h l invalid =
      let s_in : ltb s (length line) ≡ true = ground arith in
      let e_in : ltb e (length line) ≡ true = ground arith in rw (s_in, e_in, invalid)

substr_none : (line : List ℕ) (e : ℕ) → substr line e (e - e) ≡ []
substr_none line e = let z : e - e ≡ 0 = omega arith in rw z

runs_end :
    (line : List ℕ) (e : ℕ) (run : List ℕ)
    → length line ≤ e
    → runs run (drop e line) ≡ close_run run
unfolding runs
runs_end line e run h = rw (drop_all e line h)

flush_same : (line : List ℕ) (e : ℕ) (vec : List (List ℕ)) → flush_word line e e vec ≡ vec
unfolding flush_word
flush_same line e vec = ground arith

skip_to :
    (line : List ℕ) (from i : ℕ)
    → find_valid from (drop from line) ≡ some i
    → runs [] (drop from line) ≡ runs [] (drop i line)
skip_to line from i h =
    let back : from + (i - from) ≡ i =
      omega (arith, (find_valid-bounds from i (drop from line) h).0) in
    rw (find_valid-runs from (drop from line), h, drop-drop, back)

parse_loop_out :
    (line : List ℕ) (s e : ℕ) (vec : List (List ℕ))
    → length line ≤ e
    → parse_loop zero line s e vec ≡ some (flush_word line s e vec)
unfolding parse_loop
parse_loop_out line s e vec h = elim (Bool-cases (ltb s (length line))) [
  | inl inside ↦ let out : ltb e (length line) ≡ false = ground arith in rw (inside, out)
  | inr outside ↦ rw outside
]

runs_valid :
    (run : List ℕ) (c : ℕ) (rest : List ℕ)
    → is_word_byte c ≡ true
    → runs run (c ∷ rest) ≡ runs (run ++ c ∷ []) rest
unfolding runs
runs_valid run c rest h = let word : in_word c ≡ true = sym (is_word_byte_lem c) ∙ h in rw word

runs_invalid :
    (run : List ℕ) (c : ℕ) (rest : List ℕ)
    → is_word_byte c ≡ false
    → runs run (c ∷ rest) ≡ close_run run ++ runs [] rest
unfolding runs
runs_invalid run c rest h = let other : in_word c ≡ false = sym (is_word_byte_lem c) ∙ h in rw other

-- The loop and what follows it add the words of the rest of the line, in lower case.
parse_loop-runs :
    (fuel : ℕ) (line : List ℕ) (s e : ℕ) (vec : List (List ℕ))
    → s ≤ e
    → e ≤ length line
    → length line ≤ e + fuel
    → parse_loop fuel line s e vec
      ≡ some (vec ++ map (map lower) (runs (substr line s (e - s)) (drop e line)))
parse_loop-runs zero line s e vec h l enough =
    rw
      (
        parse_loop_out line s e vec (omega arith),
        runs_end line e (substr line s (e - s)) (omega arith),
      )
      (ap some (flush_word-close_run line s e vec h l))
parse_loop-runs (suc fuel) line s e vec h l enough = elim (Bool-cases (ltb e (length line))) [
  | inr out ↦
      let past : length line ≤ e = ground arith in
      rw (parse_loop_end fuel line s e vec past, runs_end line e (substr line s (e - s)) past)
        (ap some (flush_word-close_run line s e vec h l))
  | inl inside ↦
      let e_in : e < length line = ground arith in
      elim (Bool-cases (is_word_byte (get_or line e 0))) [
        | inl valid ↦
            rw
              (
                parse_loop_onward fuel line s e vec h e_in valid,
                parse_loop-runs fuel line s (e + 1) vec (omega arith) (omega arith) (omega arith),
                substr-onward line s e h e_in,
                drop-get_or line e e_in,
              )
              (rw (runs_valid (substr line s (e - s)) (get_or line e 0) (drop (e + 1) line) valid))
        | inr invalid ↦
            rw
              (
                parse_loop_separator fuel line s e vec h e_in invalid,
                drop-get_or line e e_in,
                runs_invalid (substr line s (e - s)) (get_or line e 0) (drop (e + 1) line) invalid,
                map-append,
              )
              (elim (Option-cases (find_valid (e + 1) (drop (e + 1) line))) [
                | inl e_none ↦
                    rw
                      (
                        e_none,
                        find_valid-runs (e + 1) (drop (e + 1) line),
                        e_none,
                        flush_same line e,
                      )
                      (rw (append-nil) (ap some (flush_word-close_run line s e vec h l)))
                | inr (i, e_some) ↦
                    let bounds = find_valid-bounds (e + 1) i (drop (e + 1) line) e_some in
                    rw
                      (
                        e_some,
                        parse_loop-runs fuel line i i (flush_word line s e vec) (omega arith)
                            (omega (arith, length-drop (e + 1) line)) (omega arith),
                      )
                      (rw (
                        substr_none line i,
                        ← skip_to line (e + 1) i e_some,
                        flush_word-close_run line s e vec h l,
                        append_assoc,
                      ))
              ])
      ]
]

-- `Parse` ends within the line's length and appends to the vector exactly the longest runs of letters,
-- digits and apostrophes of the line, in order and in lower case.
pub parse-runs :
    (line : List ℕ) (vec : List (List ℕ))
    → parse line vec ≡ some (vec ++ map (map lower) (runs [] line))
unfolding parse
parse-runs line vec =
    parse_loop-runs (length line) line 0 0 vec (omega arith) (omega arith) (omega arith)
