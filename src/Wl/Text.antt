-- ===== src/Wl/Text.antt =====
-- wl::Parser::ToLower and wl::Dictionary::Parse of p1/wl.cpp. A string is the list of its bytes;
-- `isalnum` and `std::tolower` are those of the "C" locale, which the program never changes, with
-- every byte from 128 on no letter.
pub mod Runs
pub mod Words
use cs564_projects.Prelude.{
  ℕ, zero, suc, ◌+◌, ◌-◌, Bool, ◌&&◌, ◌||◌, List, [], ◌∷◌, ◌++◌, Option, none, some, ltb, leb, ◌==◌,
  if◌then◌else◌, length, take, drop, get_or,
}

-- `std::tolower`
unfoldable pub to_lower_byte : ℕ → ℕ
to_lower_byte c = if leb b'A' c && leb c b'Z' then c + 32 else c

-- `Parser::ToLower`
unfoldable pub to_lower : List ℕ → List ℕ
unfolding to_lower_byte
to_lower [] = []
to_lower (c ∷ s) = to_lower_byte c ∷ to_lower s

-- `isalnum(ch) || ch == '\''`
unfoldable pub is_word_byte : ℕ → Bool
is_word_byte c =
    (leb b'0' c && leb c b'9')
    || (leb b'A' c && leb c b'Z')
    || (leb b'a' c && leb c b'z')
    || c == 39

-- `line.substr(s, n)`
abbrev pub substr : List ℕ → ℕ → ℕ → List ℕ
substr line s n = take n (drop s line)

-- The inner `for` loop of `Dictionary::Parse`: the first index from `i` on that holds a valid
-- character, where `rest` is the line from `i` on.
unfoldable pub find_valid : ℕ → List ℕ → Option ℕ
unfolding is_word_byte
find_valid i [] = none
find_valid i (c ∷ rest) = if is_word_byte c then some i else find_valid (suc i) rest

-- `vec.emplace_back(this->ToLower(word))` under `s_index != e_index`
unfoldable pub flush_word : List ℕ → ℕ → ℕ → List (List ℕ) → List (List ℕ)
unfolding to_lower
flush_word line s e vec = if s == e then vec else vec ++ to_lower (substr line s (e - s)) ∷ []

-- The `while` loop of `Dictionary::Parse` and the last word behind it. The loop runs while both
-- indices are inside the line; `e` grows in each round, so the line's length bounds the rounds. With no
-- fuel left the loop ends if it does not go on, and `none` is a loop that does not end.
unfoldable pub parse_loop : ℕ → List ℕ → ℕ → ℕ → List (List ℕ) → Option (List (List ℕ))
unfolding find_valid flush_word is_word_byte
parse_loop zero line s e vec =
    if ltb s (length line) && ltb e (length line) then none else some (flush_word line s e vec)
parse_loop (suc fuel) line s e vec =
    let onward = parse_loop fuel line s (e + 1) vec in
    let vec' = flush_word line s e vec in
    let separator : Option (List (List ℕ)) = elim (find_valid (e + 1) (drop (e + 1) line)) [
      | none ↦ some (flush_word line e e vec')
      | some i ↦ parse_loop fuel line i i vec'
    ] in
    if ltb s (length line) && ltb e (length line)
    then (if is_word_byte (get_or line e 0) then onward else separator)
    else some (flush_word line s e vec)

-- `Dictionary::Parse`
unfoldable pub parse : List ℕ → List (List ℕ) → Option (List (List ℕ))
unfolding parse_loop
parse line vec = parse_loop (length line) line 0 0 vec
