-- ===== src/Wl/Command.antt =====
-- wl::Op and wl::Command of p1/wl.h and p1/wl.cpp. The four regular expressions of `Command::Parse`
-- are written as the matchers that they describe: `\s` is a blank of the "C" locale, `icase` compares
-- without regard to case, and a repetition takes all that lets the rest match.
use cs564_projects.Prelude.{
  ℕ, ◌+◌, ◌-◌, ◌*◌, ◌^◌, Bool, true, false, ◌&&◌, ◌||◌, not, List, [], ◌∷◌, Option, none, some, ltb,
  leb, ◌==◌, if◌then◌else◌,
}
use mathlib.Core.List.{reverse}
use cs564_projects.Wl.Text.{to_lower, is_word_byte}
use cs564_projects.Wl.Node.{str_eq}

pub data Op : Type 0 where
  op_empty op_end op_new op_load op_locate op_invalid : Op

pub record Command : Type 0 where
  pub op : Op
  pub arg_1 : List ℕ
  pub arg_2 : ℕ

-- `Command::Command`
abbrev pub create : Command
create = record { op = op_empty; arg_1 = []; arg_2 = 0 }

-- The string literals "new", "end", "load", "locate" and "INVALID".
abbrev pub new_word : List ℕ
new_word = b'n' ∷ b'e' ∷ b'w' ∷ []

abbrev pub end_word : List ℕ
end_word = b'e' ∷ b'n' ∷ b'd' ∷ []

abbrev pub load_word : List ℕ
load_word = b'l' ∷ b'o' ∷ b'a' ∷ b'd' ∷ []

abbrev pub locate_word : List ℕ
locate_word = b'l' ∷ b'o' ∷ b'c' ∷ b'a' ∷ b't' ∷ b'e' ∷ []

abbrev pub invalid_word : List ℕ
invalid_word = b'I' ∷ b'N' ∷ b'V' ∷ b'A' ∷ b'L' ∷ b'I' ∷ b'D' ∷ []

-- `command.c_str()`: the match sees the bytes before the first zero.
unfoldable pub c_str : List ℕ → List ℕ
c_str [] = []
c_str (c ∷ s) = if c == 0 then [] else c ∷ c_str s

-- `\s`
unfoldable pub is_space : ℕ → Bool
is_space c = c == 32 || (leb 9 c && leb c 13)

-- `\s*` at the front, and at the end
unfoldable pub skip_space : List ℕ → List ℕ
unfolding is_space
skip_space [] = []
skip_space (c ∷ s) = if is_space c then skip_space s else c ∷ s

unfoldable pub trim_end : List ℕ → List ℕ
unfolding skip_space
trim_end s = reverse (skip_space (reverse s))

-- The longest run without a blank, and what follows it.
unfoldable pub token : List ℕ → List ℕ × List ℕ
unfolding is_space
token [] = ([], [])
token (c ∷ s) = let (t, rest) = token s in if is_space c then ([], c ∷ s) else (c ∷ t, rest)

abbrev pub all_bytes : (ℕ → Bool) → List ℕ → Bool
all_bytes p [] = true
all_bytes p (c ∷ s) = p c && all_bytes p s

-- `\s*(keyword)\s*`, the keyword in lower case: the group
unfoldable pub match_bare : List ℕ → List ℕ → Option (List ℕ)
unfolding trim_end
match_bare keyword s =
    let group = trim_end (skip_space s) in
    if str_eq (to_lower group) keyword then some group else none

-- `\"(.*)\"` on the whole of a text: the group. A `.` is no line end.
unfoldable pub quoted : List ℕ → Option (List ℕ)
quoted [] = none
quoted (c ∷ s) = elim (reverse s) [
  | [] ↦ none
  | d ∷ inside ↦
      if c == 34 && d == 34 && all_bytes (λ b. not (b == 10 || b == 13)) inside
      then some (reverse inside)
      else none
]

-- `^\s*(load)\s+(\"(.*)\"|(\S+))\s*$`: group 1, and group 3 or group 4
unfoldable pub match_load : List ℕ → Option (List ℕ × List ℕ)
unfolding skip_space trim_end token quoted
match_load s =
    let (group, rest) = token (skip_space s) in
    let path = trim_end (skip_space rest) in
    if str_eq (to_lower group) load_word
    then elim (quoted path) [
      | some inside ↦ some (group, inside)
      | none ↦
          if str_eq (token path).0 path && not (str_eq path []) then some (group, path) else none
    ]
    else none

-- `[1-9][0-9]*`
unfoldable pub is_number : List ℕ → Bool
is_number [] = false
is_number (c ∷ s) = leb b'1' c && leb c b'9' && all_bytes (λ d. leb b'0' d && leb d b'9') s

-- `^\s*(locate)\s+([0-9a-zA-Z']+)+\s+([1-9][0-9]*)\s*$`: the three groups
unfoldable pub match_locate : List ℕ → Option (List ℕ × List ℕ × List ℕ)
unfolding skip_space trim_end token is_number is_word_byte
match_locate s =
    let (group, rest) = token (skip_space s) in
    let (word, rest') = token (skip_space rest) in
    let number = trim_end (skip_space rest') in
    if str_eq (to_lower group) locate_word
      && not (str_eq word [])
      && all_bytes is_word_byte word
      && is_number number
    then some (group, word, number)
    else none

-- `Command::Parse`
unfoldable pub parse : List ℕ → List (List ℕ)
unfolding match_bare match_load match_locate c_str to_lower
parse [] = []
parse (c ∷ command) =
    let s = c_str (c ∷ command) in
    elim (match_bare new_word s) [
      | some group ↦ to_lower group ∷ []
      | none ↦ elim (match_bare end_word s) [
        | some group ↦ to_lower group ∷ []
        | none ↦ elim (match_load s) [
          | some (group, path) ↦ to_lower group ∷ path ∷ []
          | none ↦ elim (match_locate s) [
            | some (group, word, number) ↦ to_lower group ∷ to_lower word ∷ number ∷ []
            | none ↦ invalid_word ∷ []
          ]
        ]
      ]
    ]

-- `ss >> occurrence` into a uint16_t: the digits' value, or the type's maximum where that does not fit.
unfoldable pub decimal : ℕ → List ℕ → ℕ
decimal acc [] = acc
decimal acc (c ∷ s) = decimal (acc * 10 + (c - b'0')) s

unfoldable pub read_uint16 : List ℕ → ℕ
unfolding decimal
read_uint16 s = if ltb (decimal 0 s) (2 ^ 16) then decimal 0 s else 2 ^ 16 - 1

-- The tests of `Command::Receive` on the parsed words; `opens` says which files can be opened.
unfoldable pub interpret : (List ℕ → Bool) → Command → List (List ℕ) → Command
unfolding read_uint16
interpret opens c [] = record c { op = op_empty }
interpret opens c (w ∷ []) =
    if str_eq w new_word
    then record c { op = op_new }
    else (if str_eq w end_word then record c { op = op_end } else record c { op = op_invalid })
interpret opens c (w ∷ path ∷ []) =
    if opens path
    then record { op = op_load; arg_1 = path; arg_2 = c.arg_2 }
    else record c { op = op_invalid }
interpret opens c (w ∷ word ∷ number ∷ []) = record {
  op = op_locate;
  arg_1 = word;
  arg_2 = read_uint16 number;
}
interpret opens c (w ∷ w2 ∷ w3 ∷ w4 ∷ ws) = record c { op = op_invalid }

-- `Command::Receive` on a line from the standard input
unfoldable pub receive : (List ℕ → Bool) → Command → List ℕ → Command
unfolding parse interpret
receive opens c line = interpret opens c (parse line)
