-- ===== src/Wl/Context.antt =====
-- wl::Context of p1/wl.h and p1/wl.cpp, and the loop of `main`.
pub mod Model
mod Loading
pub mod Session
use cs564_projects.Prelude.{
  ℕ, zero, suc, Bool, true, false, List, [], ◌∷◌, ◌++◌, Option, none, some,
}
use cs564_projects.Prelude.Int.{ℤ, pos, negsuc}
use cs564_projects.Wl.Command.{
  Op, op_empty, op_end, op_new, op_load, op_locate, op_invalid, Command, receive,
}
use cs564_projects.Wl.Command
use cs564_projects.Wl.Dictionary
use cs564_projects.Wl.Dictionary.{Dictionary, Files, renew, load, locate}

pub record Context : Type 0 where
  pub dictionary : Dictionary
  pub result : ℤ
  pub destroyed : Bool
  pub prev_ops : Op

-- `Context::Context`
abbrev pub create : Context
create = record {
  dictionary = Dictionary.create;
  result = negsuc 1;
  destroyed = false;
  prev_ops = op_empty;
}

-- What a command prints.
pub data Line : Type 0 where
  invalid_command no_matching_entry : Line
  number : ℕ → Line

-- The lines that `Context::PrintResult` writes for a result.
unfoldable pub report : ℤ → List Line
report (negsuc zero) = invalid_command ∷ []
report (negsuc (suc n)) = []
report (pos zero) = no_matching_entry ∷ []
report (pos (suc n)) = number (suc n) ∷ []

-- `Context::PrintResult`
unfoldable pub print_result : Context → Context × List Line
unfolding report
print_result c = (record c { result = negsuc 1 }, report c.result)

-- `this->dictionary->New()` if the previous operation is LOAD
unfoldable pub renew_after_load : Op → Dictionary → Dictionary
unfolding renew
renew_after_load op_load d = renew d
renew_after_load _ d = d

-- The `switch` of `Context::Execute`; `none` is a `Locate` that reads out of bounds, or a loop that does
-- not end.
unfoldable pub dispatch : Files → Op → Command → Context → Option Context
dispatch files op_end command c = some (record c { destroyed = true; prev_ops = op_end })
dispatch files op_new command c =
    some (record c { dictionary = renew c.dictionary; prev_ops = op_new })
dispatch files op_load command c =
    let d = renew_after_load c.prev_ops c.dictionary in
    elim (d.is_loadable) [
      | true ↦ elim (load files d command.arg_1) [
        | none ↦ none
        | some d' ↦ some (record c { dictionary = d'; prev_ops = op_load })
      ]
      | false ↦ some (record c { dictionary = d; result = negsuc 0 })
    ]
dispatch files op_locate command c = elim (locate c.dictionary command.arg_1 command.arg_2) [
  | none ↦ none
  | some n ↦ some (record c { result = pos n; prev_ops = op_locate })
]
dispatch files op_invalid command c = some (record c { result = negsuc 0 })
dispatch files op_empty command c = some c

-- `Context::Execute`
unfoldable pub execute : Files → Command → Context → Option (Context × List Line)
unfolding dispatch print_result
execute files command c = elim (dispatch files command.op command c) [
  | none ↦ none
  | some c' ↦ some (print_result c')
]

-- `f.is_open()` for the test of `Receive`
abbrev pub opens : Files → List ℕ → Bool
opens files path = elim (files path) [ none ↦ false | some bytes ↦ true ]

-- The loop of `main` over the lines typed so far: the last state and all that was printed. The
-- `Command` object is the same in every round.
unfoldable pub run : Files → List (List ℕ) → Command → Context → Option (Context × List Line)
unfolding receive execute
run files [] command c = some (c, [])
run files (line ∷ lines) command c =
    let command' = receive (opens files) command line in
    elim (execute files command' c) [
      | none ↦ none
      | some (c', out) ↦ elim (c'.destroyed) [
        | true ↦ some (c', out)
        | false ↦ elim (run files lines command' c') [
          | none ↦ none
          | some (c'', more) ↦ some (c'', out ++ more)
        ]
      ]
    ]
