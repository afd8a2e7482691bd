-- ===== src/Sandbox/Options.antt =====
-- Sandbox/Sandbox.c: the command line, `parse_unsigned_limit` and `parse_options`. An argument is
-- the list of its bytes; `argv` stands without the program's name, and the rest of the list plays the
-- part of `argument_index`.
pub mod Limits
pub mod Parse
pub mod Tests
use st5039cmd.Base.{
  ℕ, ◌*◌, Bool, true, false, not, ◌||◌, List, [], ◌∷◌, Option, none, some, ltb, ◌==◌, if◌then◌else◌,
}
use st5039cmd.Base.CString.{codes, same_bytes}
use st5039cmd.Base.Numbers.{strtoul}

abbrev pub default_timeout_seconds : ℕ
default_timeout_seconds = 5

abbrev pub maximum_timeout_seconds : ℕ
maximum_timeout_seconds = 86400

abbrev pub maximum_memory_limit_kilobytes : ℕ
maximum_memory_limit_kilobytes = 4 * 1024 * 1024

pub record SandboxOptions : Type 0 where
  pub target_path : List ℕ
  pub target_argv : List (List ℕ)
  pub timeout_seconds : ℕ
  pub memory_limit_kilobytes : ℕ

pub check_limit : ℕ → Option ℕ → Option ℕ
check_limit maximum none = none
check_limit maximum (some parsed) = if parsed == 0 || ltb maximum parsed then none else some parsed

unfoldable pub parse_unsigned_limit : List ℕ → ℕ → Option ℕ
unfolding check_limit
parse_unsigned_limit value maximum = check_limit maximum (strtoul value)

-- Which of the tests of the loop the argument meets first.
pub data Argument : Type 0 where
  timeout_option memory_option end_of_options unknown_option target : Argument

abbrev pub starts_with_dash : List ℕ → Bool
starts_with_dash [] = false
starts_with_dash (c ∷ cs) = c == b'-'

unfoldable pub classify : List ℕ → Argument
classify a =
    if same_bytes a (codes "--timeout")
    then Argument.timeout_option
    else if same_bytes a (codes "--memory-kb")
    then Argument.memory_option
    else if same_bytes a (codes "--")
    then Argument.end_of_options
    else if starts_with_dash a
    then Argument.unknown_option
    else Argument.target

-- What follows the loop.
pub take_target : ℕ → ℕ → List (List ℕ) → Option SandboxOptions
take_target timeout memory [] = none
take_target timeout memory ([] ∷ rest) = none
take_target timeout memory ((c ∷ cs) ∷ rest) = some (record {
  target_path = c ∷ cs;
  target_argv = (c ∷ cs) ∷ rest;
  timeout_seconds = timeout;
  memory_limit_kilobytes = memory;
})

-- The loop, over the two limits set so far.
pub parse_from : ℕ → ℕ → List (List ℕ) → Option SandboxOptions
parse_from timeout memory [] = take_target timeout memory []
parse_from timeout memory (a ∷ []) = elim (classify a) [
  | target ↦ take_target timeout memory (a ∷ [])
  | end_of_options ↦ take_target timeout memory []
  | timeout_option ↦ none
  | memory_option ↦ none
  | unknown_option ↦ none
]
parse_from timeout memory (a ∷ v ∷ rest) = elim (classify a) [
  | target ↦ take_target timeout memory (a ∷ v ∷ rest)
  | end_of_options ↦ take_target timeout memory (v ∷ rest)
  | timeout_option ↦ elim (parse_unsigned_limit v maximum_timeout_seconds) [
    | none ↦ none
    | some t ↦ parse_from t memory rest
  ]
  | memory_option ↦ elim (parse_unsigned_limit v maximum_memory_limit_kilobytes) [
    | none ↦ none
    | some m ↦ parse_from timeout m rest
  ]
  | unknown_option ↦ none
]

unfoldable pub parse_options : List (List ℕ) → Option SandboxOptions
unfolding take_target parse_from
parse_options argv = parse_from default_timeout_seconds 0 argv
