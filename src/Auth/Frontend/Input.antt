-- ===== src/Auth/Frontend/Input.antt =====
-- Authentication/Frontend.c: `read_username`, and what it shares with `read_password`. Messages to the
-- user and clearing buffers leave no trace; discarding the rest of a line that was too long only
-- precedes a failure.
pub mod Accepts
use mathlib.Core.Option
use st5039cmd.Base.{
  ℕ, ◌+◌, ◌-◌, Bool, true, false, List, [], ◌∷◌, ◌++◌, Option, none, some, length, drop, leb, ◌==◌,
  if◌then◌else◌,
}
use st5039cmd.Base.Stdio.{File, fgets}
use st5039cmd.Auth.Protocol.{auth_username_max}

-- USERNAME_INPUT_BUFFER_SIZE.
abbrev pub username_input_buffer_size : ℕ
username_input_buffer_size = auth_username_max + 2

-- `strcspn(input, "\n")` and the test behind it: the string in front of its newline, `none` if it has
-- none.
unfoldable pub cut_newline : List ℕ → Option (List ℕ)
cut_newline [] = none
cut_newline (c ∷ cs) =
    let rest = cut_newline cs in
    if c == 10 then some [] else if c == 0 then none else Option.map (◌∷◌ c) rest

-- Neither empty nor longer than the array.
unfoldable pub check_length : ℕ → List ℕ → Option (List ℕ)
check_length size input =
    if length input == 0 then none else if leb size (length input) then none else some input

-- `memcpy(array, input, input_length + 1)`.
unfoldable pub copy_string : List ℕ → List ℕ → List ℕ
copy_string input array = input ++ 0 ∷ drop (length input + 1) array

unfoldable pub accept_line : List ℕ → Option (List ℕ) → Option (List ℕ)
accept_line array none = none
accept_line array (some input) =
    Option.map (λ s. copy_string s array) (check_length (length array) input)

-- What becomes of the array, from what `fgets` gave; `none` is the return of -1.
unfoldable pub accept_input : List ℕ → Option (List ℕ) → Option (List ℕ)
unfolding cut_newline check_length copy_string accept_line
accept_input array none = none
accept_input array (some input) = accept_line array (cut_newline input)

unfoldable pub read_username :
    (interrupted : Bool) → (username : List ℕ) → File → Option (List ℕ) × File
read_username interrupted username stdin =
    if interrupted
    then (none, stdin)
    else let (input, rest) = fgets (username_input_buffer_size - 1) stdin in
      (accept_input username input, rest)
