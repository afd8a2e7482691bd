-- ===== src/Sandbox/Options/Tests.antt =====
-- Command lines, and the theorems about them at concrete inputs.
use st5039cmd.Base.{ℕ, ◌≤◌, ◌≡◌, ◌↔◌, refl, List, [], ◌∷◌, none, some, arith}
use st5039cmd.Base.CString.{codes, same_bytes}
use st5039cmd.Base.Numbers.{read_digits, scan_integer, strtoul, decimal, all_digits→IsDigits}
use st5039cmd.Sandbox.Options.{
  SandboxOptions, parse_unsigned_limit, parse_options, classify, default_timeout_seconds,
}
use st5039cmd.Sandbox.Options.Limits.{
  parse_unsigned_limit-bounds, parse_unsigned_limit-digits, parse_unsigned_limit-negative,
}
use st5039cmd.Sandbox.Options.Parse.{
  Accepted, InRange, parse_options-Accepted, parse_options-InRange,
}

abbrev line : List (List ℕ)
line = codes "--timeout" ∷ codes "30" ∷ codes "./job" ∷ codes "--timeout" ∷ []

abbrev job_options : SandboxOptions
job_options = record {
  target_path = codes "./job";
  target_argv = codes "./job" ∷ codes "--timeout" ∷ [];
  timeout_seconds = 30;
  memory_limit_kilobytes = 0;
}

runs : Unit {0}
unfolding parse_options classify same_bytes parse_unsigned_limit strtoul scan_integer read_digits
runs = tt

parses : parse_options line ≡ some job_options
unfolding runs
parses = refl

refuses : parse_options (codes "--timeout" ∷ codes "0" ∷ codes "./job" ∷ []) ≡ none
unfolding runs
refuses = refl

parse_unsigned_limit-bounds_example : (1 ≤ 30) × (30 ≤ 86400)
unfolding runs
parse_unsigned_limit-bounds_example = parse_unsigned_limit-bounds (codes "30") 86400 30 refl

parse_unsigned_limit-digits_example :
    (parse_unsigned_limit (codes "0030") 86400 ≡ some 30)
    ↔ ((decimal 0 (codes "0030") ≡ 30) × (1 ≤ 30) × (30 ≤ 86400))
parse_unsigned_limit-digits_example =
    parse_unsigned_limit-digits 48 (codes "030") 86400 30 (omega arith)
      (all_digits→IsDigits (codes "0030") refl)

parse_unsigned_limit-negative_example :
    parse_unsigned_limit (codes "-18446744073709551586") 86400 ≡ some 30
unfolding decimal
parse_unsigned_limit-negative_example =
    parse_unsigned_limit-negative 49 (codes "8446744073709551586") 86400 30 (omega arith)
      (all_digits→IsDigits (codes "18446744073709551586") refl) (omega arith) (omega arith) refl

parse_options-Accepted_example :
    (parse_options line ≡ some job_options → Accepted default_timeout_seconds 0 line job_options)
    × (Accepted default_timeout_seconds 0 line job_options → parse_options line ≡ some job_options)
parse_options-Accepted_example = parse_options-Accepted line job_options

line-InRange : InRange 30 0
unfolding runs
line-InRange = parse_options-InRange line job_options refl
