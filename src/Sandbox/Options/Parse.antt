-- ===== src/Sandbox/Options/Parse.antt =====
-- What a command line that is accepted looks like.
use st5039cmd.Base.CString.{codes, same_bytes, same_bytes_iff}
use st5039cmd.Base.Numbers.{strtoul}
use st5039cmd.Base.{
  false, ◌==◌, ◌↔◌, ℕ, ◌≤◌, ◌≡◌, ◌≢◌, ◌⊎◌, inl, inr, refl, List, [], ◌∷◌, ◌++◌, none, some, arith,
  ap, sym, subst, ◌∙◌, Option-cases,
}
use st5039cmd.Sandbox.Options.{
  SandboxOptions, parse_options, parse_from, take_target, parse_unsigned_limit, classify, Argument,
  timeout_option, memory_option, end_of_options, unknown_option, target, maximum_timeout_seconds,
  maximum_memory_limit_kilobytes, default_timeout_seconds,
}

-- A text that `strtoul` reads as this number, which is in range.
abbrev pub IsLimit : List ℕ → (maximum v : ℕ) → Type 0
IsLimit text maximum v = (strtoul text ≡ some v) × (1 ≤ v) × (v ≤ maximum)

-- An argument that does not begin with a dash.
abbrev pub IsWord : List ℕ → Type 0
IsWord [] = Unit {0}
IsWord (c ∷ cs) = c ≢ b'-'

-- A prefix of limits, each option with its value, that leads from one pair of limits to another.
pub data Limits : ℕ → ℕ → List (List ℕ) → ℕ → ℕ → Type 0 where
  none_given : {t m : ℕ} → Limits t m [] t m
  timeout_given :
      {t t' u m n : ℕ} {rest : List (List ℕ)} (a v : List ℕ)
      → a ≡ codes "--timeout"
      → IsLimit v maximum_timeout_seconds t'
      → Limits t' m rest u n
      → Limits t m (a ∷ v ∷ rest) u n
  memory_given :
      {t u m m' n : ℕ} {rest : List (List ℕ)} (a v : List ℕ)
      → a ≡ codes "--memory-kb"
      → IsLimit v maximum_memory_limit_kilobytes m'
      → Limits t m' rest u n
      → Limits t m (a ∷ v ∷ rest) u n

-- The rest of an accepted line: the target with its arguments, behind `--` or by itself.
pub data Ending : List (List ℕ) → List (List ℕ) → Type 0 where
  bare : (a : List ℕ) (rest : List (List ℕ)) → IsWord a → Ending (a ∷ rest) (a ∷ rest)
  dashed : (a : List ℕ) (rest : List (List ℕ)) → a ≡ codes "--" → Ending (a ∷ rest) rest

pub record Accepted (timeout memory : ℕ) (argv : List (List ℕ)) (o : SandboxOptions) : Type 0 where
  pub prefix : List (List ℕ)
  pub ending : List (List ℕ)
  pub splits : argv ≡ prefix ++ ending
  pub limits : Limits timeout memory prefix o.timeout_seconds o.memory_limit_kilobytes
  pub ends : Ending ending o.target_argv
  pub first : (rest : List (List ℕ)) × (o.target_argv ≡ o.target_path ∷ rest)
  pub named : o.target_path ≢ []

-- The limits that the usage text promises.
abbrev pub InRange : ℕ → ℕ → Type 0
InRange timeout memory =
    (1 ≤ timeout) × (timeout ≤ maximum_timeout_seconds) × (memory ≤ maximum_memory_limit_kilobytes)

parse_unsigned_limit-IsLimit :
    (text : List ℕ) (maximum v : ℕ)
    → (parse_unsigned_limit text maximum ≡ some v) ↔ IsLimit text maximum v
unfolding parse_unsigned_limit
parse_unsigned_limit-IsLimit text maximum v = ground arith

classify-timeout : classify (codes "--timeout") ≡ timeout_option
unfolding classify same_bytes
classify-timeout = refl

classify-memory : classify (codes "--memory-kb") ≡ memory_option
unfolding classify same_bytes
classify-memory = refl

classify-end_of_options : classify (codes "--") ≡ end_of_options
unfolding classify same_bytes
classify-end_of_options = refl

timeout_option-codes : (a : List ℕ) → classify a ≡ timeout_option → a ≡ codes "--timeout"
unfolding classify
timeout_option-codes a h = ground (arith, h, same_bytes_iff a (codes "--timeout"))

memory_option-codes : (a : List ℕ) → classify a ≡ memory_option → a ≡ codes "--memory-kb"
unfolding classify
memory_option-codes a h = ground (arith, h, same_bytes_iff a (codes "--memory-kb"))

end_of_options-codes : (a : List ℕ) → classify a ≡ end_of_options → a ≡ codes "--"
unfolding classify
end_of_options-codes a h = ground (arith, h, same_bytes_iff a (codes "--"))

target-IsWord : (a : List ℕ) → classify a ≡ target → IsWord a
unfolding classify
target-IsWord [] h = tt
target-IsWord (c ∷ cs) h = ground (arith, h)

word-target : (a : List ℕ) → IsWord a → classify a ≡ target
unfolding classify same_bytes
word-target [] w = refl
word-target (c ∷ cs) w = let other : (c == b'-') ≡ false = ground (arith, w) in rw other

none≢some : {o : SandboxOptions} → none ≢ some o
none≢some h = cc

some_inj : {o p : SandboxOptions} → some o ≡ some p → o ≡ p
some_inj h = cc

take_target-nil : (timeout memory : ℕ) {o : SandboxOptions} → take_target timeout memory [] ≢ some o
unfolding take_target
take_target-nil timeout memory h = none≢some h

Argument-cases :
    (a : Argument)
    → (a ≡ target)
      ⊎ (a ≡ end_of_options)
      ⊎ (a ≡ timeout_option)
      ⊎ (a ≡ memory_option)
      ⊎ (a ≡ unknown_option)
Argument-cases target = inl refl
Argument-cases end_of_options = inr (inl refl)
Argument-cases timeout_option = inr (inr (inl refl))
Argument-cases memory_option = inr (inr (inr (inl refl)))
Argument-cases unknown_option = inr (inr (inr (inr refl)))

take_target-Accepted :
    (timeout memory : ℕ) (argv rest : List (List ℕ)) (o : SandboxOptions)
    → Ending argv rest
    → take_target timeout memory rest ≡ some o
    → Accepted timeout memory argv o
unfolding take_target
take_target-Accepted timeout memory argv [] o e h = absurd (none≢some h)
take_target-Accepted timeout memory argv ([] ∷ rest) o e h = absurd (none≢some h)
take_target-Accepted timeout memory argv ((c ∷ cs) ∷ rest) o e h =
    subst (Accepted timeout memory argv) (some_inj h) (record {
      prefix = [];
      ending = argv;
      splits = refl;
      limits = none_given;
      ends = e;
      first = (rest, refl);
      named = λ p. cc;
    })

timeout-Accepted :
    (timeout memory : ℕ) (a v : List ℕ) (rest : List (List ℕ)) (t : ℕ) (o : SandboxOptions)
    → a ≡ codes "--timeout"
    → IsLimit v maximum_timeout_seconds t
    → Accepted t memory rest o
    → Accepted timeout memory (a ∷ v ∷ rest) o
timeout-Accepted timeout memory a v rest t o c p w = record {
  prefix = a ∷ v ∷ w.prefix;
  ending = w.ending;
  splits = ap (λ r. a ∷ v ∷ r) w.splits;
  limits = timeout_given a v c p w.limits;
  ends = w.ends;
  first = w.first;
  named = w.named;
}

memory-Accepted :
    (timeout memory : ℕ) (a v : List ℕ) (rest : List (List ℕ)) (m : ℕ) (o : SandboxOptions)
    → a ≡ codes "--memory-kb"
    → IsLimit v maximum_memory_limit_kilobytes m
    → Accepted timeout m rest o
    → Accepted timeout memory (a ∷ v ∷ rest) o
memory-Accepted timeout memory a v rest m o c p w = record {
  prefix = a ∷ v ∷ w.prefix;
  ending = w.ending;
  splits = ap (λ r. a ∷ v ∷ r) w.splits;
  limits = memory_given a v c p w.limits;
  ends = w.ends;
  first = w.first;
  named = w.named;
}

parse_from-Accepted :
    (timeout memory : ℕ) (argv : List (List ℕ)) (o : SandboxOptions)
    → parse_from timeout memory argv ≡ some o
    → Accepted timeout memory argv o
unfolding parse_from
parse_from-Accepted timeout memory [] o h = absurd (take_target-nil timeout memory h)
parse_from-Accepted timeout memory (a ∷ []) o h = elim (Argument-cases (classify a)) [
  | inl e ↦
      take_target-Accepted timeout memory (a ∷ []) (a ∷ []) o (bare a [] (target-IsWord a e))
        (rw (e, parse_from) at h)
  | inr (inl e) ↦ absurd (take_target-nil timeout memory (rw (e, parse_from) at h))
  | inr (inr (inl e)) ↦ absurd (none≢some (rw (e, parse_from) at h))
  | inr (inr (inr (inl e))) ↦ absurd (none≢some (rw (e, parse_from) at h))
  | inr (inr (inr (inr e))) ↦ absurd (none≢some (rw (e, parse_from) at h))
]
parse_from-Accepted timeout memory (a ∷ v ∷ rest) o h = elim (Argument-cases (classify a)) [
  | inl e ↦
      take_target-Accepted timeout memory (a ∷ v ∷ rest) (a ∷ v ∷ rest) o
        (bare a (v ∷ rest) (target-IsWord a e)) (rw (e, parse_from) at h)
  | inr (inl e) ↦
      take_target-Accepted timeout memory (a ∷ v ∷ rest) (v ∷ rest) o
        (dashed a (v ∷ rest) (end_of_options-codes a e)) (rw (e, parse_from) at h)
  | inr (inr (inl e)) ↦ elim (Option-cases (parse_unsigned_limit v maximum_timeout_seconds)) [
    | inl bad ↦ absurd (none≢some (rw (e, bad, parse_from) at h))
    | inr (t, good) ↦
        timeout-Accepted timeout memory a v rest t o (timeout_option-codes a e)
          ((parse_unsigned_limit-IsLimit v maximum_timeout_seconds t).0 good)
          (parse_from-Accepted t memory rest o (rw (e, good, parse_from) at h))
  ]
  | inr (inr (inr (inl e))) ↦
      elim (Option-cases (parse_unsigned_limit v maximum_memory_limit_kilobytes)) [
        | inl bad ↦ absurd (none≢some (rw (e, bad, parse_from) at h))
        | inr (m, good) ↦
            memory-Accepted timeout memory a v rest m o (memory_option-codes a e)
              ((parse_unsigned_limit-IsLimit v maximum_memory_limit_kilobytes m).0 good)
              (parse_from-Accepted timeout m rest o (rw (e, good, parse_from) at h))
      ]
  | inr (inr (inr (inr e))) ↦ absurd (none≢some (rw (e, parse_from) at h))
]

parse_from-Ending :
    (timeout memory : ℕ) (argv rest : List (List ℕ))
    → Ending argv rest
    → parse_from timeout memory argv ≡ take_target timeout memory rest
unfolding parse_from
parse_from-Ending timeout memory argv rest (bare a [] w) = rw (word-target a w, parse_from)
parse_from-Ending timeout memory argv rest (bare a (v ∷ r) w) = rw (word-target a w, parse_from)
parse_from-Ending timeout memory argv rest (dashed a [] e) =
    rw (ap classify e ∙ classify-end_of_options, parse_from)
parse_from-Ending timeout memory argv rest (dashed a (v ∷ r) e) =
    rw (ap classify e ∙ classify-end_of_options, parse_from)

parse_from-Limits :
    (argv ending : List (List ℕ)) {t m u n : ℕ}
    → Limits t m argv u n
    → parse_from t m (argv ++ ending) ≡ parse_from u n ending
unfolding parse_from
parse_from-Limits argv ending none_given = refl
parse_from-Limits argv ending (timeout_given {rest = rest} a v c p l) =
    rw
      (
        ap classify c ∙ classify-timeout,
        (parse_unsigned_limit-IsLimit v maximum_timeout_seconds _).1 p,
        parse_from,
      )
      (parse_from-Limits rest ending l)
parse_from-Limits argv ending (memory_given {rest = rest} a v c p l) =
    rw
      (
        ap classify c ∙ classify-memory,
        (parse_unsigned_limit-IsLimit v maximum_memory_limit_kilobytes _).1 p,
        parse_from,
      )
      (parse_from-Limits rest ending l)

take_target-named :
    (timeout memory : ℕ) (path : List ℕ) (rest : List (List ℕ))
    → path ≢ []
    → take_target timeout memory (path ∷ rest)
      ≡ some (record {
        target_path = path;
        target_argv = path ∷ rest;
        timeout_seconds = timeout;
        memory_limit_kilobytes = memory;
      })
unfolding take_target
take_target-named timeout memory [] rest h = absurd (h refl)
take_target-named timeout memory (c ∷ cs) rest h = refl

-- The command line is accepted, with these options, exactly when it consists of `--timeout` with a
-- number from 1 to 86400 and `--memory-kb` with one from 1 to 4194304, as `strtoul` reads them (the last
-- of each kind counts), and then a nonempty target that takes all that follows as its own arguments,
-- behind `--` or by itself if it does not begin with a dash.
pub parse_options-Accepted :
    (argv : List (List ℕ)) (o : SandboxOptions)
    → (parse_options argv ≡ some o → Accepted default_timeout_seconds 0 argv o)
      × (Accepted default_timeout_seconds 0 argv o → parse_options argv ≡ some o)
unfolding parse_options
parse_options-Accepted argv o = (
  parse_from-Accepted default_timeout_seconds 0 argv o,
  λ w.
      let (rest, e) = w.first in
      ap (parse_from default_timeout_seconds 0) w.splits
      ∙ parse_from-Limits w.prefix w.ending w.limits
      ∙ parse_from-Ending o.timeout_seconds o.memory_limit_kilobytes w.ending o.target_argv w.ends
      ∙ ap (take_target o.timeout_seconds o.memory_limit_kilobytes) e
      ∙ take_target-named o.timeout_seconds o.memory_limit_kilobytes o.target_path rest w.named
      ∙ ap some (λ i. record o { target_argv = sym e i }),
)

Limits-InRange :
    {t m u n : ℕ} {argv : List (List ℕ)} → Limits t m argv u n → InRange t m → InRange u n
Limits-InRange none_given r = r
Limits-InRange (timeout_given a v c p l) r = Limits-InRange l (p.1, p.2, r.2)
Limits-InRange (memory_given a v c p l) r = Limits-InRange l (r.0, r.1, p.2)

-- Accepted options always hold a timeout from 1 to 86400 seconds and at most 4 GiB of memory.
pub parse_options-InRange :
    (argv : List (List ℕ)) (o : SandboxOptions)
    → parse_options argv ≡ some o
    → InRange o.timeout_seconds o.memory_limit_kilobytes
parse_options-InRange argv o h =
    Limits-InRange ((parse_options-Accepted argv o).0 h).limits (omega arith)
