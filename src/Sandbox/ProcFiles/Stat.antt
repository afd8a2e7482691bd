-- ===== src/Sandbox/ProcFiles/Stat.antt =====
-- What is read from a line of /proc/PID/stat, whatever the command is called.
use st5039cmd.Base.{
  ℕ, ◌+◌, ◌≤◌, ◌<◌, ◌≡◌, refl, sym, ap, ◌∙◌, true, false, List, [], ◌∷◌, ◌++◌, All, none, some,
  length, ◌==◌, arith,
}
use st5039cmd.Sandbox.ProcessTree.{Process}
use st5039cmd.Sandbox.ProcFiles.{
  parse_pid_token, parse_unsigned_token, behind_last_paren, is_delimiter, begins_word, add_letter,
  tokens, StatFields, store_state, store_parent, store_group, store_user, store_system, store_field,
  store_fields, no_fields, check_found, parse_command_end, parse_stat,
}

-- A byte of a field: no white space and no closing parenthesis.
abbrev pub IsFieldByte : ℕ → Type 0
IsFieldByte c = (is_delimiter c ≡ false) × ((c == b')') ≡ false)

abbrev pub IsField : List ℕ → Type 0
IsField w = (0 < length w) × All IsFieldByte w

-- The fields of a line, each behind a space, and the newline.
unfoldable pub spaced : List (List ℕ) → List ℕ
spaced [] = 10 ∷ []
spaced (w ∷ ws) = 32 ∷ (w ++ spaced ws)

abbrev HasNoParen : List ℕ → Type 0
HasNoParen = All (λ c. (c == b')') ≡ false)

behind_last_paren-none : (cs : List ℕ) → HasNoParen cs → behind_last_paren cs ≡ none
unfolding behind_last_paren
behind_last_paren-none [] h = refl
behind_last_paren-none (c ∷ cs) h = rw (behind_last_paren-none cs h.1, h.0)

behind_last_paren-append :
    (pre tail : List ℕ) → HasNoParen tail → behind_last_paren (pre ++ b')' ∷ tail) ≡ some tail
unfolding behind_last_paren
behind_last_paren-append [] tail h = rw (behind_last_paren-none tail h)
behind_last_paren-append (c ∷ cs) tail h = rw (behind_last_paren-append cs tail h)

word-HasNoParen : (w rest : List ℕ) → All IsFieldByte w → HasNoParen rest → HasNoParen (w ++ rest)
word-HasNoParen [] rest h r = r
word-HasNoParen (c ∷ cs) rest h r = (h.0.1, word-HasNoParen cs rest h.1 r)

spaced-HasNoParen : (ws : List (List ℕ)) → All IsField ws → HasNoParen (spaced ws)
unfolding spaced
spaced-HasNoParen [] h = (refl, tt)
spaced-HasNoParen (w ∷ ws) h =
    (refl, word-HasNoParen w (spaced ws) h.0.1 (spaced-HasNoParen ws h.1))

begins_word-spaced : (ws : List (List ℕ)) → begins_word (spaced ws) ≡ false
unfolding begins_word spaced
begins_word-spaced [] = refl
begins_word-spaced (w ∷ ws) = refl

begins_word-field : (c : ℕ) (cs : List ℕ) → IsFieldByte c → begins_word (c ∷ cs) ≡ true
unfolding begins_word
begins_word-field c cs h = rw h.0

tokens-field :
    (c : ℕ) (cs rest : List ℕ)
    → All IsFieldByte (c ∷ cs)
    → begins_word rest ≡ false
    → tokens ((c ∷ cs) ++ rest) ≡ (c ∷ cs) ∷ tokens rest
unfolding tokens
tokens-field c [] rest h b = rw (h.0.0, b)
tokens-field c (d ∷ cs) rest h b =
    rw (h.0.0, begins_word-field d (cs ++ rest) h.1.0)
      (ap (add_letter c) (tokens-field d cs rest h.1 b) ∙ add_letter-word c (d ∷ cs) (tokens rest))
  where
    add_letter-word :
        (c : ℕ) (w : List ℕ) (ws : List (List ℕ)) → add_letter c (w ∷ ws) ≡ (c ∷ w) ∷ ws
    add_letter-word c w ws = unfold add_letter in refl

tokens-word :
    (w rest : List ℕ) → IsField w → begins_word rest ≡ false → tokens (w ++ rest) ≡ w ∷ tokens rest
tokens-word [] rest h b = absurd (omega (arith, h.0))
tokens-word (c ∷ cs) rest h b = tokens-field c cs rest h.1 b

tokens-space : (cs : List ℕ) → tokens (32 ∷ cs) ≡ tokens cs
unfolding tokens
tokens-space cs = refl

tokens-spaced : (ws : List (List ℕ)) → All IsField ws → tokens (spaced ws) ≡ ws
unfolding spaced
tokens-spaced [] h = unfold tokens in refl
tokens-spaced (w ∷ ws) h =
    tokens-space (w ++ spaced ws)
    ∙ tokens-word w (spaced ws) h.0 (begins_word-spaced ws)
    ∙ ap (◌∷◌ w) (tokens-spaced ws h.1)

-- Fields 6 to 13 leave no trace.
store_fields-skip :
    (number : ℕ) (middle rest : List (List ℕ)) (f : StatFields)
    → 6 ≤ number
    → number + length middle ≤ 14
    → store_fields number (middle ++ rest) f ≡ store_fields (number + length middle) rest f
store_fields-skip number [] rest f low high = ap (λ n. store_fields n rest f) (omega arith)
store_fields-skip number (w ∷ ws) rest f low high =
    store_fields-one number w (ws ++ rest) f low (omega arith)
    ∙ store_fields-skip (number + 1) ws rest f (omega arith) (omega arith)
    ∙ ap (λ n. store_fields n rest f) (omega arith)
  where
    store_fields-one :
        (number : ℕ) (w : List ℕ) (ws : List (List ℕ)) (f : StatFields)
        → 6 ≤ number
        → number < 14
        → store_fields number (w ∷ ws) f ≡ store_fields (number + 1) ws f
    store_fields-one number w ws f low high = unfold store_fields store_field in ground arith

-- The numbers of a stat line.
pub record StatNumbers : Type 0 where
  pub state : ℕ
  pub parent : ℕ
  pub group : ℕ
  pub user : ℕ
  pub system : ℕ

abbrev pub process_of : ℕ → StatNumbers → Process
process_of pid n = record {
  pid = pid;
  parent_pid = n.parent;
  process_group_id = n.group;
  state = n.state;
  user_ticks = n.user;
  system_ticks = n.system;
}

-- The fields in front of the eight that are skipped, and what is stored then.
store_fields-first :
    (pid state p g : ℕ) (parent group : List ℕ) (rest : List (List ℕ))
    → parse_pid_token parent ≡ some p
    → parse_pid_token group ≡ some g
    → store_fields 3 ((state ∷ []) ∷ parent ∷ group ∷ rest) (no_fields pid)
      ≡ store_fields 6 rest (record {
        process =
            process_of pid (record { state = state; parent = p; group = g; user = 0; system = 0 });
        found_parent = true;
        found_group = true;
        found_user_ticks = false;
        found_system_ticks = false;
      })
unfolding store_fields store_field store_state store_parent store_group no_fields
store_fields-first pid state p g parent group rest hp hg =
    rw (hp, hg, store_fields, store_field, store_parent, store_group)

store_fields-over :
    (number : ℕ) (more : List (List ℕ)) (f : StatFields)
    → 15 < number
    → store_fields number more f ≡ some f
unfolding store_fields
store_fields-over number [] f h = refl
store_fields-over number (w ∷ ws) f h = ground arith

store_fields-last :
    (user system : List ℕ) (u s : ℕ) (more : List (List ℕ)) (f : StatFields)
    → parse_unsigned_token user ≡ some u
    → parse_unsigned_token system ≡ some s
    → store_fields 14 (user ∷ system ∷ more) f
      ≡ some (record {
        process = record f.process { user_ticks = u; system_ticks = s };
        found_parent = f.found_parent;
        found_group = f.found_group;
        found_user_ticks = true;
        found_system_ticks = true;
      })
unfolding store_fields store_field store_user store_system
store_fields-last user system u s more f hu hs =
    rw (hu, hs, store_fields, store_field, store_user, store_system)
      (store_fields-over 16 more _ (omega arith))

check_found-all :
    (p : Process)
    → check_found (
        some (record {
          process = p;
          found_parent = true;
          found_group = true;
          found_user_ticks = true;
          found_system_ticks = true;
        }))
      ≡ some p
unfolding check_found
check_found-all p = refl

parse_stat-behind :
    (pid : ℕ) (pre cs : List ℕ)
    → HasNoParen cs
    → parse_stat pid (pre ++ b')' ∷ 32 ∷ cs)
      ≡ check_found (store_fields 3 (tokens cs) (no_fields pid))
unfolding parse_stat parse_command_end
parse_stat-behind pid pre cs h = rw (behind_last_paren-append pre (32 ∷ cs) (refl, h))

-- The fields of a stat line from the third on: state, parent, group, eight more, the two times, and
-- whatever follows.
abbrev pub stat_line :
    List ℕ
    → ℕ
    → (parent group : List ℕ) → List (List ℕ)
    → (user system : List ℕ) → List (List ℕ)
    → List ℕ
stat_line pre state parent group middle user system more =
    pre ++ b')' ∷ spaced ((state ∷ []) ∷ parent ∷ group ∷ (middle ++ user ∷ system ∷ more))

-- A stat line is read field by field, whatever stands in front of its last closing parenthesis: the
-- command may hold spaces, parentheses or whole fields, and still the state, the parent, the group
-- and the times are the real ones.
pub parse_stat_lem :
    (pid : ℕ) (pre : List ℕ) (n : StatNumbers) (parent group : List ℕ) (middle : List (List ℕ))
    (user system : List ℕ) (more : List (List ℕ))
    → All IsField ((n.state ∷ []) ∷ parent ∷ group ∷ (middle ++ user ∷ system ∷ more))
    → length middle ≡ 8
    → parse_pid_token parent ≡ some n.parent
    → parse_pid_token group ≡ some n.group
    → parse_unsigned_token user ≡ some n.user
    → parse_unsigned_token system ≡ some n.system
    → parse_stat pid (stat_line pre n.state parent group middle user system more)
      ≡ some (process_of pid n)
unfolding spaced
parse_stat_lem pid pre n parent group middle user system more h eight hp hg hu hs =
    let last = middle ++ user ∷ system ∷ more in
    let fields = (n.state ∷ []) ∷ parent ∷ group ∷ last in
    let clean = (spaced-HasNoParen fields h).1 in
    let half : StatFields = record {
      process = process_of pid (record n { user = 0; system = 0 });
      found_parent = true;
      found_group = true;
      found_user_ticks = false;
      found_system_ticks = false;
    } in
    let stored =
      store_fields-first pid n.state n.parent n.group parent group last hp hg
      ∙ store_fields-skip 6 middle (user ∷ system ∷ more) half (omega arith) (omega arith)
      ∙ ap (λ k. store_fields k (user ∷ system ∷ more) half) (omega arith)
      ∙ store_fields-last user system n.user n.system more half hu hs in
    parse_stat-behind pid pre _ clean
    ∙ ap (λ ws. check_found (store_fields 3 ws (no_fields pid)))
        (sym (tokens-space _) ∙ tokens-spaced fields h)
    ∙ ap check_found stored
    ∙ check_found-all (process_of pid n)
