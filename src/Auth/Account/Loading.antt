-- ===== src/Auth/Account/Loading.antt =====
-- What a loaded account is, and which files are loaded.
use st5039cmd.Base.{
  ℕ, zero, suc, ◌-◌, ◌≤◌, ◌<◌, ◌≡◌, inl, inr, refl, ap, Bool, false, not, ◌||◌, List, [], ◌∷◌, ◌++◌,
  Option, none, some, length, take, replicate, All, ltb, ◌==◌, arith, Bool-cases, Option-cases,
}
use st5039cmd.Base.CString.{c_string, print_zeroed, length-print_zeroed}
use st5039cmd.Base.Stdio.{File, Line, file_lines}
use st5039cmd.Auth.Request.{DemoCredential, IsCredential}
use st5039cmd.Auth.Account.{
  is_break, before_break, is_ignored, has_colon, split_colon, accept_account, parse_account,
  is_too_long, load_lines, finish_loading, load_demo_credential,
}

abbrev pub HasNoNul : List ℕ → Type 0
HasNoNul = All (λ c. (c == 0) ≡ false)

c_string-HasNoNul : (xs : List ℕ) → HasNoNul (c_string xs)
unfolding c_string
c_string-HasNoNul [] = tt
c_string-HasNoNul (x ∷ xs) = elim (Bool-cases (x == 0)) [
  | inl nul ↦ rw nul tt
  | inr other ↦ rw other (other, c_string-HasNoNul xs)
]

before_break-HasNoNul : (xs : List ℕ) → HasNoNul xs → HasNoNul (before_break xs)
unfolding before_break
before_break-HasNoNul [] h = tt
before_break-HasNoNul (x ∷ xs) h = elim (Bool-cases (is_break x)) [
  | inl over ↦ rw over tt
  | inr on ↦ rw on (h.0, before_break-HasNoNul xs h.1)
]

pub c_string-ended : (xs ys : List ℕ) → HasNoNul xs → c_string (xs ++ 0 ∷ ys) ≡ xs
unfolding c_string
c_string-ended [] ys h = refl
c_string-ended (x ∷ xs) ys h = rw h.0 (ap (◌∷◌ x) (c_string-ended xs ys h.1))

take-all : (n : ℕ) (xs : List ℕ) → length xs ≤ n → take n xs ≡ xs
take-all zero [] h = refl
take-all zero (x ∷ xs) h = absurd (omega arith)
take-all (suc n) [] h = refl
take-all (suc n) (x ∷ xs) h = ap (◌∷◌ x) (take-all n xs (omega arith))

-- A string that fits its buffer is stored whole.
c_string-print_zeroed :
    (n : ℕ) (xs : List ℕ) → HasNoNul xs → length xs ≤ n → c_string (print_zeroed n xs) ≡ xs
unfolding print_zeroed
c_string-print_zeroed n xs h fits =
    let room : suc n - length xs ≡ suc (n - length xs) = omega arith in
    rw (take-all n xs fits, room) (c_string-ended xs (replicate (n - length xs) 0) h)

-- A pair of strings that hold no NUL.
abbrev pub BothClean : List ℕ × List ℕ → Type 0
BothClean (u, p) = HasNoNul u × HasNoNul p

abbrev pub AllClean : Option (List ℕ × List ℕ) → Type 0
AllClean none = Unit {0}
AllClean (some parts) = BothClean parts

split_colon-AllClean : (xs : List ℕ) → HasNoNul xs → AllClean (split_colon xs)
unfolding split_colon
split_colon-AllClean [] h = tt
split_colon-AllClean (x ∷ xs) h =
    let ih = split_colon-AllClean xs h.1 in
    elim (Bool-cases (x == b':')) [
      | inl colon ↦ rw colon (tt, h.1)
      | inr other ↦ rw other (elim (Option-cases (split_colon xs)) [
        | inl missing ↦ rw missing tt
        | inr ((u, p), found) ↦
            let clean : BothClean (u, p) = rw found at ih in rw found ((h.0, clean.0), clean.1)
      ])
    ]

-- What an accepted account is.
abbrev pub Sound : Option DemoCredential → Type 0
Sound none = Unit {0}
Sound (some c) = IsCredential c

accept_account-Sound :
    (parts : Option (List ℕ × List ℕ)) → AllClean parts → Sound (accept_account parts)
unfolding accept_account
accept_account-Sound none h = tt
accept_account-Sound (some (u, p)) h = elim (Bool-cases (has_colon p)) [
  | inl more ↦ rw more tt
  | inr free ↦
      rw free
        (elim (Bool-cases
          (length u == 0 || ltb 64 (length u) || length p == 0 || ltb 128 (length p))) [
            | inl bad ↦ rw bad tt
            | inr good ↦
                let (some_name, short_name, some_word, short_word) = in_bounds good in
                let name = c_string-print_zeroed 64 u h.0 short_name in
                let word = c_string-print_zeroed 128 p h.1 short_word in
                rw good (record {
                  username_size = length-print_zeroed 64 u;
                  password_size = length-print_zeroed 128 p;
                  username_given = rw name some_name;
                  password_given = rw word some_word;
                  username_ended = rw name short_name;
                  password_ended = rw word short_word;
                })
          ])
]
  where
    in_bounds :
        (length u == 0 || ltb 64 (length u) || length p == 0 || ltb 128 (length p)) ≡ false
        → (0 < length u) × (length u ≤ 64) × (0 < length p) × (length p ≤ 128)
    in_bounds good = ground (arith, good)

abbrev pub SoundFound : Option (Option DemoCredential) → Type 0
SoundFound none = Unit {0}
SoundFound (some found) = Sound found

parse_account-Sound : (text : List ℕ) → Sound (parse_account (before_break (c_string text)))
unfolding parse_account
parse_account-Sound text =
    let line = before_break (c_string text) in
    accept_account-Sound (split_colon line)
      (split_colon-AllClean line (before_break-HasNoNul (c_string text) (c_string-HasNoNul text)))

load_lines-Sound :
    (ls : List Line) (found : Option DemoCredential)
    → Sound found
    → SoundFound (load_lines ls found)
unfolding load_lines
load_lines-Sound [] found h = h
load_lines-Sound (l ∷ ls) found h =
    let line = before_break (c_string l.text) in
    elim (Bool-cases (is_too_long l)) [
      | inl long ↦ rw (long, load_lines) tt
      | inr fits ↦ elim (Bool-cases (is_ignored line)) [
        | inl skip ↦ rw (fits, skip, load_lines) (load_lines-Sound ls found h)
        | inr used ↦ elim (Option-cases found) [
          | inr (c, again) ↦ rw (fits, used, again, load_lines) tt
          | inl fresh ↦ elim (Option-cases (parse_account line)) [
            | inl bad ↦ rw (fits, used, fresh, bad, load_lines) tt
            | inr (c, good) ↦
                let sound : Sound (some c) = rw good at (parse_account-Sound l.text) in
                rw (fits, used, fresh, good, load_lines) (load_lines-Sound ls (some c) sound)
          ]
        ]
      ]
    ]

finish_loading-Sound :
    (failed closes : Bool) (r : Option (Option DemoCredential))
    → SoundFound r
    → Sound (finish_loading failed closes r)
unfolding finish_loading
finish_loading-Sound failed closes none h = tt
finish_loading-Sound failed closes (some found) h = elim (Bool-cases (failed || not closes)) [
  | inl bad ↦ rw bad tt
  | inr good ↦ rw good h
]

-- Whatever the file holds, an account that is loaded consists of two NUL-terminated strings in
-- buffers of their declared sizes, neither empty nor longer than its maximum.
pub load_demo_credential-IsCredential :
    (file : Option File) (closes : Bool) (c : DemoCredential)
    → load_demo_credential file closes ≡ some c
    → IsCredential c
unfolding load_demo_credential
load_demo_credential-IsCredential none closes c e = cc
load_demo_credential-IsCredential (some file) closes c e =
    let sound =
      finish_loading-Sound file.fails closes _ (load_lines-Sound (file_lines 195 file) none tt) in
    let given : Sound (some c) = rw e at sound in given
