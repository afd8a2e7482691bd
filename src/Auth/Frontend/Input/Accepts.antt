-- ===== src/Auth/Frontend/Input/Accepts.antt =====
-- Which lines are taken for an answer of the user, and what is stored.
use mathlib.Core.Bool.{false≢true}
use mathlib.Core.Option
use mathlib.Core.Option.{some_inj}
use st5039cmd.Base.{
  ℕ, zero, suc, ◌+◌, ◌≤◌, ◌<◌, ◌≡◌, ◌↔◌, refl, sym, ap, subst, ◌∙◌, Bool, true, false, List, [],
  ◌∷◌, ◌++◌, All, Option, none, some, length, length-append, ◌==◌, if◌then◌else◌, arith, Bool-cases,
  inl, inr,
}
use st5039cmd.Base.Stdio.{File, fgets, read_line, read_line-text}
use st5039cmd.Auth.Protocol.{auth_username_max}
use st5039cmd.Auth.Frontend.Input.{
  cut_newline, check_length, copy_string, accept_line, accept_input, read_username,
}

-- A byte that a string in a line can hold.
abbrev pub IsTyped : ℕ → Type 0
IsTyped c = ((c == 10) ≡ false) × ((c == 0) ≡ false)

-- Standard input begins with this line.
abbrev pub BeginsWith : List ℕ → List ℕ → Type 0
BeginsWith line bytes = All IsTyped line × (rest : List ℕ) × (bytes ≡ line ++ 10 ∷ rest)

none≢some : {x : List ℕ} → none ≡ some x → ⊥
none≢some e = cc

map-some :
    (f : List ℕ → List ℕ) (o : Option (List ℕ)) (y : List ℕ)
    → Option.map f o ≡ some y
    → (x : List ℕ) × (o ≡ some x) × (y ≡ f x)
map-some f none y e = absurd (none≢some e)
map-some f (some x) y e = (x, refl, sym (some_inj.0 e))

cut_newline-line :
    (line rest : List ℕ) → All IsTyped line → cut_newline (line ++ 10 ∷ rest) ≡ some line
unfolding cut_newline
cut_newline-line [] rest h = refl
cut_newline-line (c ∷ cs) rest h = rw (h.0.0, h.0.1, cut_newline-line cs rest h.1)

cut_newline-other :
    (c : ℕ) (cs : List ℕ)
    → (c == 10) ≡ false
    → cut_newline (c ∷ cs) ≡ (if c == 0 then none else Option.map (◌∷◌ c) (cut_newline cs))
unfolding cut_newline
cut_newline-other c cs h = rw h

read_line-newline :
    (room c : ℕ) (cs : List ℕ) → (c == 10) ≡ true → (read_line (suc room) (c ∷ cs)).0.text ≡ c ∷ []
unfolding read_line
read_line-newline room c cs h = rw h

read_line-other :
    (room c : ℕ) (cs : List ℕ)
    → (c == 10) ≡ false
    → (read_line (suc room) (c ∷ cs)).0.text ≡ c ∷ (read_line room cs).0.text
unfolding read_line
read_line-other room c cs h = rw h

cut_newline-newline : (c : ℕ) → (c == 10) ≡ true → cut_newline (c ∷ []) ≡ some []
unfolding cut_newline
cut_newline-newline c h = rw h

cut_newline-full : (bytes : List ℕ) → cut_newline (read_line 0 bytes).0.text ≡ none
unfolding cut_newline read_line
cut_newline-full bytes = refl

cut_newline-end : (room : ℕ) → cut_newline (read_line (suc room) []).0.text ≡ none
unfolding cut_newline read_line
cut_newline-end room = refl

-- What a line in the buffer says of standard input.
cut_newline-BeginsWith :
    (room : ℕ) (bytes line : List ℕ)
    → cut_newline (read_line room bytes).0.text ≡ some line
    → BeginsWith line bytes
cut_newline-BeginsWith zero bytes line e = absurd (none≢some (sym (cut_newline-full bytes) ∙ e))
cut_newline-BeginsWith (suc room) [] line e = absurd (none≢some (sym (cut_newline-end room) ∙ e))
cut_newline-BeginsWith (suc room) (c ∷ cs) line e = elim (Bool-cases (c == 10)) [
  | inl newline ↦
      let cut =
        ap cut_newline (read_line-newline room c cs newline) ∙ cut_newline-newline c newline in
      let empty : [] ≡ line = some_inj.0 (sym cut ∙ e) in
      subst (λ l. BeginsWith l (c ∷ cs)) empty (tt, cs, ap (λ x. x ∷ cs) (ground (arith, newline)))
  | inr other ↦
      let cut =
        ap cut_newline (read_line-other room c cs other)
        ∙ cut_newline-other c (read_line room cs).0.text other in
      elim (Bool-cases (c == 0)) [
        | inl nul ↦ absurd (none≢some (rw nul at (sym cut ∙ e)))
        | inr byte ↦
            let (more, found, same) =
              map-some (◌∷◌ c) (cut_newline (read_line room cs).0.text) line
                (rw byte at (sym cut ∙ e)) in
            let (typed, rest, there) = cut_newline-BeginsWith room cs more found in
            subst (λ l. BeginsWith l (c ∷ cs)) (sym same)
              (((other, byte), typed), rest, ap (◌∷◌ c) there)
      ]
]

typed-newline : (line : List ℕ) → All IsTyped line → All (λ c. (c == 10) ≡ false) line
typed-newline [] h = tt
typed-newline (c ∷ cs) h = (h.0.0, typed-newline cs h.1)

-- A buffer of `room` bytes and a NUL, and an array that a string of one byte less still fits.
module _ (room : ℕ) (array : List ℕ) (fits : length array ≡ room) where
  -- What the array becomes.
  abbrev pub Stores : File → List ℕ → Type 0
  Stores stdin stored =
      (line : List ℕ) × BeginsWith line stdin.bytes
      × (0 < length line)
      × (length line < room)
      × (stored ≡ copy_string line array)

  accept_line-Stores :
      (o : Option (List ℕ)) (stored : List ℕ)
      → accept_line array o ≡ some stored
      → (line : List ℕ) × (o ≡ some line)
        × (0 < length line)
        × (length line < room)
        × (stored ≡ copy_string line array)
  unfolding accept_line check_length
  accept_line-Stores none stored e = absurd (none≢some e)
  accept_line-Stores (some line) stored e =
      let (s, checked, same) =
        map-some (λ s. copy_string s array) (check_length (length array) line) stored e in
      let whole : s ≡ line = ground (arith, checked) in
      (
        line,
        refl,
        ground (arith, checked),
        ground (arith, checked, fits),
        same ∙ ap (λ t. copy_string t array) whole,
      )

  accept_line-takes :
      (line : List ℕ)
      → 0 < length line
      → length line < room
      → accept_line array (some line) ≡ some (copy_string line array)
  unfolding accept_line check_length
  accept_line-takes line given short = ground (arith, fits)

  fgets-text :
      (stdin : File) (input : List ℕ)
      → (fgets room stdin).0 ≡ some input
      → (read_line room stdin.bytes).0.text ≡ input
  unfolding fgets
  fgets-text stdin input e = ground (arith, e)

  fgets-line :
      (stdin : File) (line rest : List ℕ)
      → All IsTyped line
      → length line < room
      → stdin.bytes ≡ line ++ 10 ∷ rest
      → (fgets room stdin).0 ≡ some (line ++ 10 ∷ [])
  unfolding fgets
  fgets-line stdin line rest h short e =
      let got =
        ap (read_line room) e ∙ read_line-text room line rest (short, typed-newline line h) in
      let text : (read_line room stdin.bytes).0.text ≡ line ++ 10 ∷ [] = ap (λ r. r.0.text) got in
      let before : (read_line room stdin.bytes).0.at_end ≡ false = ap (λ r. r.0.at_end) got in
      rw (text, before) (ground (arith, length-append line (10 ∷ [])))

  accept_input-Stores :
      (stdin : File) (o : Option (List ℕ)) (stored : List ℕ)
      → (fgets room stdin).0 ≡ o
      → accept_input array o ≡ some stored
      → Stores stdin stored
  unfolding accept_input
  accept_input-Stores stdin none stored there e = absurd (none≢some e)
  accept_input-Stores stdin (some input) stored there e =
      let (line, cut, given, short, same) = accept_line-Stores (cut_newline input) stored e in
      let text = fgets-text stdin input there in
      (
        line,
        cut_newline-BeginsWith room stdin.bytes line (ap cut_newline text ∙ cut),
        given,
        short,
        same,
      )

  accept_input-takes :
      (stdin : File) (line rest : List ℕ)
      → All IsTyped line
      → stdin.bytes ≡ line ++ 10 ∷ rest
      → 0 < length line
      → length line < room
      → accept_input array (fgets room stdin).0 ≡ some (copy_string line array)
  unfolding accept_input
  accept_input-takes stdin line rest h there given short =
      ap (accept_input array) (fgets-line stdin line rest h short there)
      ∙ ap (accept_line array) (cut_newline-line line [] h)
      ∙ accept_line-takes line given short

  -- The array is filled exactly if standard input begins with a line that is neither empty nor too long
  -- and holds no NUL, and then with that line.
  pub accept_input_iff :
      (stdin : File) (stored : List ℕ)
      → (accept_input array (fgets room stdin).0 ≡ some stored) ↔ Stores stdin stored
  accept_input_iff stdin stored = (
    λ e. accept_input-Stores stdin (fgets room stdin).0 stored refl e,
    λ h.
        let (line, (typed, rest, there), given, short, same) = h in
        accept_input-takes stdin line rest typed there given short ∙ ap some (sym same),
  )

-- `read_username` succeeds exactly if no signal came and standard input begins with a name of 1 to 64
-- bytes and a newline; the array then holds the name and a NUL in front of what else it held.
pub read_username_iff :
    (interrupted : Bool) (username : List ℕ) (stdin : File) (stored : List ℕ)
    → length username ≡ auth_username_max + 1
    → ((read_username interrupted username stdin).0 ≡ some stored) ↔ (
        (interrupted ≡ false)
        × (line : List ℕ) × BeginsWith line stdin.bytes
        × (0 < length line)
        × (length line ≤ auth_username_max)
        × (stored ≡ copy_string line username))
unfolding read_username
read_username_iff true username stdin stored size =
    (λ e. absurd (none≢some e), λ h. absurd (false≢true (sym h.0)))
read_username_iff false username stdin stored size =
    let (only_if, if_so) = accept_input_iff 65 username size stdin stored in
    (
      λ e.
          let (line, there, given, short, same) = only_if e in
          (refl, line, there, given, omega (arith, short), same),
      λ h.
          let (free, line, there, given, short, same) = h in
          if_so (line, there, given, omega (arith, short), same),
    )
