-- ===== src/Sandbox/Logger/Lines.antt =====
-- What the streams hold, however the calls of the threads interleave.
use mathlib.Core.List.{append_assoc, append-nil}
use st5039cmd.Base.{
  ℕ, ◌+◌, ◌≡◌, refl, sym, ap, ◌∙◌, Bool, true, false, List, [], ◌∷◌, ◌++◌, Option, none, some, ◌==◌,
  if◌then◌else◌, arith,
}
use st5039cmd.Sandbox.Logger.{
  Stream, stdout, stderr, Call, beginning, Place, at_lock, at_message, at_newline, at_flush,
  at_unlock, returned, unlogged, Piece, part, complaint, System, move,
}

abbrev pub same_stream : Stream → Stream → Bool
same_stream stdout stdout = true
same_stream stdout stderr = false
same_stream stderr stdout = false
same_stream stderr stderr = true

-- A text on its stream, seen from stream `x`.
abbrev pub seen : Stream → Stream → List ℕ → List ℕ
seen x y text = if same_stream x y then text else []

abbrev pub piece_on : Stream → Piece → List ℕ
piece_on x (part y text) = seen x y text
piece_on x (complaint message) = []

-- What the calls have put on a stream, the complaints about the mutex aside.
unfoldable pub text_on : Stream → List Piece → List ℕ
text_on x [] = []
text_on x (p ∷ ps) = piece_on x p ++ text_on x ps

-- A whole line.
abbrev pub line_of : Call → List ℕ
line_of c = (beginning c ++ c.text) ++ 10 ∷ []

-- What a call that stands at this place has put there of a line that is not whole.
abbrev pub begun : Call → Place → List ℕ
begun c at_message = beginning c
begun c at_newline = beginning c ++ c.text
begun c p = []

-- Between `pthread_mutex_lock` and the return of `pthread_mutex_unlock`.
abbrev pub is_inside : Place → Bool
is_inside at_lock = false
is_inside returned = false
is_inside unlogged = false
is_inside p = true

abbrev pub has_written : Place → Bool
has_written at_flush = true
has_written at_unlock = true
has_written returned = true
has_written p = false

abbrev pub bit : Bool → ℕ
bit true = 1
bit false = 0

unfoldable pub times : ℕ → List ℕ → ℕ
times t [] = 0
times t (u ∷ us) = bit (t == u) + times t us

module _ (calls : ℕ → Call) where
  -- The lines of these calls on a stream, in this order.
  unfoldable pub lines_on : Stream → List ℕ → List ℕ
  lines_on x [] = []
  lines_on x (t ∷ ts) = seen x (calls t).stream (line_of (calls t)) ++ lines_on x ts

  -- The line that the call with the mutex has begun.
  abbrev pub open_line : Stream → (ℕ → Place) → Option ℕ → List ℕ
  open_line x place none = []
  open_line x place (some t) = seen x (calls t).stream (begun (calls t) (place t))

  -- One call at a time is inside; each call behind its newline has its line once, no other call has
  -- one; the streams hold these lines whole, and the one that is begun.
  pub record IsOrdered (s : System) : Type 0 where
    pub exclusive : (t : ℕ) → is_inside (s.place t) ≡ true → s.owner ≡ some t
    pub finished : List ℕ
    pub once : (t : ℕ) → times t finished ≡ bit (has_written (s.place t))
    pub whole :
        (x : Stream) → text_on x s.output ≡ lines_on x finished ++ open_line x s.place s.owner

pub move-same : (place : ℕ → Place) (t : ℕ) (p : Place) → move place t p t ≡ p
unfolding move
move-same place t p = ground arith

pub move-other :
    (place : ℕ → Place) (t : ℕ) (p : Place) (u : ℕ) → (u == t) ≡ false → move place t p u ≡ place u
unfolding move
move-other place t p u h = rw h

pub text_on-append :
    (x : Stream) (ps : List Piece) (p : Piece)
    → text_on x (ps ++ p ∷ []) ≡ text_on x ps ++ piece_on x p
unfolding text_on
text_on-append x [] p = append-nil (piece_on x p)
text_on-append x (q ∷ ps) p =
    ap (λ r. piece_on x q ++ r) (text_on-append x ps p)
    ∙ sym (append_assoc (piece_on x q) (text_on x ps) (piece_on x p))

pub times-append :
    (t : ℕ) (us : List ℕ) (u : ℕ) → times t (us ++ u ∷ []) ≡ times t us + bit (t == u)
unfolding times
times-append t [] u = omega arith
times-append t (v ∷ us) u = omega (arith, times-append t us u)

pub seen-append : (x y : Stream) (a b : List ℕ) → seen x y (a ++ b) ≡ seen x y a ++ seen x y b
seen-append stdout stdout a b = refl
seen-append stdout stderr a b = refl
seen-append stderr stdout a b = refl
seen-append stderr stderr a b = refl

pub seen-nil : (x y : Stream) → seen x y [] ≡ []
seen-nil stdout stdout = refl
seen-nil stdout stderr = refl
seen-nil stderr stdout = refl
seen-nil stderr stderr = refl

module _ (calls : ℕ → Call) where
  pub lines_on-append :
      (x : Stream) (ts : List ℕ) (t : ℕ)
      → lines_on calls x (ts ++ t ∷ [])
        ≡ lines_on calls x ts ++ seen x (calls t).stream (line_of (calls t))
  unfolding lines_on
  lines_on-append x [] t = append-nil (seen x (calls t).stream (line_of (calls t)))
  lines_on-append x (u ∷ ts) t =
      ap (λ r. seen x (calls u).stream (line_of (calls u)) ++ r) (lines_on-append x ts t)
      ∙ sym (
          append_assoc (seen x (calls u).stream (line_of (calls u))) (lines_on calls x ts)
            (seen x (calls t).stream (line_of (calls t))))
