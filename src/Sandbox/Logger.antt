-- ===== src/Sandbox/Logger.antt =====
-- Sandbox/logger.c: `logger_write` as the steps that threads interleave, and the three functions that
-- call it. A call is a number, whichever thread makes it; the text is what `vfprintf` makes of the
-- format and its arguments.
pub mod Lines
pub mod Ordered
pub mod Progress
pub mod Tests
use st5039cmd.Base.{
  ℕ, ◌≡◌, Bool, true, false, List, [], ◌∷◌, ◌++◌, Option, none, some, ◌==◌, if◌then◌else◌,
}
use st5039cmd.Base.CString.{codes}

pub data Stream : Type 0 where
  stdout stderr : Stream

-- The arguments of `logger_write`.
pub record Call : Type 0 where
  pub stream : Stream
  pub level : List ℕ
  pub text : List ℕ

pub logger_info : List ℕ → Call
logger_info text = record { stream = stdout; level = codes "INFO"; text = text }

pub logger_warn : List ℕ → Call
logger_warn text = record { stream = stderr; level = codes "WARN"; text = text }

pub logger_error : List ℕ → Call
logger_error text = record { stream = stderr; level = codes "ERROR"; text = text }

-- `fprintf(stream, "[sandbox][%s] ", level)`.
abbrev pub beginning : Call → List ℕ
beginning c = codes "[sandbox][" ++ (c.level ++ codes "] ")

-- The next call of the C library that `logger_write` makes; behind `returned` and `unlogged` it has
-- returned, with or without its line.
pub data Place : Type 0 where
  at_lock at_prefix at_message at_newline at_flush at_unlock returned unlogged : Place

-- What a stream is given: a part of a line, or a message on stderr that the mutex has failed.
pub data Piece : Type 0 where
  part : Stream → List ℕ → Piece
  complaint : List ℕ → Piece

-- `logger_mutex`, every call's place, and the output in its order.
pub record System : Type 0 where
  pub owner : Option ℕ
  pub place : ℕ → Place
  pub output : List Piece

unfoldable pub move : (ℕ → Place) → ℕ → Place → ℕ → Place
move place t p u = if u == t then p else place u

-- Call `t` has written to its stream.
abbrev pub write : System → ℕ → Piece → Place → System
write s t piece p = record s { place = move s.place t p; output = s.output ++ piece ∷ [] }

-- One call of the C library by one of the calls.
pub data Step (calls : ℕ → Call) : System → System → Type 0 where
  lock_fails :
      (s : System) (t : ℕ) (message : List ℕ)
      → s.place t ≡ at_lock
      → Step calls s (write s t (complaint message) unlogged)
  locks :
      (s : System) (t : ℕ)
      → s.place t ≡ at_lock
      → s.owner ≡ none
      → Step calls s (record s { owner = some t; place = move s.place t at_prefix })
  prefixes :
      (s : System) (t : ℕ)
      → s.place t ≡ at_prefix
      → Step calls s (write s t (part (calls t).stream (beginning (calls t))) at_message)
  prints :
      (s : System) (t : ℕ)
      → s.place t ≡ at_message
      → Step calls s (write s t (part (calls t).stream (calls t).text) at_newline)
  ends :
      (s : System) (t : ℕ)
      → s.place t ≡ at_newline
      → Step calls s (write s t (part (calls t).stream (10 ∷ [])) at_flush)
  flushes :
      (s : System) (t : ℕ)
      → s.place t ≡ at_flush
      → Step calls s (record s { place = move s.place t at_unlock })
  unlocks :
      (s : System) (t : ℕ)
      → s.place t ≡ at_unlock
      → Step calls s (record s { owner = none; place = move s.place t returned })
  unlock_fails :
      (s : System) (t : ℕ) (message : List ℕ)
      → s.place t ≡ at_unlock
      → Step calls s (write s t (complaint message) returned)

-- Nobody has called yet.
abbrev pub at_rest : System
at_rest = record { owner = none; place = λ t. at_lock; output = [] }

-- Any number of steps.
pub data Reaches (calls : ℕ → Call) : System → System → Type 0 where
  here : (s : System) → Reaches calls s s
  step : (s t u : System) → Reaches calls s t → Step calls t u → Reaches calls s u
