-- ===== src/Sandbox/Logger/Progress.antt =====
-- A call that finds the mutex free.
use st5039cmd.Base.{ℕ, ◌≡◌, [], ◌∷◌, none, some}
use st5039cmd.Sandbox.Logger.{
  Call, beginning, at_lock, at_prefix, at_message, at_newline, at_flush, at_unlock, returned, part,
  System, move, write, locks, prefixes, prints, ends, flushes, unlocks, Reaches, here, step,
}
use st5039cmd.Sandbox.Logger.Lines.{move-same}

module _ (calls : ℕ → Call) (s : System) (t : ℕ) (free : s.owner ≡ none)
    (there : s.place t ≡ at_lock) where
  abbrev with_lock : System
  with_lock = record s { owner = some t; place = move s.place t at_prefix }

  abbrev with_prefix : System
  with_prefix = write with_lock t (part (calls t).stream (beginning (calls t))) at_message

  abbrev with_text : System
  with_text = write with_prefix t (part (calls t).stream (calls t).text) at_newline

  abbrev with_newline : System
  with_newline = write with_text t (part (calls t).stream (10 ∷ [])) at_flush

  abbrev flushed : System
  flushed = record with_newline { place = move with_newline.place t at_unlock }

  abbrev pub logged : System
  logged = record flushed { owner = none; place = move flushed.place t returned }

  -- A call that finds the mutex free can write its line, give the mutex back and return.
  pub logger_write-reaches : Reaches calls s logged
  logger_write-reaches =
      step s flushed logged
        (step s with_newline flushed
          (step s with_text with_newline
            (step s with_prefix with_text
              (step s with_lock with_prefix (step s s with_lock (here s) (locks s t there free))
                (prefixes with_lock t (move-same s.place t at_prefix)))
              (prints with_prefix t (move-same with_lock.place t at_message)))
            (ends with_text t (move-same with_prefix.place t at_newline)))
          (flushes with_newline t (move-same with_text.place t at_flush)))
        (unlocks flushed t (move-same with_newline.place t at_unlock))
