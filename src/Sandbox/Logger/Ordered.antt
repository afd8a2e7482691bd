-- ===== src/Sandbox/Logger/Ordered.antt =====
-- Every step keeps the lines whole.
use mathlib.Core.List.{append_assoc, append-nil}
use mathlib.Core.Bool.{false≢true}
use mathlib.Core.Option.{some_inj}
use st5039cmd.Base.{
  ℕ, ◌≡◌, ◌≢◌, refl, sym, ap, subst, ◌∙◌, true, false, List, [], ◌∷◌, ◌++◌, Option, none, some,
  ◌==◌, arith, Bool-cases, inl, inr,
}
use st5039cmd.Sandbox.Logger.{
  Stream, Call, beginning, Place, at_lock, at_prefix, at_message, at_newline, at_flush, at_unlock,
  returned, unlogged, Piece, part, complaint, System, move, write, Step, lock_fails, locks,
  prefixes, prints, ends, flushes, unlocks, unlock_fails, at_rest, Reaches, here, step,
}
use st5039cmd.Sandbox.Logger.Lines.{
  seen, text_on, begun, is_inside, has_written, bit, times, lines_on, open_line, IsOrdered,
  move-same, move-other, text_on-append, times-append, seen-append, seen-nil, lines_on-append,
}

equal : (u t : ℕ) → (u == t) ≡ true → t ≡ u
equal u t h = ground (arith, h)

not_itself : (u t : ℕ) → (u == t) ≡ false → u ≢ t
not_itself u t h = ground (arith, h)

module _ (place : ℕ → Place) (t : ℕ) (q : Place) where
  -- A property of the moved places, from the place of `t` and those of the others.
  by_move :
      (P : ℕ → Place → Type 0)
      → P t q
      → ((u : ℕ) → (u == t) ≡ false → P u (place u))
      → (u : ℕ) → P u (move place t q u)
  by_move P there others u = elim (Bool-cases (u == t)) [
    | inl same ↦
        subst (λ v. P v (move place t q v)) (equal u t same)
          (subst (P t) (sym (move-same place t q)) there)
    | inr other ↦ subst (P u) (sym (move-other place t q u other)) (others u other)
  ]

module _ (calls : ℕ → Call) where
  -- What the one line of the call with the mutex becomes.
  open-moved :
      (x : Stream) (place : ℕ → Place) (t : ℕ) (q : Place)
      → open_line calls x (move place t q) (some t) ≡ seen x (calls t).stream (begun (calls t) q)
  open-moved x place t q =
      ap (λ p. seen x (calls t).stream (begun (calls t) p)) (move-same place t q)

  open-at :
      (x : Stream) (s : System) (t : ℕ) (p : Place)
      → s.place t ≡ p
      → s.owner ≡ some t
      → open_line calls x s.place s.owner ≡ seen x (calls t).stream (begun (calls t) p)
  open-at x s t p e o =
      ap (open_line calls x s.place) o ∙ ap (λ p. seen x (calls t).stream (begun (calls t) p)) e

  open-kept :
      (x : Stream) (place : ℕ → Place) (t : ℕ) (q : Place) (o : Option ℕ)
      → begun (calls t) (place t) ≡ begun (calls t) q
      → open_line calls x (move place t q) o ≡ open_line calls x place o
  open-kept x place t q none h = refl
  open-kept x place t q (some u) h =
      by_move place t q
        (λ v p.
          seen x (calls v).stream (begun (calls v) p)
          ≡ seen x (calls v).stream (begun (calls v) (place v)))
        (ap (seen x (calls t).stream) (sym h)) (λ v other. refl) u

  once-kept :
      (place : ℕ → Place) (t : ℕ) (q : Place) (finished : List ℕ)
      → has_written (place t) ≡ has_written q
      → ((u : ℕ) → times u finished ≡ bit (has_written (place u)))
      → (u : ℕ) → times u finished ≡ bit (has_written (move place t q u))
  once-kept place t q finished h once =
      by_move place t q (λ u p. times u finished ≡ bit (has_written p)) (once t ∙ ap bit h)
        (λ u other. once u)

  -- A step in which no line begins, grows or ends.
  kept-IsOrdered :
      (s : System) (t : ℕ) (p q : Place) (output : List Piece)
      → IsOrdered calls s
      → s.place t ≡ p
      → (is_inside q ≡ true → is_inside p ≡ true)
      → has_written p ≡ has_written q
      → begun (calls t) p ≡ begun (calls t) q
      → ((x : Stream) → text_on x output ≡ text_on x s.output)
      → IsOrdered calls (record s { place = move s.place t q; output = output })
  kept-IsOrdered s t p q output v e inside written part_same text = record {
    exclusive =
        by_move s.place t q (λ u r. is_inside r ≡ true → s.owner ≡ some u)
          (λ h. v.exclusive t (ap is_inside e ∙ inside h)) (λ u other. v.exclusive u);
    finished = v.finished;
    once = once-kept s.place t q v.finished (ap has_written e ∙ written) v.once;
    whole = λ x.
        text x
        ∙ v.whole x
        ∙ ap (λ r. lines_on calls x v.finished ++ r)
            (sym (open-kept x s.place t q s.owner (ap (begun (calls t)) e ∙ part_same)));
  }

  -- A step in which the call with the mutex goes on with its line.
  extended-IsOrdered :
      (s : System) (t : ℕ) (p q : Place) (bytes : List ℕ)
      → IsOrdered calls s
      → s.place t ≡ p
      → is_inside p ≡ true
      → has_written p ≡ has_written q
      → begun (calls t) q ≡ begun (calls t) p ++ bytes
      → IsOrdered calls (write s t (part (calls t).stream bytes) q)
  extended-IsOrdered s t p q bytes v e inside written grown =
      let y = (calls t).stream in
      let owner = v.exclusive t (ap is_inside e ∙ inside) in
      record {
        exclusive =
            by_move s.place t q (λ u r. is_inside r ≡ true → s.owner ≡ some u) (λ h. owner)
              (λ u other. v.exclusive u);
        finished = v.finished;
        once = once-kept s.place t q v.finished (ap has_written e ∙ written) v.once;
        whole = λ x.
            let lines = lines_on calls x v.finished in
            text_on-append x s.output (part y bytes)
            ∙ ap (λ r. r ++ seen x y bytes)
                (v.whole x ∙ ap (λ r. lines ++ r) (open-at x s t p e owner))
            ∙ append_assoc lines (seen x y (begun (calls t) p)) (seen x y bytes)
            ∙ ap (λ r. lines ++ r)
                (sym (seen-append x y (begun (calls t) p) bytes)
                  ∙ ap (seen x y) (sym grown)
                  ∙ sym (open-moved x s.place t q)
                  ∙ ap (open_line calls x (move s.place t q)) (sym owner));
      }

  -- The newline: the line joins the others.
  ended-IsOrdered :
      (s : System) (t : ℕ)
      → IsOrdered calls s
      → s.place t ≡ at_newline
      → IsOrdered calls (write s t (part (calls t).stream (10 ∷ [])) at_flush)
  ended-IsOrdered s t v e =
      let c = calls t in
      let owner = v.exclusive t (ap is_inside e) in
      record {
        exclusive =
            by_move s.place t at_flush (λ u r. is_inside r ≡ true → s.owner ≡ some u) (λ h. owner)
              (λ u other. v.exclusive u);
        finished = v.finished ++ t ∷ [];
        once =
            by_move s.place t at_flush (λ u r. times u (v.finished ++ t ∷ []) ≡ bit (has_written r))
              (times-append t v.finished t
                ∙ (let before = v.once t ∙ ap (λ p. bit (has_written p)) e in
                    ground (arith, before)))
              (λ u other.
                times-append u v.finished t
                ∙ (let rest = v.once u in
                    let none_more : bit (u == t) ≡ 0 = ap bit other in
                    omega (arith, rest, none_more)));
        whole = λ x.
            let lines = lines_on calls x v.finished in
            text_on-append x s.output (part c.stream (10 ∷ []))
            ∙ ap (λ r. r ++ seen x c.stream (10 ∷ []))
                (v.whole x ∙ ap (λ r. lines ++ r) (open-at x s t at_newline e owner))
            ∙ append_assoc lines (seen x c.stream (beginning c ++ c.text))
                (seen x c.stream (10 ∷ []))
            ∙ ap (λ r. lines ++ r) (sym (seen-append x c.stream (beginning c ++ c.text) (10 ∷ [])))
            ∙ sym (lines_on-append calls x v.finished t)
            ∙ sym (append-nil (lines_on calls x (v.finished ++ t ∷ [])))
            ∙ ap (λ r. lines_on calls x (v.finished ++ t ∷ []) ++ r)
                (sym (seen-nil x c.stream)
                  ∙ sym (open-moved x s.place t at_flush)
                  ∙ ap (open_line calls x (move s.place t at_flush)) (sym owner));
      }

  locked-IsOrdered :
      (s : System) (t : ℕ)
      → IsOrdered calls s
      → s.place t ≡ at_lock
      → s.owner ≡ none
      → IsOrdered calls (record s { owner = some t; place = move s.place t at_prefix })
  locked-IsOrdered s t v e free = record {
    exclusive =
        by_move s.place t at_prefix (λ u r. is_inside r ≡ true → some t ≡ some u) (λ h. refl)
          (λ u other h. absurd (none≢some (sym free ∙ v.exclusive u h)));
    finished = v.finished;
    once = once-kept s.place t at_prefix v.finished (ap has_written e) v.once;
    whole = λ x.
        v.whole x
        ∙ ap (λ r. lines_on calls x v.finished ++ r)
            (ap (open_line calls x s.place) free
              ∙ sym (seen-nil x (calls t).stream)
              ∙ sym (open-moved x s.place t at_prefix));
  }
    where
      none≢some : {u : ℕ} → none ≡ some u → ⊥
      none≢some h = cc

  unlocked-IsOrdered :
      (s : System) (t : ℕ)
      → IsOrdered calls s
      → s.place t ≡ at_unlock
      → IsOrdered calls (record s { owner = none; place = move s.place t returned })
  unlocked-IsOrdered s t v e =
      let owner = v.exclusive t (ap is_inside e) in
      record {
        exclusive =
            by_move s.place t returned (λ u r. is_inside r ≡ true → none ≡ some u)
              (λ h. absurd (false≢true h))
              (λ u other h.
                absurd (not_itself u t other (sym (some_inj.0 (sym owner ∙ v.exclusive u h)))));
        finished = v.finished;
        once = once-kept s.place t returned v.finished (ap has_written e) v.once;
        whole = λ x.
            v.whole x
            ∙ ap (λ r. lines_on calls x v.finished ++ r)
                (open-at x s t at_unlock e owner ∙ seen-nil x (calls t).stream);
      }

  complaint_unseen :
      (s : System) (message : List ℕ) (x : Stream)
      → text_on x (s.output ++ complaint message ∷ []) ≡ text_on x s.output
  complaint_unseen s message x =
      text_on-append x s.output (complaint message) ∙ append-nil (text_on x s.output)

  Step-IsOrdered : (s u : System) → IsOrdered calls s → Step calls s u → IsOrdered calls u
  Step-IsOrdered s _ v (lock_fails _ t message e) =
      kept-IsOrdered s t at_lock unlogged (s.output ++ complaint message ∷ []) v e
        (λ h. absurd (false≢true h)) refl refl (complaint_unseen s message)
  Step-IsOrdered s _ v (locks _ t e free) = locked-IsOrdered s t v e free
  Step-IsOrdered s _ v (prefixes _ t e) =
      extended-IsOrdered s t at_prefix at_message (beginning (calls t)) v e refl refl refl
  Step-IsOrdered s _ v (prints _ t e) =
      extended-IsOrdered s t at_message at_newline (calls t).text v e refl refl refl
  Step-IsOrdered s _ v (ends _ t e) = ended-IsOrdered s t v e
  Step-IsOrdered s _ v (flushes _ t e) =
      kept-IsOrdered s t at_flush at_unlock s.output v e (λ h. refl) refl refl (λ x. refl)
  Step-IsOrdered s _ v (unlocks _ t e) = unlocked-IsOrdered s t v e
  Step-IsOrdered s _ v (unlock_fails _ t message e) =
      kept-IsOrdered s t at_unlock returned (s.output ++ complaint message ∷ []) v e
        (λ h. absurd (false≢true h)) refl refl (complaint_unseen s message)

  at_rest-IsOrdered : IsOrdered calls at_rest
  unfolding times text_on lines_on
  at_rest-IsOrdered = record {
    exclusive = λ t h. absurd (false≢true h);
    finished = [];
    once = λ t. refl;
    whole = λ x. refl;
  }

  -- However the threads interleave, and whichever calls for the mutex fail: at most one call at a time
  -- is between lock and unlock. The messages about a failed mutex aside, each stream holds whole lines,
  -- one for each call that has written its newline, and behind them at most what the call with the
  -- mutex has begun of its own.
  pub reached-IsOrdered : (s : System) → Reaches calls at_rest s → IsOrdered calls s
  reached-IsOrdered _ (here _) = at_rest-IsOrdered
  reached-IsOrdered u (step _ t _ before last) =
      Step-IsOrdered t u (reached-IsOrdered t before) last
