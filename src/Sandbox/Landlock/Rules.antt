-- ===== src/Sandbox/Landlock/Rules.antt =====
-- What a ruleset that is enforced consists of.
use st5039cmd.Base.{
  ℕ, bit_or, leb, arith, Bool, false, subst, ◌≤◌, ◌⊎◌, ◌≡◌, refl, sym, ap, ◌∙◌, true, not, ◌&&◌,
  ◌||◌, List, [], ◌∷◌, All, Option, none, some, ltb, if◌then◌else◌, Bool-cases, inl, inr,
}
use mathlib.Core.Option.{some_inj}
use st5039cmd.Base.CString.{codes}
use st5039cmd.Sandbox.Landlock.{
  Rights, Rule, LandlockAnswers, Enforced, handled_access, landlock_rules, resolve_target_directory,
  prepend_rule, add_rules, enforce_rules, restrict_below, sandbox_child_restrict_filesystem,
}

-- The rules whose path can be opened.
unfoldable pub openable : LandlockAnswers → List Rule → List Rule
openable a [] = []
openable a (rule ∷ rules) =
    let rest = openable a rules in if a.opens rule.path then rule ∷ rest else rest

abbrev pub all_of : List ℕ → ℕ
all_of [] = 0
all_of (r ∷ []) = r
all_of (r ∷ s ∷ rs) = bit_or r (all_of (s ∷ rs))

-- The rights of the kernel's interface up to version 3: the first version's, REFER from the second on,
-- TRUNCATE from the third on.
abbrev pub IsHandled : Rights → (abi handled : ℕ) → Type 0
IsHandled r abi handled =
    let first =
      all_of (r.execute ∷ r.write_file ∷ r.read_file ∷ r.read_dir ∷ r.change_entries ∷ []) in
    ((abi ≡ 1) × (handled ≡ first))
    ⊎ ((abi ≡ 2) × (handled ≡ bit_or first r.refer))
    ⊎ ((3 ≤ abi) × (handled ≡ bit_or (bit_or first r.refer) r.truncate))

handled_access-IsHandled :
    (r : Rights) (abi : ℕ) → ltb abi 1 ≡ false → IsHandled r abi (handled_access r abi)
unfolding handled_access
handled_access-IsHandled r abi h = elim (Bool-cases (leb 3 abi)) [
  | inl third ↦
      let second : leb 2 abi ≡ true = ground (arith, third) in
      inr (inr (ground (arith, third), rw (third, second) refl))
  | inr below ↦ elim (Bool-cases (leb 2 abi)) [
    | inl second ↦ inr (inl (ground (arith, below, second), rw (below, second) refl))
    | inr first ↦ inl (ground (arith, h, first), rw (below, first) refl)
  ]
]

-- A rule that was needed could be opened.
abbrev pub IsOpened : LandlockAnswers → Rule → Type 0
IsOpened a rule = rule.required ≡ true → a.opens rule.path ≡ true

none≢some : {A : Type 0} {x : A} → none ≡ some x → ⊥
none≢some e = cc

prepend-some :
    (rule : Rule) (o : Option (List Rule)) (rules : List Rule)
    → prepend_rule rule o ≡ some rules
    → (rest : List Rule) × (o ≡ some rest) × (rules ≡ rule ∷ rest)
unfolding prepend_rule
prepend-some rule none rules e = absurd (none≢some e)
prepend-some rule (some rest) rules e = (rest, refl, sym (some_inj.0 e))

add_rules-openable :
    (a : LandlockAnswers) (rules added : List Rule)
    → add_rules a rules ≡ some added
    → (added ≡ openable a rules) × All (IsOpened a) rules
unfolding add_rules openable
add_rules-openable a [] added e = (sym (some_inj.0 e), tt)
add_rules-openable a (rule ∷ rules) added e = elim (Bool-cases (a.opens rule.path)) [
  | inl opens ↦ elim (Bool-cases (a.adds rule.path)) [
    | inl adds ↦
        let (rest, there, same) =
          prepend-some rule (add_rules a rules) added (rw (opens, adds) at e) in
        let (left, all) = add_rules-openable a rules rest there in
        (same ∙ ap (◌∷◌ rule) left ∙ sym (rw opens), ((λ _. opens), all))
    | inr fails ↦ absurd (none≢some (rw (opens, fails) at e))
  ]
  | inr closed ↦ elim (Bool-cases rule.required) [
    | inl needed ↦ absurd (none≢some (rw (closed, needed) at e))
    | inr optional ↦
        let (left, all) = add_rules-openable a rules added (rw (closed, optional) at e) in
        (left ∙ sym (rw closed), ((λ h. absurd (cc)), all))
  ]
]

enforce_rules-some :
    (a : LandlockAnswers) (handled : ℕ) (o : Option (List Rule)) (e : Enforced)
    → enforce_rules a handled o ≡ some e
    → (o ≡ some e.rules) × (e.handled_access_fs ≡ handled)
unfolding enforce_rules
enforce_rules-some a handled none e h = absurd (none≢some h)
enforce_rules-some a handled (some rules) e h =
    elim (Bool-cases (a.no_new_privileges && a.restricts && a.closes)) [
      | inl done ↦
          let same = some_inj.0 (rw done at h) in
          (ap (λ x. some x.rules) same, sym (ap (λ x. x.handled_access_fs) same))
      | inr failed ↦ absurd (none≢some (rw failed at h))
    ]

-- What is enforced for a target in a directory.
abbrev IsRuleset : Rights → LandlockAnswers → (target_path directory : List ℕ) → Enforced → Type 0
IsRuleset r a target_path directory e =
    IsHandled r a.abi e.handled_access_fs
    × (e.rules ≡ openable a (landlock_rules r target_path directory))
    × All (IsOpened a) (landlock_rules r target_path directory)

or_left : (a b : Bool) → (a || b) ≡ false → a ≡ false
or_left a b h = ground (arith, h)

restrict_below-some :
    (r : Rights) (a : LandlockAnswers) (target_path : List ℕ) (o : Option (List ℕ)) (e : Enforced)
    → restrict_below r a target_path o ≡ some e
    → (directory : List ℕ) × (o ≡ some directory) × IsRuleset r a target_path directory e
unfolding restrict_below
restrict_below-some r a target_path none e h = absurd (none≢some h)
restrict_below-some r a target_path (some directory) e h =
    elim (Bool-cases (ltb a.abi 1 || not a.creates)) [
      | inl missing ↦ absurd (none≢some (rw missing at h))
      | inr there ↦
          let rules = landlock_rules r target_path directory in
          let (added, handled) =
            enforce_rules-some a (handled_access r a.abi) (add_rules a rules) e (rw there at h) in
          let (same, all) = add_rules-openable a rules e.rules added in
          (
            directory,
            refl,
            (
              subst (IsHandled r a.abi) (sym handled)
                  (handled_access-IsHandled r a.abi (or_left (ltb a.abi 1) (not a.creates) there)),
              same,
              all,
            ),
          )
    ]

-- When the filesystem is restricted, the ruleset handles the rights of the first version of the kernel's
-- interface, REFER from version 2 and TRUNCATE from version 3 on, and nothing else; and its rules are exactly those of the list whose paths can be opened; the target, its directory and
-- /usr could be.
pub sandbox_child_restrict_filesystem_lem :
    (capacity : ℕ) (r : Rights) (a : LandlockAnswers) (target_path : List ℕ) (e : Enforced)
    → sandbox_child_restrict_filesystem capacity r a target_path ≡ some e
    → (directory : List ℕ) × (resolve_target_directory capacity a.realpath ≡ some directory)
      × IsHandled r a.abi e.handled_access_fs
      × (e.rules ≡ openable a (landlock_rules r target_path directory))
      × (a.opens target_path ≡ true)
      × (a.opens directory ≡ true)
      × (a.opens (codes "/usr") ≡ true)
unfolding sandbox_child_restrict_filesystem
sandbox_child_restrict_filesystem_lem capacity r a target_path e h =
    let (directory, there, (handled, same, all)) =
      restrict_below-some r a target_path (resolve_target_directory capacity a.realpath) e h in
    (directory, there, handled, same, all.0 refl, all.1.0 refl, all.1.1.0 refl)
