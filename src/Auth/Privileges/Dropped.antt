-- ===== src/Auth/Privileges/Dropped.antt =====
-- What a successful drop of privileges leaves.
use mathlib.Core.Bool.{false≢true}
use st5039cmd.Base.{
  ℕ, ◌≡◌, ◌≢◌, ◌⊎◌, refl, sym, ap, subst, ◌∙◌, Bool, true, false, List, [], Option, none, some,
  ◌==◌, arith, Bool-cases, inl, inr,
}
use st5039cmd.Auth.Privileges.{
  Ids, SetAnswer, id_set, not_permitted, id_error, System, are_all, check_regained, check_ids,
  after_user, after_group, after_groups, drop_privileges_permanently,
}

-- One id in all three places.
abbrev pub all_ids : ℕ → Ids
all_ids n = record { real = n; effective = n; saved = n }

-- The ids and groups in the kernel's state, and what the manual pages say of the calls: `geteuid` and
-- `getresuid` read the ids; `setgroups`, `setresgid` and `setresuid` change only what they name, the
-- first two to what they were given; a refused `seteuid` changes nothing.
pub record IsSystem {S : Type 0} (k : System S) : Type 0 where
  pub users : S → Ids
  pub groups : S → Ids
  pub supplementary : S → List ℕ
  pub geteuid_reads : (s : S) → k.geteuid s ≡ (users s).effective
  pub setgroups_clears : (s s' : S) → k.setgroups s ≡ (true, s') → supplementary s' ≡ []
  pub setresgid_sets :
      (gid : ℕ) (s s' : S)
      → k.setresgid gid s ≡ (true, s')
      → (groups s' ≡ all_ids gid) × (supplementary s' ≡ supplementary s)
  pub setresuid_keeps :
      (uid : ℕ) (s s' : S)
      → k.setresuid uid s ≡ (true, s')
      → (groups s' ≡ groups s) × (supplementary s' ≡ supplementary s)
  pub getresuid_reads : (s : S) (ids : Ids) → k.getresuid s ≡ some ids → ids ≡ users s
  pub seteuid_refused : (uid : ℕ) (s s' : S) → k.seteuid uid s ≡ (not_permitted, s') → s' ≡ s

module _ {S : Type 0} (k : System S) (law : IsSystem k) where
  -- The state holds the user ids, and the way back to root is refused.
  abbrev IsBarred : ℕ → S → Type 0
  IsBarred uid s = (law.users s ≡ all_ids uid) × ((k.seteuid 0 s).0 ≡ not_permitted)

  are_all-all_ids : (uid : ℕ) (ids : Ids) → are_all uid ids ≡ true → ids ≡ all_ids uid
  unfolding are_all
  are_all-all_ids uid ids h =
      let record { real = r; effective = e; saved = s } = ids in
      let r_is : r ≡ uid = ground (arith, h) in
      let e_is : e ≡ uid = ground (arith, h) in let s_is : s ≡ uid = ground (arith, h) in cc

  regained-IsBarred :
      (uid : ℕ) (s : S) (a : SetAnswer) (t s' : S)
      → k.seteuid 0 s ≡ (a, t)
      → check_regained k uid (a, t) ≡ (true, s')
      → (s' ≡ s) × ((k.seteuid 0 s).0 ≡ not_permitted)
  unfolding check_regained
  regained-IsBarred uid s id_set t s' e h = absurd (false≢true (ap (λ r. r.0) h))
  regained-IsBarred uid s id_error t s' e h = absurd (false≢true (ap (λ r. r.0) h))
  regained-IsBarred uid s not_permitted t s' e h =
      (sym (ap (λ r. r.1) h) ∙ law.seteuid_refused 0 s t e, ap (λ r. r.0) e)

  check_ids-IsBarred :
      (uid : ℕ) (o : Option Ids) (s s' : S)
      → k.getresuid s ≡ o
      → check_ids k uid o s ≡ (true, s')
      → (s' ≡ s) × IsBarred uid s
  unfolding check_ids
  check_ids-IsBarred uid none s s' e h = absurd (false≢true (ap (λ r. r.0) h))
  check_ids-IsBarred uid (some ids) s s' e h = elim (Bool-cases (are_all uid ids)) [
    | inr other ↦ absurd (false≢true (ap (λ r. r.0) (rw other at h)))
    | inl all ↦
        let (a, t) = k.seteuid 0 s in
        let (same, refused) = regained-IsBarred uid s a t s' refl (rw all at h) in
        (same, (sym (law.getresuid_reads s ids e) ∙ are_all-all_ids uid ids all, refused))
  ]

  after_user-IsBarred :
      (uid : ℕ) (b : Bool) (s s' : S)
      → after_user k uid (b, s) ≡ (true, s')
      → (b ≡ true) × (s' ≡ s) × IsBarred uid s
  unfolding after_user
  after_user-IsBarred uid false s s' h = absurd (false≢true (ap (λ r. r.0) h))
  after_user-IsBarred uid true s s' h =
      let (same, barred) = check_ids-IsBarred uid (k.getresuid s) s s' refl h in
      (refl, same, barred)

  after_group-IsBarred :
      (uid : ℕ) (b : Bool) (s s' : S)
      → after_group k uid (b, s) ≡ (true, s')
      → (b ≡ true)
        × (law.groups s' ≡ law.groups s)
        × (law.supplementary s' ≡ law.supplementary s)
        × IsBarred uid s'
  unfolding after_group
  after_group-IsBarred uid false s s' h = absurd (false≢true (ap (λ r. r.0) h))
  after_group-IsBarred uid true s s' h =
      let (b, t) = k.setresuid uid s in
      let (done, same, barred) = after_user-IsBarred uid b t s' h in
      let (kept, held) = law.setresuid_keeps uid s s' (λ i. (done i, sym same i)) in
      (refl, kept, held, subst (IsBarred uid) (sym same) barred)

  -- What holds behind the calls for the groups.
  abbrev Dropped : (uid gid : ℕ) → S → Type 0
  Dropped uid gid s =
      (law.users s ≡ all_ids uid)
      × (law.groups s ≡ all_ids gid)
      × ((k.seteuid 0 s).0 ≡ not_permitted)

  after_groups-Dropped :
      (uid gid : ℕ) (b : Bool) (s s' : S)
      → after_groups k uid gid (b, s) ≡ (true, s')
      → (b ≡ true) × (law.supplementary s' ≡ law.supplementary s) × Dropped uid gid s'
  unfolding after_groups
  after_groups-Dropped uid gid false s s' h = absurd (false≢true (ap (λ r. r.0) h))
  after_groups-Dropped uid gid true s s' h =
      let (b, t) = k.setresgid gid s in
      let (done, kept, held, (users, refused)) = after_group-IsBarred uid b t s' h in
      let (given, other) = law.setresgid_sets gid s t (λ i. (done i, t)) in
      (refl, held ∙ other, (users, kept ∙ given, refused))

  -- When the drop succeeds, the target was not root, all three user ids and all three group ids are the
  -- target's, a process that was root has no supplementary groups, and the kernel refuses the way back
  -- to root as not permitted.
  pub drop_privileges_permanently_sound :
      (uid gid : ℕ) (s s' : S)
      → drop_privileges_permanently k uid gid s ≡ (true, s')
      → (uid ≢ 0)
        × (law.users s' ≡ all_ids uid)
        × (law.groups s' ≡ all_ids gid)
        × (((law.users s).effective ≢ 0) ⊎ (law.supplementary s' ≡ []))
        × ((k.seteuid 0 s').0 ≡ not_permitted)
  unfolding drop_privileges_permanently
  drop_privileges_permanently_sound uid gid s s' h = elim (Bool-cases (uid == 0)) [
    | inl root ↦ absurd (false≢true (ap (λ r. r.0) (rw root at h)))
    | inr user ↦ elim (Bool-cases (k.geteuid s == 0)) [
      | inl was_root ↦
          let (b, t) = k.setgroups s in
          let (done, kept, (users, groups, refused)) =
            after_groups-Dropped uid gid b t s' (rw (user, was_root) at h) in
          let cleared = law.setgroups_clears s t (λ i. (done i, t)) in
          (ground (arith, user), users, groups, inr (kept ∙ cleared), refused)
      | inr was_user ↦
          let (done, kept, (users, groups, refused)) =
            after_groups-Dropped uid gid true s s' (rw (user, was_user) at h) in
          (
            ground (arith, user),
            users,
            groups,
            inl (ground (arith, was_user, law.geteuid_reads s)),
            refused,
          )
    ]
  ]
