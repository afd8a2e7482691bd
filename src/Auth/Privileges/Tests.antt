-- ===== src/Auth/Privileges/Tests.antt =====
-- A small kernel: only an effective root may change ids and groups, and `seteuid` takes a real, an
-- effective or a saved id.
use st5039cmd.Base.{
  ℕ, ◌≡◌, ◌≢◌, ◌⊎◌, refl, sym, ap, Bool, true, false, ◌||◌, List, [], ◌∷◌, some, ◌==◌,
  if◌then◌else◌, Bool-cases, inl, inr,
}
use mathlib.Core.Option.{some_inj}
use mathlib.Core.Bool.{false≢true}
use st5039cmd.Auth.Privileges.{
  Ids, SetAnswer, id_set, not_permitted, System, drop_privileges_permanently,
}
use st5039cmd.Auth.Privileges.Dropped.{all_ids, IsSystem, drop_privileges_permanently_sound}

pub record Credentials : Type 0 where
  pub users : Ids
  pub groups : Ids
  pub supplementary : List ℕ

unfoldable pub as_root : Credentials → Credentials → Bool × Credentials
as_root s s' = if s.users.effective == 0 then (true, s') else (false, s)

unfoldable pub change_effective : ℕ → Credentials → SetAnswer × Credentials
change_effective uid s =
    if s.users.effective == 0 || s.users.real == uid || s.users.saved == uid
    then (id_set, record s { users = record s.users { effective = uid } })
    else (not_permitted, s)

abbrev pub small_system : System Credentials
small_system = record {
  geteuid = λ s. s.users.effective;
  setgroups = λ s. as_root s (record s { supplementary = [] });
  setresgid = λ gid s. as_root s (record s { groups = all_ids gid });
  setresuid = λ uid s. as_root s (record s { users = all_ids uid });
  getresuid = λ s. some s.users;
  seteuid = change_effective;
}

pub as_root-done : (s t s' : Credentials) → as_root s t ≡ (true, s') → s' ≡ t
unfolding as_root
as_root-done s t s' h = elim (Bool-cases (s.users.effective == 0)) [
  | inl root ↦ sym (ap (λ r. r.1) (rw root at h))
  | inr user ↦ absurd (false≢true (ap (λ r. r.0) (rw user at h)))
]

pub change_effective-refused :
    (uid : ℕ) (s s' : Credentials) → change_effective uid s ≡ (not_permitted, s') → s' ≡ s
unfolding change_effective
change_effective-refused uid s s' h =
    elim (Bool-cases (s.users.effective == 0 || s.users.real == uid || s.users.saved == uid)) [
      | inl allowed ↦ cc
      | inr refused ↦ sym (ap (λ r. r.1) (rw refused at h))
    ]

abbrev pub small_system-IsSystem : IsSystem small_system
small_system-IsSystem = record {
  users = λ s. s.users;
  groups = λ s. s.groups;
  supplementary = λ s. s.supplementary;
  geteuid_reads = λ s. refl;
  setgroups_clears = λ s s' h. ap (λ t. t.supplementary) (as_root-done s _ s' h);
  setresgid_sets = λ gid s s' h. (
    ap (λ t. t.groups) (as_root-done s _ s' h),
    ap (λ t. t.supplementary) (as_root-done s _ s' h),
  );
  setresuid_keeps = λ uid s s' h. (
    ap (λ t. t.groups) (as_root-done s _ s' h),
    ap (λ t. t.supplementary) (as_root-done s _ s' h),
  );
  getresuid_reads = λ s ids h. sym (some_inj.0 h);
  seteuid_refused = change_effective-refused;
}

-- A set-user-id root program that user 1000 has started, before and behind the drop.
abbrev pub started : Credentials
started = record {
  users = record { real = 1000; effective = 0; saved = 0 };
  groups = all_ids 1000;
  supplementary = 27 ∷ [];
}

abbrev dropped : Credentials
dropped = record { users = all_ids 1000; groups = all_ids 1000; supplementary = [] }

drops : drop_privileges_permanently small_system 1000 1000 started ≡ (true, dropped)
unfolding drop_privileges_permanently as_root change_effective
drops = refl

drop_privileges_permanently_sound_example :
    (◌≢◌ {A = ℕ} 1000 0)
    × (dropped.users ≡ all_ids 1000)
    × (dropped.groups ≡ all_ids 1000)
    × ((started.users.effective ≢ 0) ⊎ (dropped.supplementary ≡ []))
    × ((change_effective 0 dropped).0 ≡ not_permitted)
drop_privileges_permanently_sound_example =
    drop_privileges_permanently_sound small_system small_system-IsSystem 1000 1000 started dropped
      drops
