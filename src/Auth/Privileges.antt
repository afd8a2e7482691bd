-- ===== src/Auth/Privileges.antt =====
-- Authentication/Backend.c: `drop_privileges_permanently`. The calls of the kernel are the argument
-- `System` over a state of the kernel's; logging leaves no trace.
pub mod Dropped
pub mod Tests
use st5039cmd.Base.{ℕ, Bool, true, false, ◌&&◌, Option, none, some, ◌==◌, if◌then◌else◌}

-- The real, the effective and the saved id.
pub record Ids : Type 0 where
  pub real : ℕ
  pub effective : ℕ
  pub saved : ℕ

-- What `seteuid` answers: 0, EPERM, or another error.
pub data SetAnswer : Type 0 where
  id_set not_permitted id_error : SetAnswer

-- Whether a call returned 0, and the state behind it. `setresgid` and `setresuid` get one id thrice.
pub record System (S : Type 0) : Type 0 where
  pub geteuid : S → ℕ
  pub setgroups : S → Bool × S
  pub setresgid : ℕ → S → Bool × S
  pub setresuid : ℕ → S → Bool × S
  pub getresuid : S → Option Ids
  pub seteuid : ℕ → S → SetAnswer × S

pub are_all : ℕ → Ids → Bool
are_all uid ids = ids.real == uid && ids.effective == uid && ids.saved == uid

module _ {S : Type 0} (k : System S) where
  -- Behind `seteuid(0)`.
  pub check_regained : ℕ → SetAnswer × S → Bool × S
  check_regained uid (id_set, s) = let (_, s') = k.seteuid uid s in (false, s')
  check_regained uid (id_error, s) = (false, s)
  check_regained uid (not_permitted, s) = (true, s)

  pub check_ids : ℕ → Option Ids → S → Bool × S
  check_ids uid none s = (false, s)
  check_ids uid (some ids) s =
      if are_all uid ids then check_regained uid (k.seteuid 0 s) else (false, s)

  -- Behind `setresuid`, `setresgid` and `setgroups`.
  pub after_user : ℕ → Bool × S → Bool × S
  after_user uid (false, s) = (false, s)
  after_user uid (true, s) = check_ids uid (k.getresuid s) s

  pub after_group : ℕ → Bool × S → Bool × S
  after_group uid (false, s) = (false, s)
  after_group uid (true, s) = after_user uid (k.setresuid uid s)

  pub after_groups : (uid gid : ℕ) → Bool × S → Bool × S
  after_groups uid gid (false, s) = (false, s)
  after_groups uid gid (true, s) = after_group uid (k.setresgid gid s)

  unfoldable pub drop_privileges_permanently : (uid gid : ℕ) → S → Bool × S
  unfolding are_all check_regained check_ids after_user after_group after_groups
  drop_privileges_permanently uid gid s =
      if uid == 0
      then (false, s)
      else if k.geteuid s == 0
      then after_groups uid gid (k.setgroups s)
      else after_groups uid gid (true, s)
