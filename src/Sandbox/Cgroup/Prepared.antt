-- ===== src/Sandbox/Cgroup/Prepared.antt =====
-- What `sandbox_cgroup_prepare` leaves on disk.
use mathlib.Core.Bool.{false≢true}
use st5039cmd.Base.{
  ℕ, ◌*◌, ◌%◌, ◌^◌, ◌≡◌, ◌⊎◌, inl, inr, refl, Bool, true, false, List, [], ◌∷◌, ◌++◌, ap, Option,
  none, some, ltb, if◌then◌else◌, arith,
}
use st5039cmd.Base.CString.{codes}
use st5039cmd.Sandbox.Cgroup.{
  SandboxCgroup, no_cgroup, current_cgroup_directory, CgroupAct, directory_made, directory_removed,
  number_written, PrepareAnswers, WriteAnswer, open_failed, write_failed, write_short, write_whole,
  write_to, write_answer, is_written, write_text_file, fit_path, wrote_at, wrote, limit_behind,
  fill_cgroup, after_mkdir, make_cgroup, place_cgroup, sandbox_cgroup_prepare,
}

-- A cgroup that may be used: its directory was made, and if there is a limit, the write to memory.max
-- took all of it, and closing the file succeeded.
abbrev pub Usable : ℕ → WriteAnswer → SandboxCgroup → List CgroupAct → Type 0
Usable kilobytes memory_max g acts =
    (g.active ≡ true)
    × (rest : List CgroupAct) × (acts ≡ directory_made g.path ∷ rest)
    × ((kilobytes ≡ 0)
        ⊎ ((more : List CgroupAct) × (memory_max ≡ write_whole true)
            × (rest
                ≡ number_written g.path (codes "memory.max") (kilobytes * 1024 % 2 ^ 64) ∷ more)))

-- None: nothing was made, or it is gone again, or `rmdir` refused.
abbrev pub Unused : Bool → SandboxCgroup → List CgroupAct → Type 0
Unused removes g acts =
    (g ≡ no_cgroup)
    × ((acts ≡ [])
        ⊎ ((removes ≡ false)
            ⊎ ((path : List ℕ) × (between : List CgroupAct) × (acts
                  ≡ directory_made path ∷ (between ++ directory_removed path ∷ [])))))

abbrev IsPrepared : PrepareAnswers → ℕ → SandboxCgroup × List CgroupAct → Type 0
IsPrepared a kilobytes (g, acts) = Usable kilobytes a.memory_max g acts ⊎ Unused a.removes g acts

-- The directory that is made is removed again, if it can be.
removed-Unused :
    (removes : Bool) (path : List ℕ) (between : List CgroupAct)
    → Unused removes no_cgroup
        (directory_made path ∷ (between ++ (if removes then directory_removed path ∷ [] else [])))
removed-Unused true path between = (refl, inr (inr (path, between, refl)))
removed-Unused false path between = (refl, inr (inl refl))

-- A text file counts as written only if `write` took the whole text and `close` succeeded.
written-whole :
    (directory name : List ℕ) (value : ℕ) (answer : WriteAnswer) (o : Option (List ℕ))
    → is_written (write_to answer o) ≡ true
    → (answer ≡ write_whole true)
      × (wrote_at directory name value answer o ≡ number_written directory name value ∷ [])
unfolding write_to write_answer is_written wrote_at
written-whole directory name value answer none h = absurd (false≢true h)
written-whole directory name value (open_failed missing) (some path) h = absurd (false≢true h)
written-whole directory name value (write_failed missing) (some path) h = absurd (false≢true h)
written-whole directory name value write_short (some path) h = absurd (false≢true h)
written-whole directory name value (write_whole true) (some path) h = (refl, refl)
written-whole directory name value (write_whole false) (some path) h = absurd (false≢true h)

-- With the directory made.
abbrev MakesPrepared : PrepareAnswers → List ℕ → ℕ → SandboxCgroup × List CgroupAct → Type 0
MakesPrepared a path kilobytes (g, acts) = IsPrepared a kilobytes (g, directory_made path ∷ acts)

limit_behind-MakesPrepared :
    (a : PrepareAnswers) (path : List ℕ) (kilobytes : ℕ) (b : Bool)
    → is_written (write_text_file path (codes "memory.max") a.memory_max) ≡ b
    → let (g, acts) = limit_behind a path kilobytes b in
      MakesPrepared a path kilobytes
        (g, wrote path (codes "memory.max") (kilobytes * 1024 % 2 ^ 64) a.memory_max ++ acts)
unfolding limit_behind wrote write_text_file
limit_behind-MakesPrepared a path kilobytes true e =
    let (answer, text) =
      written-whole path (codes "memory.max") (kilobytes * 1024 % 2 ^ 64) a.memory_max
        (fit_path (path ++ b'/' ∷ codes "memory.max")) e in
    let behind =
      wrote path (codes "memory.oom.group") 1 a.oom_group
      ++ wrote path (codes "memory.swap.max") 0 a.swap_max in
    inl (refl, _, refl, inr (behind, answer, ap (λ r. r ++ behind) text))
limit_behind-MakesPrepared a path kilobytes false e = inr (
    removed-Unused a.removes path
      (wrote path (codes "memory.max") (kilobytes * 1024 % 2 ^ 64) a.memory_max))

fill_cgroup-MakesPrepared :
    (a : PrepareAnswers) (path : List ℕ) (kilobytes : ℕ) (b : Bool)
    → ltb 0 kilobytes ≡ b
    → MakesPrepared a path kilobytes (fill_cgroup a path kilobytes b)
unfolding fill_cgroup
fill_cgroup-MakesPrepared a path kilobytes true e =
    limit_behind-MakesPrepared a path kilobytes _ refl
fill_cgroup-MakesPrepared a path kilobytes false e = inl (refl, _, refl, inl (ground (arith, e)))

after_mkdir-IsPrepared :
    (a : PrepareAnswers) (path : List ℕ) (kilobytes : ℕ) (b : Bool)
    → IsPrepared a kilobytes (after_mkdir a path kilobytes b)
unfolding after_mkdir
after_mkdir-IsPrepared a path kilobytes true =
    fill_cgroup-MakesPrepared a path kilobytes (ltb 0 kilobytes) refl
after_mkdir-IsPrepared a path kilobytes false = inr (refl, inl refl)

make_cgroup-IsPrepared :
    (a : PrepareAnswers) (kilobytes : ℕ) (o : Option (List ℕ))
    → IsPrepared a kilobytes (make_cgroup a kilobytes o)
unfolding make_cgroup
make_cgroup-IsPrepared a kilobytes none = inr (refl, inl refl)
make_cgroup-IsPrepared a kilobytes (some path) = after_mkdir-IsPrepared a path kilobytes a.makes

place_cgroup-IsPrepared :
    (a : PrepareAnswers) (kilobytes : ℕ) (o : Option (List ℕ))
    → IsPrepared a kilobytes (place_cgroup a kilobytes o)
unfolding place_cgroup
place_cgroup-IsPrepared a kilobytes none = inr (refl, inl refl)
place_cgroup-IsPrepared a kilobytes (some parent) = make_cgroup-IsPrepared a kilobytes _

-- A prepared cgroup is active with its directory made and the memory limit, if there is one, written in
-- bytes: the `write` to memory.max took the whole number, and it could be closed. Or there is none, and then nothing was made, or the directory is removed again, or `rmdir`
-- refused.
pub sandbox_cgroup_prepare_lem :
    (a : PrepareAnswers) (kilobytes : ℕ)
    → let (g, acts) = sandbox_cgroup_prepare a kilobytes in
      Usable kilobytes a.memory_max g acts ⊎ Unused a.removes g acts
unfolding sandbox_cgroup_prepare
sandbox_cgroup_prepare_lem a kilobytes =
    place_cgroup-IsPrepared a kilobytes (current_cgroup_directory a.self_cgroup)
