-- ===== src/Sandbox/Monitor/Memory.antt =====
-- Sandbox/monitor.c: `memory_monitor_thread`. What it logs is kept as the list of logged samples.
pub mod Over
use st5039cmd.Base.{
  ℕ, ◌-◌, Bool, true, false, ◌||◌, List, [], ◌∷◌, ◌++◌, Option, none, some, leb, ◌==◌,
  if◌then◌else◌,
}
use st5039cmd.Sandbox.State.{SandboxState, memory_limit, monitor_error}
use st5039cmd.Sandbox.ProcessTree.Sample.{ProcessTreeSample, ulong_max}
use st5039cmd.Sandbox.Supervisor
use st5039cmd.Sandbox.Supervisor.{sample}
use st5039cmd.Sandbox.Monitor.{Round, Look, quits, asks, goes_on, Watched, watch}

-- A round, with what `sandbox_cgroup_is_populated` and `sandbox_cgroup_read_memory_kilobytes` return
-- (`none` is an error), and what a sample of the process tree meets.
pub record MemoryRound : Type 0 where
  pub round : Round
  pub populated : Option Bool
  pub cgroup_memory : Option ℕ
  pub look : Supervisor.Look

-- `sampled_memory`, or an error, or nobody left.
pub data Reading : Type 0 where
  unreadable nobody : Reading
  sampled : ℕ → Reading

-- `last_logged_memory`, and the samples logged so far.
pub record MemoryLog : Type 0 where
  pub last_logged_memory : ℕ
  pub logged : List ℕ

abbrev pub fresh_log : MemoryLog
fresh_log = record { last_logged_memory = ulong_max; logged = [] }

pub read_cgroup : Option Bool → Option ℕ → Reading
read_cgroup none memory = unreadable
read_cgroup (some populated) none = unreadable
read_cgroup (some false) (some memory) = nobody
read_cgroup (some true) (some memory) = sampled memory

pub read_tree : Option ProcessTreeSample → Reading
read_tree none = unreadable
read_tree (some t) = if t.process_count == 0 then nobody else sampled t.memory_kilobytes

-- `active` is the field of the cgroup.
unfoldable pub read_memory : (active : Bool) → MemoryRound → SandboxState → Reading
unfolding read_cgroup read_tree
read_memory true r seen = read_cgroup r.populated r.cgroup_memory
read_memory false r seen = read_tree (sample r.look seen)

-- `memory_change`.
pub change : ℕ → ℕ → ℕ
change last now = if last == ulong_max then 0 else if leb last now then now - last else last - now

pub log_sample : ℕ → ℕ → MemoryLog → MemoryLog
log_sample limit now l =
    if l.last_logged_memory == ulong_max
      || leb limit now
      || leb 1024 (change l.last_logged_memory now)
    then record { last_logged_memory = now; logged = l.logged ++ now ∷ [] }
    else l

pub judge : ℕ → Reading → MemoryLog → Look MemoryLog
judge limit unreadable l = asks monitor_error l
judge limit nobody l = quits
judge limit (sampled now) l =
    if leb limit now
    then asks memory_limit (log_sample limit now l)
    else goes_on (log_sample limit now l)

module _ (active : Bool) (memory_limit_kilobytes : ℕ) where
  unfoldable pub memory_look : MemoryRound → SandboxState → MemoryLog → Look MemoryLog
  unfolding judge log_sample change
  memory_look r seen l = judge memory_limit_kilobytes (read_memory active r seen) l

  unfoldable pub memory_monitor_thread : List MemoryRound → SandboxState → Watched MemoryLog
  unfolding memory_look
  memory_monitor_thread rounds s = watch (λ r. r.round) memory_look rounds fresh_log s
