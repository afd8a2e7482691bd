-- ===== src/Sandbox/ProcessTree/Sample/Gather.antt =====
-- What the sample holds: the selected processes in order, and sums that stop at the largest value.
use Prim.Native.Nat.{min}
use mathlib.Core.List.{append_assoc, append-nil}
use st5039cmd.Base.{
  ℕ, ◌+◌, ◌≤◌, ◌≡◌, ◌≢◌, ◌⊎◌, inl, inr, refl, Bool, true, false, List, [], ◌∷◌, ◌++◌, none, some,
  length, All, arith, ◌∙◌, sym,
}
use st5039cmd.Sandbox.ProcessTree.{Process}
use st5039cmd.Sandbox.ProcessTree.Sample.{
  ulong_max, MemoryRead, read_error, process_gone, read_success, ProcessTreeSample, saturating_add,
  add_process, add_memory, gather,
}

unfoldable pub chosen : List Process → List Bool → List Process
chosen [] flags = []
chosen (p ∷ ps) [] = []
chosen (p ∷ ps) (false ∷ flags) = chosen ps flags
chosen (p ∷ ps) (true ∷ flags) = p ∷ chosen ps flags

unfoldable pub total : (Process → ℕ) → List Process → ℕ
total f [] = 0
total f (p ∷ ps) = f p + total f ps

abbrev pub memory_of : MemoryRead → ℕ
memory_of read_error = 0
memory_of process_gone = 0
memory_of (read_success kilobytes fallback) = kilobytes

-- The cap at which every sum stops.
abbrev pub capped : ℕ → ℕ
capped n = min n ulong_max

saturating_add-capped : (a b : ℕ) → a ≤ ulong_max → saturating_add a b ≡ capped (a + b)
unfolding saturating_add
saturating_add-capped a b h = ground arith

capped_add : (a b c : ℕ) → capped (capped (a + b) + c) ≡ capped (a + (b + c))
capped_add a b c = omega arith

-- The sums of a sample are within their types.
pub record Fits (s : ProcessTreeSample) : Type 0 where
  pub memory_fits : s.memory_kilobytes ≤ ulong_max
  pub user_fits : s.user_ticks ≤ ulong_max
  pub system_fits : s.system_ticks ≤ ulong_max

MemoryRead-cases :
    (r : MemoryRead)
    → (r ≡ read_error) ⊎ (r ≡ process_gone) ⊎ ((k : ℕ) × (f : Bool) × (r ≡ read_success k f))
MemoryRead-cases read_error = inl refl
MemoryRead-cases process_gone = inr (inl refl)
MemoryRead-cases (read_success k f) = inr (inr (k, f, refl))

none≢some : {t : ProcessTreeSample} → none ≢ some t
none≢some h = cc

module _ (read : ℕ → MemoryRead) where
  abbrev pub memory_at : Process → ℕ
  memory_at p = memory_of (read p.pid)

  -- What `gather` makes of a start `s` and the processes `qs`.
  pub record Gathered (s : ProcessTreeSample) (qs : List Process) (t : ProcessTreeSample)
      : Type 0 where
    pub listed : t.processes ≡ s.processes ++ qs
    pub counted : t.process_count ≡ s.process_count + length qs
    pub memory : t.memory_kilobytes ≡ capped (s.memory_kilobytes + total memory_at qs)
    pub user : t.user_ticks ≡ capped (s.user_ticks + total (λ p. p.user_ticks) qs)
    pub system : t.system_ticks ≡ capped (s.system_ticks + total (λ p. p.system_ticks) qs)

  Gathered-nil : (s : ProcessTreeSample) → Fits s → Gathered s [] s
  unfolding total
  Gathered-nil s v = record {
    listed = sym (append-nil s.processes);
    counted = omega arith;
    memory = omega (arith, v.memory_fits);
    user = omega (arith, v.user_fits);
    system = omega (arith, v.system_fits);
  }

  -- One process absorbed, then the others.
  Gathered-cons :
      (p : Process) (qs : List Process) (s m t : ProcessTreeSample)
      → m.processes ≡ s.processes ++ p ∷ []
      → m.process_count ≡ s.process_count + 1
      → m.memory_kilobytes ≡ capped (s.memory_kilobytes + memory_at p)
      → m.user_ticks ≡ capped (s.user_ticks + p.user_ticks)
      → m.system_ticks ≡ capped (s.system_ticks + p.system_ticks)
      → Gathered m qs t
      → Gathered s (p ∷ qs) t
  unfolding total
  Gathered-cons p qs s m t l c k u w g = record {
    listed = g.listed ∙ (rw l (append_assoc s.processes (p ∷ []) qs));
    counted = omega (arith, c, g.counted);
    memory = omega (arith, k, g.memory);
    user = omega (arith, u, g.user);
    system = omega (arith, w, g.system);
  }

  Gathered-gone :
      (p : Process) (qs : List Process) (s t : ProcessTreeSample)
      → Fits s
      → read p.pid ≡ process_gone
      → Gathered (add_process s p) qs t
      → Gathered s (p ∷ qs) t
  unfolding add_process
  Gathered-gone p qs s t v e =
      Gathered-cons p qs s (add_process s p) t refl refl (rw e (omega (arith, v.memory_fits)))
        (saturating_add-capped s.user_ticks p.user_ticks v.user_fits)
        (saturating_add-capped s.system_ticks p.system_ticks v.system_fits)

  Gathered-found :
      (p : Process) (qs : List Process) (s t : ProcessTreeSample) (k : ℕ) (f : Bool)
      → Fits s
      → read p.pid ≡ read_success k f
      → Gathered (add_memory (add_process s p) k f) qs t
      → Gathered s (p ∷ qs) t
  unfolding add_process add_memory
  Gathered-found p qs s t k f v e =
      Gathered-cons p qs s (add_memory (add_process s p) k f) t refl refl
        (rw e (saturating_add-capped s.memory_kilobytes k v.memory_fits))
        (saturating_add-capped s.user_ticks p.user_ticks v.user_fits)
        (saturating_add-capped s.system_ticks p.system_ticks v.system_fits)

  add_process-Fits : (s : ProcessTreeSample) (p : Process) → Fits s → Fits (add_process s p)
  unfolding add_process saturating_add
  add_process-Fits s p v = ground arith

  add_memory-Fits : (s : ProcessTreeSample) (k : ℕ) (f : Bool) → Fits s → Fits (add_memory s k f)
  unfolding add_memory saturating_add
  add_memory-Fits s k f v = ground arith

  -- When no selected process fails to be read, the sample lists the selected processes in order, and
  -- each sum is the exact total, cut off at the largest value of its type.
  pub gather_lem :
      (ps : List Process) (flags : List Bool) (s : ProcessTreeSample)
      → Fits s
      → All (λ p. read p.pid ≢ read_error) (chosen ps flags)
      → (t : ProcessTreeSample) × (gather read ps flags s ≡ some t) × Gathered s (chosen ps flags) t
  unfolding gather chosen
  gather_lem [] flags s v ok = (s, refl, Gathered-nil s v)
  gather_lem (p ∷ ps) [] s v ok = (s, refl, Gathered-nil s v)
  gather_lem (p ∷ ps) (false ∷ flags) s v ok = gather_lem ps flags s v ok
  gather_lem (p ∷ ps) (true ∷ flags) s v ok = elim (MemoryRead-cases (read p.pid)) [
    | inl failed ↦ absurd (ok.0 failed)
    | inr (inl gone) ↦
        let (t, e, g) = gather_lem ps flags (add_process s p) (add_process-Fits s p v) ok.1 in
        (t, rw (gone, gather) e, Gathered-gone p (chosen ps flags) s t v gone g)
    | inr (inr (k, f, found)) ↦
        let (t, e, g) =
          gather_lem ps flags (add_memory (add_process s p) k f)
            (add_memory-Fits (add_process s p) k f (add_process-Fits s p v)) ok.1 in
        (t, rw (found, gather) e, Gathered-found p (chosen ps flags) s t k f v found g)
  ]

  -- One selected process that cannot be read fails the whole sample.
  pub gather_fails :
      (ps : List Process) (flags : List Bool) (s t : ProcessTreeSample)
      → gather read ps flags s ≡ some t
      → All (λ p. read p.pid ≢ read_error) (chosen ps flags)
  unfolding gather chosen
  gather_fails [] flags s t h = tt
  gather_fails (p ∷ ps) [] s t h = tt
  gather_fails (p ∷ ps) (false ∷ flags) s t h = gather_fails ps flags s t h
  gather_fails (p ∷ ps) (true ∷ flags) s t h = elim (MemoryRead-cases (read p.pid)) [
    | inl failed ↦ absurd (none≢some (rw (failed, gather) at h))
    | inr (inl gone) ↦ (λ e. cc, gather_fails ps flags (add_process s p) t (rw (gone, gather) at h))
    | inr (inr (k, f, found)) ↦ (
      λ e. cc,
      gather_fails ps flags (add_memory (add_process s p) k f) t (rw (found, gather) at h),
    )
  ]
