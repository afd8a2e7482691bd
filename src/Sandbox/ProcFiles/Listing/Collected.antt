-- ===== src/Sandbox/ProcFiles/Listing/Collected.antt =====
-- The array never overflows, and the list is that of the processes that could be read.
use native.Mathlib.Nat.{div-le_self}
use mathlib.Core.List.{append_assoc, append-nil}
use st5039cmd.Base.{
  ℕ, ◌*◌, ◌/◌, ◌≤◌, ◌<◌, ◌≡◌, ◌≢◌, refl, subst, sym, ap, ◌∙◌, Bool, true, false, ◌||◌, List, [],
  ◌∷◌, ◌++◌, All, Option, none, some, length, length-append, ltb, ltb→lt, arith, Bool-cases, inl,
  inr, Option-cases,
}
use st5039cmd.Sandbox.ProcessTree.{Process}
use st5039cmd.Sandbox.ProcFiles.{StatRead, stat_error, stat_gone, stat_success}
use st5039cmd.Sandbox.ProcFiles.Listing.{
  Table, empty_table, put, doubled, append_process, size_max, collect_read, collect_pid,
  collect_entries, collected_processes, collect_all_processes, directory_name_to_pid,
}

-- What is filled fits the array, and its bytes can be counted.
pub record IsTable (size : ℕ) (t : Table) : Type 0 where
  pub fits : length t.processes ≤ t.capacity
  pub counted : t.capacity ≤ size_max / size

doubled-lt : (n : ℕ) → n ≤ size_max → n ≤ doubled n → n < doubled n
unfolding doubled
doubled-lt n h k = ground arith

some_inj : {t u : Table} → some t ≡ some u → t ≡ u
some_inj e = cc

none≢some : {t : Table} → none ≢ some t
none≢some e = cc

-- What one step makes of the table: the process is added behind the others.
abbrev pub Extends : ℕ → Process → Table → Table → Type 0
Extends size p t t' = IsTable size t' × (t'.processes ≡ t.processes ++ p ∷ [])

put-Extends :
    (size capacity : ℕ) (p : Process) (t : Table)
    → length t.processes < capacity
    → capacity ≤ size_max / size
    → Extends size p t (put p (record t { capacity = capacity }))
unfolding put
put-Extends size capacity p t room counted =
    (record { fits = omega (arith, length-append t.processes (p ∷ [])); counted = counted }, refl)

grown :
    (size : ℕ) (t : Table)
    → IsTable size t
    → ltb (length t.processes) t.capacity ≡ false
    → (ltb (doubled t.capacity) t.capacity || ltb (size_max / size) (doubled t.capacity)) ≡ false
    → (length t.processes < doubled t.capacity) × (doubled t.capacity ≤ size_max / size)
grown size t v full good =
    let len : length t.processes ≡ t.capacity = ground (arith, full, v.fits) in
    let up : t.capacity ≤ doubled t.capacity = ground (arith, good) in
    let small : t.capacity ≤ size_max = omega (arith, v.counted, div-le_self size_max size) in
    (omega (arith, doubled-lt t.capacity small up), ground (arith, good))

module _ (size : ℕ) (realloc : ℕ → Bool) where
  -- A process that is appended stands behind the others, and the array still fits.
  pub append_process-Extends :
      (p : Process) (t t' : Table)
      → IsTable size t
      → append_process size realloc p t ≡ some t'
      → Extends size p t t'
  unfolding append_process
  append_process-Extends p t t' v e =
      let new = doubled t.capacity in
      elim (Bool-cases (ltb (length t.processes) t.capacity)) [
        | inl room ↦
            subst (Extends size p t) (some_inj (rw room at e))
              (put-Extends size t.capacity p t (ltb→lt _ _ room) v.counted)
        | inr full ↦ elim (Bool-cases (ltb new t.capacity || ltb (size_max / size) new)) [
          | inl bad ↦ absurd (none≢some (rw (full, bad) at e))
          | inr good ↦ elim (Bool-cases (realloc (new * size))) [
            | inl had ↦
                let (room, counted) = grown size t v full good in
                subst (Extends size p t) (some_inj (rw (full, good, had) at e))
                  (put-Extends size new p t room counted)
            | inr refused ↦ absurd (none≢some (rw (full, good, refused) at e))
          ]
        ]
      ]

  module _ (read : ℕ → StatRead) where
    -- The process of an entry, if its name is a pid and the process is there.
    pub process_read : StatRead → List Process
    process_read stat_error = []
    process_read stat_gone = []
    process_read (stat_success p) = p ∷ []

    pub process_named : Option ℕ → List Process
    process_named none = []
    process_named (some pid) = process_read (read pid)

    -- The processes of the entries whose names are pids, without those that are gone.
    pub listed : List (List ℕ) → List Process
    listed [] = []
    listed (name ∷ names) = process_named (directory_name_to_pid name) ++ listed names

    -- Reading the entry's process does not fail.
    abbrev pub IsRead : Option ℕ → Type 0
    IsRead none = Unit {0}
    IsRead (some pid) = read pid ≢ stat_error

    collect_read-error :
        (r : StatRead) (t t' : Table)
        → collect_read size realloc read r t ≡ some t'
        → r ≢ stat_error
    unfolding collect_read
    collect_read-error stat_error t t' e = absurd (none≢some e)
    collect_read-error stat_gone t t' e = λ i. cc
    collect_read-error (stat_success p) t t' e = λ i. cc

    collect_pid-IsRead :
        (pid : Option ℕ) (t t' : Table) → collect_pid size realloc read pid t ≡ some t' → IsRead pid
    unfolding collect_pid
    collect_pid-IsRead none t t' e = tt
    collect_pid-IsRead (some pid) t t' e = collect_read-error (read pid) t t' e

    -- What the entries make of the table.
    abbrev pub Collects : List (List ℕ) → Table → Table → Type 0
    Collects names t t' =
        IsTable size t'
        × (t'.processes ≡ t.processes ++ listed names)
        × All (λ name. IsRead (directory_name_to_pid name)) names

    -- An entry's process is appended, or there is none.
    collect_read-Step :
        (r : StatRead) (t t' : Table)
        → IsTable size t
        → collect_read size realloc read r t ≡ some t'
        → IsTable size t' × (t'.processes ≡ t.processes ++ process_read r)
    unfolding collect_read process_read
    collect_read-Step stat_error t t' v e = absurd (none≢some e)
    collect_read-Step stat_gone t t' v e =
        subst (λ u. IsTable size u × (u.processes ≡ t.processes ++ [])) (some_inj e)
          (v, sym (append-nil t.processes))
    collect_read-Step (stat_success p) t t' v e = append_process-Extends p t t' v e

    collect_pid-Step :
        (pid : Option ℕ) (t t' : Table)
        → IsTable size t
        → collect_pid size realloc read pid t ≡ some t'
        → IsTable size t' × (t'.processes ≡ t.processes ++ process_named pid)
    unfolding collect_pid process_named
    collect_pid-Step none t t' v e =
        subst (λ u. IsTable size u × (u.processes ≡ t.processes ++ [])) (some_inj e)
          (v, sym (append-nil t.processes))
    collect_pid-Step (some pid) t t' v e = collect_read-Step (read pid) t t' v e

    collect_entries-Collects :
        (fails : Bool) (names : List (List ℕ)) (t t' : Table)
        → IsTable size t
        → collect_entries size realloc read fails names t ≡ some t'
        → (fails ≡ false) × Collects names t t'
    unfolding collect_entries listed
    collect_entries-Collects false [] t t' v e = (
      refl,
      subst (λ u. IsTable size u × (u.processes ≡ t.processes ++ []) × Unit {0}) (some_inj e)
          (v, sym (append-nil t.processes), tt),
    )
    collect_entries-Collects true [] t t' v e = absurd (none≢some e)
    collect_entries-Collects fails (name ∷ names) t t' v e =
        let pid = directory_name_to_pid name in
        elim (Option-cases (collect_pid size realloc read pid t)) [
          | inl failed ↦ absurd (none≢some (rw (failed, collect_entries) at e))
          | inr (u, there) ↦
              let (w, more) = collect_pid-Step pid t u v there in
              let (calm, after) =
                collect_entries-Collects fails names u t' w (rw (there, collect_entries) at e) in
              let (w', rest, read_all) = after in
              (
                calm,
                (
                  w',
                  rest
                      ∙ ap (λ l. l ++ listed names) more
                      ∙ append_assoc t.processes (process_named pid) (listed names),
                  (collect_pid-IsRead pid t u there, read_all),
                ),
              )
        ]

    collected-some :
        (closes : Bool) (o : Option Table) (ps : List Process)
        → collected_processes size realloc read closes o ≡ some ps
        → (t : Table) × (o ≡ some t) × (t.processes ≡ ps)
    unfolding collected_processes
    collected-some closes none ps e = cc
    collected-some true (some t) ps e = (t, refl, cc)
    collected-some false (some t) ps e = cc

    -- When the processes could be collected, they are those of the entries whose names are pids and
    -- that still existed, in the order of the directory; the directory was read to its end, and
    -- reading none of them failed otherwise.
    pub collect_all_processes_lem :
        (names : List (List ℕ)) (fails closes : Bool) (ps : List Process)
        → collect_all_processes size realloc read (some names) fails closes ≡ some ps
        → (fails ≡ false)
          × (ps ≡ listed names)
          × All (λ name. IsRead (directory_name_to_pid name)) names
    unfolding collect_all_processes
    collect_all_processes_lem names fails closes ps e =
        let (t, made, same) =
          collected-some closes (collect_entries size realloc read fails names empty_table) ps e in
        let (calm, after) =
          collect_entries-Collects fails names empty_table t
            (record { fits = omega arith; counted = omega arith }) made in
        let (fine, all, read_all) = after in (calm, sym same ∙ all, read_all)
