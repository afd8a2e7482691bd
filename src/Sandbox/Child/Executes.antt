-- ===== src/Sandbox/Child/Executes.antt =====
-- What is in force when the target program runs.
use mathlib.Core.Bool.{false≢true}
use mathlib.Core.Path.{ap₂}
use st5039cmd.Base.{
  ℕ, ◌*◌, ◌%◌, ◌^◌, ◌≡◌, ◌⊎◌, arith, refl, sym, ap, ◌∙◌, Bool, true, false, List, [], ◌∷◌, ◌++◌,
  map, Option, none, some, ltb, if◌then◌else◌, Bool-cases, inl, inr,
}
use Prim.Native.Nat.{min}
use st5039cmd.Base.Int.{ℤ, pos, negsuc, int_eq}
use st5039cmd.Sandbox.Options.{SandboxOptions}
use st5039cmd.Sandbox.Filter.{Headers, network_filter}
use st5039cmd.Sandbox.Landlock.{Rights, Enforced, sandbox_child_restrict_filesystem}
use st5039cmd.Sandbox.Child.{
  ChildSignal, InForce, default_handler, own_process_group, dies_with_parent, no_core_file,
  address_space_limit, filesystem_restricted, network_filtered, descriptors_closed,
  program_executed, and_then, put, granted, denied, pending, Permission, wait_for_launch_permission,
  CloseRange, range_closed, range_unsupported, range_error, ChildAnswers, reset_signals, reset_each,
  reset_child_signal_handlers, sandbox_child_set_parent_death_signal,
  sandbox_child_set_resource_limits, sandbox_child_install_network_filter, descriptor_bound,
  close_range_result, sandbox_child_environment, restrict_child, ChildEnd, replaced, exited_127,
  not_released, finish_child, before_launch, behind_launch, launch_child, run_sandbox_child,
}

-- Which descriptors are closed: all from 3 on where the kernel has `close_range`, and otherwise those
-- below the limit that `sysconf` gives, but no more than 1048576, which also stands for no limit.
abbrev pub IsClosedTo : ChildAnswers → Option ℕ → Type 0
IsClosedTo a none = a.close_range ≡ range_closed
IsClosedTo a (some bound) =
    (a.close_range ≡ range_unsupported)
    × (((n : ℕ) × (a.open_max ≡ pos n) × (bound ≡ min n 1048576))
        ⊎ ((n : ℕ) × (a.open_max ≡ negsuc n) × (bound ≡ 1048576)))

-- An operation that returned 0.
abbrev Ok : Bool × List InForce → Type 0
Ok r = r.0 ≡ true

and_then-Ok :
    (x y : Bool × List InForce) → Ok (and_then x y) → Ok x × Ok y × ((and_then x y).1 ≡ x.1 ++ y.1)
unfolding and_then
and_then-Ok (false, acts) y e = absurd (false≢true e)
and_then-Ok (true, acts) y e = (refl, e, refl)

put-Ok : (ok : Bool) (act : InForce) → Ok (put ok act) → (ok ≡ true) × ((put ok act).1 ≡ act ∷ [])
unfolding put
put-Ok true act e = (refl, refl)
put-Ok false act e = absurd (false≢true e)

and_then-put :
    (ok : Bool) (act : InForce) (y : Bool × List InForce)
    → Ok (and_then (put ok act) y)
    → Ok y × ((and_then (put ok act) y).1 ≡ act ∷ y.1)
and_then-put ok act y e =
    let (first, second, same) = and_then-Ok (put ok act) y e in
    (second, same ∙ ap (λ l. l ++ y.1) (put-Ok ok act first).1)

reset_each-Ok :
    (resets : ChildSignal → Bool) (signals : List ChildSignal)
    → Ok (reset_each resets signals)
    → (reset_each resets signals).1 ≡ map default_handler signals
unfolding reset_each
reset_each-Ok resets [] e = refl
reset_each-Ok resets (s ∷ signals) e =
    let (rest, same) = and_then-put (resets s) (default_handler s) (reset_each resets signals) e in
    same ∙ ap (◌∷◌ (default_handler s)) (reset_each-Ok resets signals rest)

reset_handlers-Ok :
    (a : ChildAnswers)
    → Ok (reset_child_signal_handlers a)
    → (reset_child_signal_handlers a).1 ≡ map default_handler reset_signals
unfolding reset_child_signal_handlers
reset_handlers-Ok a e =
    let (empty, rest, same) =
      and_then-Ok (a.empties_mask, []) (reset_each a.resets reset_signals) e in
    same ∙ reset_each-Ok a.resets reset_signals rest

-- The limit on the address space, if there is one.
unfoldable pub address_limits : ℕ → List InForce
address_limits kilobytes =
    if ltb 0 kilobytes then address_space_limit (kilobytes * 1024 % 2 ^ 64) ∷ [] else []

limits-Ok :
    (a : ChildAnswers) (kilobytes : ℕ)
    → Ok (sandbox_child_set_resource_limits a kilobytes)
    → (sandbox_child_set_resource_limits a kilobytes).1 ≡ no_core_file ∷ address_limits kilobytes
unfolding sandbox_child_set_resource_limits address_limits
limits-Ok a kilobytes e =
    let act = address_space_limit (kilobytes * 1024 % 2 ^ 64) in
    let rest = if ltb 0 kilobytes then put a.limits_address_space act else (true, []) in
    let (second, same) = and_then-put a.limits_core no_core_file rest e in
    elim (Bool-cases (ltb 0 kilobytes)) [
      | inr free ↦ same ∙ rw free
      | inl limited ↦
          same
          ∙ ap (◌∷◌ no_core_file)
              (rw limited (put-Ok a.limits_address_space act (rw limited at second)).1)
    ]

death-Ok :
    (a : ChildAnswers) (parent : ℤ)
    → Ok (sandbox_child_set_parent_death_signal a parent)
    → (int_eq a.getppid parent ≡ true)
      × ((sandbox_child_set_parent_death_signal a parent).1 ≡ dies_with_parent ∷ [])
unfolding sandbox_child_set_parent_death_signal
death-Ok a parent e =
    and_then-put a.sets_death_signal dies_with_parent (int_eq a.getppid parent, []) e

filter-Ok :
    (a : ChildAnswers) (h : Headers)
    → Ok (sandbox_child_install_network_filter a h)
    → (sandbox_child_install_network_filter a h).1 ≡ network_filtered (network_filter h) ∷ []
unfolding sandbox_child_install_network_filter
filter-Ok a h e =
    let act = network_filtered (network_filter h) in
    let (allowed, rest, same) = and_then-Ok (a.no_new_privileges, []) (put a.sets_seccomp act) e in
    same ∙ (put-Ok a.sets_seccomp act rest).1

descriptor_bound-min :
    (open_max : ℤ)
    → ((n : ℕ) × (open_max ≡ pos n) × (descriptor_bound open_max ≡ min n 1048576))
      ⊎ ((n : ℕ) × (open_max ≡ negsuc n) × (descriptor_bound open_max ≡ 1048576))
unfolding descriptor_bound
descriptor_bound-min (pos n) = inl (n, refl, ground arith)
descriptor_bound-min (negsuc n) = inr (n, refl, refl)

close_range-Ok :
    (a : ChildAnswers) (c : CloseRange)
    → a.close_range ≡ c
    → Ok (close_range_result c a.open_max)
    → (bound : Option ℕ) × IsClosedTo a bound
      × ((close_range_result c a.open_max).1 ≡ descriptors_closed bound ∷ [])
unfolding close_range_result
close_range-Ok a range_closed same e = (none, same, refl)
close_range-Ok a range_unsupported same e =
    (some (descriptor_bound a.open_max), (same, descriptor_bound-min a.open_max), refl)
close_range-Ok a range_error same e = absurd (false≢true e)

restrict-Ok :
    (o : Option Enforced)
    → Ok (restrict_child o)
    → (e : Enforced) × (o ≡ some e) × ((restrict_child o).1 ≡ filesystem_restricted e ∷ [])
unfolding restrict_child
restrict-Ok none h = absurd (false≢true h)
restrict-Ok (some e) h = (e, refl, refl)

abbrev is_replaced : ChildEnd → Bool
is_replaced exited_127 = false
is_replaced not_released = false
is_replaced replaced = true

finish_child-replaced :
    (x : Bool × List InForce) (acts : List InForce)
    → finish_child x ≡ (replaced, acts)
    → Ok x × (acts ≡ x.1)
unfolding finish_child
finish_child-replaced (false, more) acts e = absurd (false≢true (ap (λ r. is_replaced r.0) e))
finish_child-replaced (true, more) acts e = (refl, sym (ap (λ r. r.1) e))

module _ (capacity : ℕ) (r : Rights) (h : Headers) where
  before_launch-Ok :
      (a : ChildAnswers) (options : SandboxOptions) (parent : ℤ)
      → Ok (before_launch capacity r h a options parent)
      → (int_eq a.getppid parent ≡ true)
        × ((before_launch capacity r h a options parent).1
            ≡ map default_handler reset_signals
              ++ own_process_group
                ∷ dies_with_parent
                ∷ no_core_file
                ∷ address_limits options.memory_limit_kilobytes)
  unfolding before_launch
  before_launch-Ok a options parent e =
      let limits = sandbox_child_set_resource_limits a options.memory_limit_kilobytes in
      let death = sandbox_child_set_parent_death_signal a parent in
      let (reset, after_reset, s1) = and_then-Ok (reset_child_signal_handlers a) _ e in
      let (after_group, s2) = and_then-put a.setpgid own_process_group _ after_reset in
      let (dies, limited, s3) = and_then-Ok death limits after_group in
      let (same_parent, d) = death-Ok a parent dies in
      let l = limits-Ok a options.memory_limit_kilobytes limited in
      (
        same_parent,
        s1
            ∙ ap₂ ◌++◌ (reset_handlers-Ok a reset)
                (s2 ∙ ap (◌∷◌ own_process_group) (s3 ∙ ap₂ ◌++◌ d l)),
      )

  behind_launch-Ok :
      (a : ChildAnswers) (options : SandboxOptions)
      → Ok (behind_launch capacity r h a options)
      → (e : Enforced) × (bound : Option ℕ) × IsClosedTo a bound
        × (sandbox_child_restrict_filesystem capacity r a.landlock options.target_path ≡ some e)
        × ((behind_launch capacity r h a options).1
            ≡ filesystem_restricted e
              ∷ network_filtered (network_filter h)
              ∷ descriptors_closed bound
              ∷ program_executed options.target_path options.target_argv sandbox_child_environment
              ∷ [])
  unfolding behind_launch
  behind_launch-Ok a options ok =
      let fs = sandbox_child_restrict_filesystem capacity r a.landlock options.target_path in
      let run =
        program_executed options.target_path options.target_argv sandbox_child_environment in
      let (restricted, after_fs, s1) = and_then-Ok (restrict_child fs) _ ok in
      let (filtered, after_filter, s2) =
        and_then-Ok (sandbox_child_install_network_filter a h) _ after_fs in
      let (closed, executed, s3) =
        and_then-Ok (close_range_result a.close_range a.open_max) (put a.executes run)
          after_filter in
      let (e, there, f) = restrict-Ok fs restricted in
      let (bound, within, c) = close_range-Ok a a.close_range refl closed in
      (
        e,
        bound,
        within,
        there,
        s1
            ∙ ap₂ ◌++◌ f (
                s2
                ∙ ap₂ ◌++◌ (filter-Ok a h filtered)
                    (s3 ∙ ap₂ ◌++◌ c (put-Ok a.executes run executed).1)),
      )

  launch_child-replaced :
      (a : ChildAnswers) (options : SandboxOptions) (p : Permission) (x : Bool × List InForce)
      (acts : List InForce)
      → launch_child capacity r h a options p x ≡ (replaced, acts)
      → Ok x
        × (p ≡ granted)
        × Ok (behind_launch capacity r h a options)
        × (acts ≡ x.1 ++ (behind_launch capacity r h a options).1)
  unfolding launch_child and_then
  launch_child-replaced a options p (false, more) acts e =
      absurd (false≢true (ap (λ y. is_replaced y.0) e))
  launch_child-replaced a options denied (true, more) acts e =
      absurd (false≢true (ap (λ y. is_replaced y.0) e))
  launch_child-replaced a options pending (true, more) acts e =
      absurd (false≢true (ap (λ y. is_replaced y.0) e))
  launch_child-replaced a options granted (true, more) acts e =
      let (ok, same) =
        finish_child-replaced (and_then (true, more) (behind_launch capacity r h a options)) acts
          e in
      (refl, refl, ok, same)

  -- When the target program runs, everything else is in force before it, in this order: default
  -- handlers of the four signals, a process group of its own, death with the parent, no core files and
  -- the address space limit if there is one, then, the launch being permitted, the filesystem ruleset,
  -- the network filter and closed descriptors: all from 3 on, or, without `close_range`, those below
  -- the limit of `sysconf`, of which a missing one and one above it count as 1048576. The program gets
  -- its arguments and the fixed environment.
  pub run_sandbox_child-executes :
      (a : ChildAnswers) (options : SandboxOptions) (parent : ℤ) (acts : List InForce)
      → run_sandbox_child capacity r h a options parent ≡ (replaced, acts)
      → (e : Enforced) × (bound : Option ℕ) × IsClosedTo a bound
        × (int_eq a.getppid parent ≡ true)
        × (wait_for_launch_permission a.permission ≡ granted)
        × (sandbox_child_restrict_filesystem capacity r a.landlock options.target_path ≡ some e)
        × (acts
            ≡ (map default_handler reset_signals
                ++ own_process_group
                  ∷ dies_with_parent
                  ∷ no_core_file
                  ∷ address_limits options.memory_limit_kilobytes)
              ++ filesystem_restricted e
                ∷ network_filtered (network_filter h)
                ∷ descriptors_closed bound
                ∷ program_executed options.target_path options.target_argv sandbox_child_environment
                ∷ [])
  unfolding run_sandbox_child
  run_sandbox_child-executes a options parent acts x =
      let (ready, allowed, done, same) =
        launch_child-replaced a options (wait_for_launch_permission a.permission)
          (before_launch capacity r h a options parent) acts x in
      let (same_parent, front) = before_launch-Ok a options parent ready in
      let (e, bound, within, there, back) = behind_launch-Ok a options done in
      (e, bound, within, same_parent, allowed, there, same ∙ ap₂ ◌++◌ front back)
