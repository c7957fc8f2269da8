-- ===== src/Scheduler/Tests.antt =====
-- Runs of the scheduler on small tables, and its theorems at inputs that meet their hypotheses.
use armcortex_a7os.Base.{
  ℕ, zero, suc, ◌+◌, ◌*◌, ◌≤◌, ◌<◌, ◌≡◌, ◌≢◌, refl, ◌⊎◌, inl, inr, true, false, [], ◌∷◌, replicate,
  arith, minus_one,
}
use armcortex_a7os.Scheduler.{
  Ctx, Pcb, Sched, Image, table_size, zero_ctx, zero_pcb, entry, current_pcb, set_reg, next_pid,
  new_pid, update_priority, scheduler_run, scheduler_fork, scheduler_exit, scheduler_kill,
  fork_priority,
}
use armcortex_a7os.Scheduler.Aging.{aged, entry-update_priority}
use armcortex_a7os.Scheduler.Choice.{IsFirstHighest, NoneAbove, next_pid-Chosen}
use armcortex_a7os.Scheduler.Inv.{IsValid}
use armcortex_a7os.Scheduler.Ops.{Refused, Forked, scheduler_fork_lem}
use armcortex_a7os.Scheduler.Run.{Switched, scheduler_run_lem, fork-then_run}
use armcortex_a7os.Scheduler.Fair.{Waits}
use armcortex_a7os.Scheduler.Turns.{run_for, scheduler_run_turn}
use armcortex_a7os.Scheduler.Stop.{
  kill-then_run, kill_all-then_run, scheduler_exit_lem, exit_failure_goes_on,
}

abbrev image : Image
image = record { main_console = 0x70010400; tos_user = 0x70090000 }

abbrev blank : Sched
blank = record { pcb = replicate 30 zero_pcb; current = 0; current_tos_user = 0x70090000; out = [] }

-- The console, running with the priority 2.
abbrev console : Pcb
console = record {
  pid = 0;
  pid_parent = 0;
  ctx = record zero_ctx { cpsr = 0x50; pc = 0x70010400; sp = 0x70090000 };
  running = true;
  priority_init = 2;
  priority_curr = 2;
}

-- A program started from the console.
abbrev program : Pcb
program = record console { pid = 1; priority_init = 3; priority_curr = 3 }

-- The console and one program, which is current.
abbrev two : Sched
two = record blank { pcb = console ∷ program ∷ replicate 28 zero_pcb; current = 1 }

abbrev regs : Ctx
regs = record zero_ctx { pc = 0x70010500 }

free :
    (n i : ℕ)
    → ((entry (replicate n zero_pcb) i).pid ≡ 0)
      × ((entry (replicate n zero_pcb) i).running ≡ false)
free zero i = (refl, refl)
free (suc n) zero = (refl, refl)
free (suc n) (suc i) = free n i

two-owned :
    (i : ℕ)
    → i < table_size
    → ((entry two.pcb i).pid ≡ i)
      ⊎ (((entry two.pcb i).pid ≡ 0) × ((entry two.pcb i).running ≡ false))
two-owned zero l = inl refl
two-owned (suc zero) l = inl refl
two-owned (suc (suc i)) l = inr (free 28 i)

two-IsValid : IsValid two
two-IsValid = record {
  size = refl;
  current_in = omega arith;
  current_own = refl;
  owned = two-owned;
}

switch_runs : (scheduler_run regs two).1.current ≡ 0
unfolding scheduler_run update_priority next_pid
switch_runs = refl

fork_runs : (scheduler_fork regs two).0 ≡ 2
unfolding scheduler_fork new_pid
fork_runs = refl

child_runs : (scheduler_run regs (scheduler_fork regs two).1).1.current ≡ 2
unfolding scheduler_run scheduler_fork update_priority next_pid new_pid
child_runs = refl

entry-update_priority_example : entry (update_priority two).pcb 0 ≡ aged two 0
entry-update_priority_example = entry-update_priority two refl (omega arith) refl 0 (omega arith)

first_chosen :
    ((next_pid (program ∷ []) ≡ 0) × NoneAbove 0 (program ∷ []))
    ⊎ IsFirstHighest 0 (program ∷ []) (next_pid (program ∷ []))
first_chosen = next_pid-Chosen (program ∷ [])

scheduler_run_lem_example : Switched regs two (scheduler_run regs two).0 (scheduler_run regs two).1
scheduler_run_lem_example = scheduler_run_lem regs two-IsValid

scheduler_fork_lem_example :
    Refused two (scheduler_fork regs two).0 (scheduler_fork regs two).1
    ⊎ Forked regs two (scheduler_fork regs two).0 (scheduler_fork regs two).1
scheduler_fork_lem_example = scheduler_fork_lem regs two-IsValid

-- All other entries stay far below the child's priority.
two_low :
    (j : ℕ)
    → j < table_size
    → j ≢ (scheduler_fork regs two).0
    → (aged (scheduler_fork regs two).1 j).running ≡ true
    → (aged (scheduler_fork regs two).1 j).priority_curr
      < fork_priority + (current_pcb two).priority_init
unfolding scheduler_fork new_pid
two_low zero l ne r = omega arith
two_low (suc zero) l ne r = omega arith
two_low (suc (suc zero)) l ne r = absurd (ne refl)
two_low (suc (suc (suc i))) l ne r = ground (arith, free 27 i)

fork-then_run_example :
    (scheduler_run regs (scheduler_fork regs two).1).1.current ≡ (scheduler_fork regs two).0
fork-then_run_example =
    fork-then_run regs regs two-IsValid refl (unfold scheduler_fork new_pid in omega arith)
      (omega arith) two_low

kill-then_run_example : (scheduler_run regs (scheduler_kill 1 0 two).1).1.current ≢ 1
kill-then_run_example = kill-then_run regs 1 0 two-IsValid (omega arith) (omega arith)

kill_all-then_run_example :
    (entry (scheduler_kill minus_one 0 two).1.pcb 0 ≡ entry two.pcb 0)
    × ((entry (scheduler_kill minus_one 0 two).1.pcb 1).running ≡ false)
    × ((scheduler_run regs (scheduler_kill minus_one 0 two).1).1.current ≡ 0)
kill_all-then_run_example = kill_all-then_run regs 1 0 two-IsValid (omega arith) (omega arith)

scheduler_exit_lem_example :
    ((scheduler_exit regs two).0 ≡ (entry two.pcb 0).ctx)
    × ((scheduler_exit regs two).1.current ≡ 0)
    × ((scheduler_run regs (scheduler_exit regs two).1).1.current ≢ 1)
scheduler_exit_lem_example = scheduler_exit_lem regs regs two-IsValid (omega arith) refl

-- Only the program runs.
abbrev alone : Sched
alone = record two { pcb = record console { running = false } ∷ program ∷ replicate 28 zero_pcb }

alone-owned :
    (i : ℕ)
    → i < table_size
    → ((entry alone.pcb i).pid ≡ i)
      ⊎ (((entry alone.pcb i).pid ≡ 0) × ((entry alone.pcb i).running ≡ false))
alone-owned zero l = inl refl
alone-owned (suc zero) l = inl refl
alone-owned (suc (suc i)) l = inr (free 28 i)

alone-IsValid : IsValid alone
alone-IsValid = record {
  size = refl;
  current_in = omega arith;
  current_own = refl;
  owned = alone-owned;
}

alone_low :
    (j : ℕ)
    → j < table_size
    → j ≢ 1
    → (aged alone j).running ≡ true
    → (aged alone j).priority_curr < 3
alone_low zero l ne r = absurd (cc r)
alone_low (suc zero) l ne r = absurd (ne refl)
alone_low (suc (suc i)) l ne r = ground (arith, free 28 i)

failed_exit_runs_on : (scheduler_run regs (scheduler_exit (set_reg regs 0 1) alone).1).1.current ≡ 1
failed_exit_runs_on =
    exit_failure_goes_on (set_reg regs 0 1) regs alone-IsValid (omega arith) refl (omega arith)
      alone_low

two-inits :
    (j : ℕ)
    → j < table_size
    → (entry two.pcb j).running ≡ true
    → (entry two.pcb j).priority_init ≤ 3
two-inits zero l r = omega arith
two-inits (suc zero) l r = omega arith
two-inits (suc (suc j)) l r = absurd (cc ((free 28 j).1, r))

two-bounded :
    (j : ℕ)
    → j < table_size
    → (entry two.pcb j).running ≡ true
    → (entry two.pcb j).priority_curr ≤ 3
two-bounded zero l r = omega arith
two-bounded (suc zero) l r = omega arith
two-bounded (suc (suc j)) l r = absurd (cc ((free 28 j).1, r))

two-Waits : Waits 0 3 3 two
two-Waits = record {
  valid = two-IsValid;
  inside = omega arith;
  runs = refl;
  starts = omega arith;
  inits = two-inits;
  bounded = two-bounded;
}

scheduler_run_turn_example : (k : ℕ) × (k ≤ 32 * 3 + 31) × ((run_for k (λ n. regs) two).current ≡ 0)
scheduler_run_turn_example = scheduler_run_turn 0 3 3 (λ n. regs) two two-Waits (omega arith)
