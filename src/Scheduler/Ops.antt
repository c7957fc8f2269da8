-- ===== src/Scheduler/Ops.antt =====
-- What the calls of kernel/scheduler.c do to a valid process table, on every branch.
use armcortex_a7os.Base.{
  ℕ, ◌≡◌, refl, sym, ◌≢◌, ◌⊎◌, inl, inr, true, false, get_or-set, ◌==◌, ==_self, ==_ne, minus_one,
  arith, sub32,
}
use armcortex_a7os.Scheduler.{
  Ctx, Pcb, Sched, stack_size, fork_priority, zero_pcb, entry, current_pcb, set_reg, new_pid,
  scheduler_fork,
}
use armcortex_a7os.Scheduler.Choice.{AllRunning, IsFirstFree, new_pid_lem}
use armcortex_a7os.Scheduler.Inv.{IsValid}

-- The entry that `fork` makes at the index `k`.
abbrev pub child_of : Ctx → Sched → ℕ → Pcb
child_of ctx s k = record (current_pcb s) {
  ctx = record (set_reg ctx 0 0) { cpsr = 0x50; sp = s.current_tos_user };
  pid = k;
  pid_parent = (current_pcb s).pid;
  running = true;
  priority_curr = fork_priority;
}

-- `fork` on a valid table: either all entries run, the result is -1 and the table, the current
-- process and the stack space stay as they are; or the result is the lowest free index `k`, the
-- entry there becomes the child of the current process, every other entry and the current process
-- stay, and the child has the old top of the stack space, which moves down by `stack_size`.
pub record Forked (ctx : Ctx) (s : Sched) (r : ℕ) (s' : Sched) : Type 0 where
  pub slot : IsFirstFree s.pcb r
  pub child : entry s'.pcb r ≡ child_of ctx s r
  pub others : (j : ℕ) → j ≢ r → entry s'.pcb j ≡ entry s.pcb j
  pub same_current : s'.current ≡ s.current
  pub stack : s'.current_tos_user ≡ sub32 s.current_tos_user stack_size

pub record Refused (s : Sched) (r : ℕ) (s' : Sched) : Type 0 where
  pub full_table : AllRunning s.pcb
  pub result : r ≡ minus_one
  pub same_table : s'.pcb ≡ s.pcb
  pub same_current : s'.current ≡ s.current
  pub same_stack : s'.current_tos_user ≡ s.current_tos_user

fork-Forked :
    {s : Sched} (ctx : Ctx)
    → IsValid s
    → IsFirstFree s.pcb (new_pid s)
    → (new_pid s == minus_one) ≡ false
    → Forked ctx s (scheduler_fork ctx s).0 (scheduler_fork ctx s).1
unfolding scheduler_fork
fork-Forked {s} ctx v f e = rw e (record {
  slot = f;
  child = rw (
    get_or-set s.pcb (new_pid s) (new_pid s) (child_of ctx s (new_pid s)) zero_pcb f.inside,
    ==_self (new_pid s),
  );
  others = λ j ne. rw (
    get_or-set s.pcb (new_pid s) j (child_of ctx s (new_pid s)) zero_pcb f.inside,
    ==_ne (new_pid s) j (λ q. ne (sym q)),
  );
  same_current = refl;
  stack = refl;
})

pub scheduler_fork_lem :
    {s : Sched} (ctx : Ctx)
    → IsValid s
    → Refused s (scheduler_fork ctx s).0 (scheduler_fork ctx s).1
      ⊎ Forked ctx s (scheduler_fork ctx s).0 (scheduler_fork ctx s).1
scheduler_fork_lem {s} ctx v = elim (new_pid_lem s) [
  | inl (e, a) ↦ inl (
      unfold scheduler_fork in
      rw e (record {
        full_table = a;
        result = refl;
        same_table = refl;
        same_current = refl;
        same_stack = refl;
      }))
  | inr f ↦
      inr (fork-Forked ctx v f (==_ne (new_pid s) minus_one (omega (arith, f.inside, v.size))))
]
