-- ===== src/Scheduler.antt =====
-- The process table and its scheduler: kernel/scheduler.h and kernel/scheduler.c.
-- A pointer into `pcb` is an index. What the linker decides, the address of the console's entry
-- point and the top of the user stacks, is the record `Image`.
pub mod Aging
pub mod Choice
pub mod Inv
pub mod Ops
pub mod Run
pub mod Fair
pub mod Turns
pub mod Stop
mod Tests
use armcortex_a7os.Base.{
  ℕ, zero, suc, ◌+◌, ◌-◌, ◌%◌, Bool, true, false, not, ◌&&◌, List, [], ◌∷◌, String, get_or, set,
  replicate, ltb, ◌==◌, if◌then◌else◌, add32, sub32, minus_one,
}

abbrev pub table_size : ℕ
table_size = 30

abbrev pub fork_priority : ℕ
fork_priority = 4194304

abbrev pub stack_size : ℕ
stack_size = 5000

-- `ctx_t`: the registers of a process in user mode.
pub record Ctx : Type 0 where
  pub cpsr : ℕ
  pub pc : ℕ
  pub gpr : List ℕ
  pub sp : ℕ
  pub lr : ℕ

-- `pcb_t`
pub record Pcb : Type 0 where
  pub pid : ℕ
  pub pid_parent : ℕ
  pub ctx : Ctx
  pub running : Bool
  pub priority_init : ℕ
  pub priority_curr : ℕ

-- What `memset( &pcb[ i ], 0, sizeof( pcb_t ) )` leaves.
abbrev pub zero_ctx : Ctx
zero_ctx = record { cpsr = 0; pc = 0; gpr = replicate 13 0; sp = 0; lr = 0 }

abbrev pub zero_pcb : Pcb
zero_pcb = record {
  pid = 0;
  pid_parent = 0;
  ctx = zero_ctx;
  running = false;
  priority_init = 0;
  priority_curr = 0;
}

pub record Image : Type 0 where
  pub main_console : ℕ
  pub tos_user : ℕ

-- The static variables, and the messages printed on UART0, newest first.
pub record Sched : Type 0 where
  pub pcb : List Pcb
  pub current : ℕ
  pub current_tos_user : ℕ
  pub out : List String

abbrev pub entry : List Pcb → ℕ → Pcb
entry t i = get_or t i zero_pcb

abbrev pub current_pcb : Sched → Pcb
current_pcb s = entry s.pcb s.current

abbrev pub reg : Ctx → ℕ → ℕ
reg c i = get_or c.gpr i 0

abbrev pub set_reg : Ctx → ℕ → ℕ → Ctx
set_reg c i v = record c { gpr = set c.gpr i v }

-- The old top of the stack space is returned, and the next stack starts `size` bytes lower.
unfoldable pub set_user_stack : ℕ → Sched → ℕ × Sched
set_user_stack size s =
    (s.current_tos_user, record s { current_tos_user = sub32 s.current_tos_user size })

-- `new_pid` from index `i` on.
unfoldable pub new_pid_from : ℕ → List Pcb → ℕ
new_pid_from i [] = minus_one
new_pid_from i (p ∷ ps) = let rest = new_pid_from (i + 1) ps in if not p.running then i else rest

unfoldable pub new_pid : Sched → ℕ
unfolding new_pid_from
new_pid s = new_pid_from 0 s.pcb

unfoldable pub scheduler_get_pid : Sched → ℕ
scheduler_get_pid s = (current_pcb s).pid

unfoldable pub scheduler_get_pid_parent : Sched → ℕ
scheduler_get_pid_parent s = (current_pcb s).pid_parent

unfoldable pub clear : List Pcb → List Pcb
clear [] = []
clear (p ∷ ps) = zero_pcb ∷ clear ps

-- The loop that clears the entries from index 1 on.
unfoldable pub clear_rest : List Pcb → List Pcb
clear_rest [] = []
clear_rest (p ∷ ps) = p ∷ clear ps

unfoldable pub scheduler_initialise : Image → Sched → Ctx × Sched
unfolding set_user_stack clear clear_rest
scheduler_initialise im s =
    let (sp, s') = set_user_stack stack_size s in
    let console : Pcb = record {
      pid = 0;
      pid_parent = 0;
      ctx = record zero_ctx { cpsr = 0x50; pc = im.main_console; sp = sp };
      running = true;
      priority_init = 2;
      priority_curr = 2;
    } in
    (console.ctx, record s' { pcb = clear_rest (set s'.pcb 0 console); current = 0 })

-- `next_pid` from index `i` on, with the highest priority met so far and its index.
unfoldable pub next_pid_from : ℕ → ℕ → ℕ → List Pcb → ℕ
next_pid_from i highest next [] = next
next_pid_from i highest next (p ∷ ps) =
    next_pid_from (i + 1) (if better then p.priority_curr else highest) (if better then i else next)
      ps
  where
    better : Bool
    better = p.running && ltb highest p.priority_curr

unfoldable pub next_pid : List Pcb → ℕ
unfolding next_pid_from
next_pid t = next_pid_from 0 0 0 t

-- One round of the loop of `update_priority`, at the index `pid_next`.
unfoldable pub raise_priority : ℕ → List Pcb → List Pcb
raise_priority i t =
    let p = entry t i in
    if p.running
    then set t i (record p { priority_curr = add32 p.priority_curr p.priority_init })
    else t

-- `for( i = i; i < i + n; i++ )` over the table, taken round.
unfoldable pub raise_from : ℕ → ℕ → List Pcb → List Pcb
raise_from zero i t = t
raise_from (suc n) i t = raise_from n (i + 1) (raise_priority (i % table_size) t)

unfoldable pub update_priority : Sched → Sched
unfolding raise_priority raise_from
update_priority s =
    let t = raise_from (table_size - 1) ((current_pcb s).pid + 1) s.pcb in
    let p = entry t s.current in
    record s { pcb = set t s.current (record p { priority_curr = p.priority_init }) }

-- The context of the current process is saved, and that of the next one is loaded.
unfoldable pub scheduler_run : Ctx → Sched → Ctx × Sched
scheduler_run ctx s =
    let s' = update_priority s in
    let next = next_pid s'.pcb in
    let t = set s'.pcb s'.current (record (current_pcb s') { ctx = ctx }) in
    ((entry t next).ctx, record s' { pcb = t; current = next })

unfoldable pub scheduler_fork : Ctx → Sched → ℕ × Sched
unfolding set_user_stack
scheduler_fork ctx s =
    let new = new_pid s in
    let (sp, s') = set_user_stack stack_size s in
    let child : Pcb = record (current_pcb s) {
      ctx = record (set_reg ctx 0 0) { cpsr = 0x50; sp = sp };
      pid = new;
      pid_parent = (current_pcb s).pid;
      running = true;
      priority_curr = fork_priority;
    } in
    if new == minus_one
    then (new, record s { out = "SCHEDULER: Maximum processes already running\n" ∷ s.out })
    else (child.pid, record s' { pcb = set s'.pcb new child })

unfoldable pub scheduler_exec : Ctx → Sched → Ctx × Sched
scheduler_exec ctx s =
    let p = current_pcb s in
    let q : Pcb = record p {
      ctx = record (p.ctx) { pc = reg ctx 0 };
      priority_init = reg ctx 1;
      priority_curr = reg ctx 1;
    } in
    (q.ctx, record s { pcb = set s.pcb s.current q })

unfoldable pub scheduler_exit : Ctx → Sched → Ctx × Sched
scheduler_exit ctx s =
    let t = set s.pcb s.current (record (current_pcb s) { running = false }) in
    if reg ctx 0 == 0 then ((entry t 0).ctx, record s { pcb = t; current = 0 }) else (ctx, s)

-- The loop of `kill( -1, sig )`.
unfoldable pub kill_all : List Pcb → List Pcb
kill_all [] = []
kill_all (p ∷ ps) = (if p.pid == 0 then p else record p { running = false }) ∷ kill_all ps

-- The loop of `kill( pid, sig )`: the first entry with that pid, if there is one.
unfoldable pub kill_one : ℕ → List Pcb → Bool × List Pcb
kill_one pid [] = (false, [])
kill_one pid (p ∷ ps) =
    let (found, ps') = kill_one pid ps in
    if p.pid == pid then (true, record p { running = false } ∷ ps) else (found, p ∷ ps')

abbrev pub kill_success : ℕ
kill_success = 0

abbrev pub kill_failure : ℕ
kill_failure = 1

-- `sig` is not read.
unfoldable pub scheduler_kill : ℕ → ℕ → Sched → ℕ × Sched
scheduler_kill pid sig s =
    let (found, t) = kill_one pid s.pcb in
    if pid == minus_one
    then (kill_success, record s { pcb = kill_all s.pcb })
    else if found
    then (kill_success, record s { pcb = t })
    else (kill_failure, s)
