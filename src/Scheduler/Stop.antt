-- ===== src/Scheduler/Stop.antt =====
-- Start and end of processes: `scheduler_initialise`, `scheduler_exit` and `scheduler_kill` of
-- kernel/scheduler.c, and that the next switch does not run what was stopped.
use armcortex_a7os.Base.{
  ℕ, zero, suc, ◌<◌, ◌≡◌, refl, sym, ◌∙◌, ap, ◌≢◌, inl, inr, true, false, List, [], ◌∷◌, length,
  get_or-set, ==_self, ==_ne, Bool-cases, ℕ_discrete, minus_one, arith,
}
use armcortex_a7os.Scheduler.{
  Ctx, Pcb, Sched, Image, table_size, zero_ctx, zero_pcb, entry, current_pcb, reg, clear,
  scheduler_initialise, scheduler_run, scheduler_exit, kill_one, scheduler_kill,
}
use armcortex_a7os.Scheduler.Aging.{aged}
use armcortex_a7os.Scheduler.Inv.{
  IsValid, scheduler_kill-IsValid, scheduler_exit-IsValid, scheduler_run-IsValid, entry-kill_all,
}
use armcortex_a7os.Scheduler.Run.{highest_next, parked-keeps, scheduler_run_lem}

running-aged : (s : Sched) (k : ℕ) → (aged s k).running ≡ (entry s.pcb k).running
running-aged s k = ground arith

-- A process other than the console that does not run is not what the next switch runs.
pub stopped_not_next :
    {s : Sched} (ctx : Ctx) (k : ℕ)
    → IsValid s
    → k ≢ 0
    → k < table_size
    → (entry s.pcb k).running ≡ false
    → (scheduler_run ctx s).1.current ≢ k
stopped_not_next {s} ctx k v nz l off q =
    let sw = scheduler_run_lem ctx v in
    elim sw.chosen [
      | inl (e, n) ↦ nz (sym q ∙ e)
      | inr g ↦ cc (
        g.runs,
        ap (λ (i : ℕ). (entry (scheduler_run ctx s).1.pcb i).running) q,
        ap (λ (p : Pcb). p.running) (sw.table k l),
        (parked-keeps ctx s k).0,
        running-aged s k,
        off,
      )
    ]

-- The first entry with the pid is found and stopped.
kill_one-stops :
    (pid : ℕ) (t : List Pcb) (k : ℕ)
    → k < length t
    → (entry t k).pid ≡ pid
    → ((j : ℕ) → j < k → (entry t j).pid ≢ pid)
    → ((kill_one pid t).0 ≡ true) × ((entry (kill_one pid t).1 k).running ≡ false)
unfolding kill_one
kill_one-stops pid [] k l e h = absurd (omega arith)
kill_one-stops pid (p ∷ ps) zero l e h = rw (e, ==_self pid) (refl, refl)
kill_one-stops pid (p ∷ ps) (suc k) l e h =
    rw (==_ne p.pid pid (h 0 (omega arith)))
      (kill_one-stops pid ps k (omega arith) e (λ j m. h (suc j) (omega arith)))

-- An entry that does not run is not started.
kill_one-off :
    (pid : ℕ) (t : List Pcb) (k : ℕ)
    → (entry t k).running ≡ false
    → (entry (kill_one pid t).1 k).running ≡ false
unfolding kill_one
kill_one-off pid [] k h = refl
kill_one-off pid (p ∷ ps) zero h = ground arith
kill_one-off pid (p ∷ ps) (suc k) h = ground (arith, kill_one-off pid ps k)

-- In a valid table the entry of a killed pid, other than the console's, does not run afterwards.
kill_one-entry :
    {s : Sched} (pid : ℕ)
    → IsValid s
    → pid ≢ 0
    → pid < table_size
    → ((kill_one pid s.pcb).0 ≡ true → (entry (kill_one pid s.pcb).1 pid).running ≡ false)
      × ((kill_one pid s.pcb).0 ≡ false → (entry s.pcb pid).running ≡ false)
kill_one-entry {s} pid v nz l = elim (v.owned pid l) [
  | inl e ↦
      let (f, off) =
        kill_one-stops pid s.pcb pid (omega (arith, v.size)) e
          (λ j m q. ground (arith, v.owned j (omega arith))) in
      (λ _. off, λ h. cc)
  | inr (e, off) ↦ (λ _. kill_one-off pid s.pcb pid off, λ _. off)
]

pub scheduler_kill-entry :
    {s : Sched} (pid sig : ℕ)
    → IsValid s
    → pid ≢ 0
    → pid < table_size
    → (entry (scheduler_kill pid sig s).1.pcb pid).running ≡ false
unfolding scheduler_kill
scheduler_kill-entry {s} pid sig v nz l =
    let (a, b) = kill_one-entry pid v nz l in
    rw (==_ne pid minus_one (omega arith))
      (elim (Bool-cases (kill_one pid s.pcb).0) [ inl e ↦ rw e (a e) | inr e ↦ rw e (b e) ])

-- From a valid table, whatever pid other than 0 is killed, the next switch runs another process.
pub kill-then_run :
    {s : Sched} (ctx : Ctx) (pid sig : ℕ)
    → IsValid s
    → pid ≢ 0
    → pid < table_size
    → (scheduler_run ctx (scheduler_kill pid sig s).1).1.current ≢ pid
kill-then_run ctx pid sig v nz l =
    stopped_not_next ctx pid (scheduler_kill-IsValid pid sig v) nz l
      (scheduler_kill-entry pid sig v nz l)

kill_all-entry :
    {s : Sched} (k sig : ℕ)
    → IsValid s
    → k ≢ 0
    → k < table_size
    → (entry (scheduler_kill minus_one sig s).1.pcb k).running ≡ false
unfolding scheduler_kill
kill_all-entry {s} k sig v nz l = ground (arith, entry-kill_all s.pcb k, v.owned k l)

kill_all-console :
    {s : Sched} (sig : ℕ)
    → IsValid s
    → entry (scheduler_kill minus_one sig s).1.pcb 0 ≡ entry s.pcb 0
unfolding scheduler_kill
kill_all-console {s} sig v = ground (arith, entry-kill_all s.pcb 0, v.owned 0 (omega arith))

-- From a valid table, `kill( -1, sig )` leaves the console alone to run: its entry is as it was, no
-- other entry runs, and the next switch makes the console current.
pub kill_all-then_run :
    {s : Sched} (ctx : Ctx) (k sig : ℕ)
    → IsValid s
    → k ≢ 0
    → k < table_size
    → (entry (scheduler_kill minus_one sig s).1.pcb 0 ≡ entry s.pcb 0)
      × ((entry (scheduler_kill minus_one sig s).1.pcb k).running ≡ false)
      × ((scheduler_run ctx (scheduler_kill minus_one sig s).1).1.current ≡ 0)
kill_all-then_run {s} ctx k sig v nz l =
    let w = scheduler_kill-IsValid minus_one sig v in
    let c = (scheduler_run ctx (scheduler_kill minus_one sig s).1).1.current in
    let lc : c < table_size = (scheduler_run-IsValid ctx w).current_in in
    (
      kill_all-console sig v,
      kill_all-entry k sig v nz l,
      elim (ℕ_discrete c 0) [
        | yes q ↦ q
        | no ne ↦ absurd (stopped_not_next ctx c w ne lc (kill_all-entry c sig v ne lc) refl)
      ],
    )

-- From a valid table, `exit` with the code 0 in a process other than the console loads the console's
-- saved registers and makes it current, and the next switch does not run the process that ended.
pub scheduler_exit_lem :
    {s : Sched} (ctx ctx' : Ctx)
    → IsValid s
    → s.current ≢ 0
    → reg ctx 0 ≡ 0
    → ((scheduler_exit ctx s).0 ≡ (entry s.pcb 0).ctx)
      × ((scheduler_exit ctx s).1.current ≡ 0)
      × ((scheduler_run ctx' (scheduler_exit ctx s).1).1.current ≢ s.current)
scheduler_exit_lem {s} ctx ctx' v nz z = (
  unfold scheduler_exit in
      rw (z, get_or-set s.pcb s.current 0 stopped zero_pcb here, ==_ne s.current 0 nz),
  unfold scheduler_exit in rw z,
  stopped_not_next ctx' s.current (scheduler_exit-IsValid ctx v) nz v.current_in (
      unfold scheduler_exit in
      rw (z, get_or-set s.pcb s.current s.current stopped zero_pcb here, ==_self s.current)),
)
  where
    here : s.current < length s.pcb
    here = omega (arith, v.size, v.current_in)

    stopped : Pcb
    stopped = record (current_pcb s) { running = false }

exit_refused : (ctx : Ctx) (s : Sched) → reg ctx 0 ≢ 0 → scheduler_exit ctx s ≡ (ctx, s)
unfolding scheduler_exit
exit_refused ctx s n = rw (==_ne (reg ctx 0) 0 n)

-- `exit` with a code other than 0 does not end the process: from a valid table whose current process
-- runs with the highest priority after ageing, the next switch runs it again.
pub exit_failure_goes_on :
    {s : Sched} (ctx ctx' : Ctx)
    → IsValid s
    → reg ctx 0 ≢ 0
    → (current_pcb s).running ≡ true
    → 0 < (current_pcb s).priority_init
    → ((j : ℕ)
        → j < table_size
        → j ≢ s.current
        → (aged s j).running ≡ true
        → (aged s j).priority_curr < (current_pcb s).priority_init)
    → (scheduler_run ctx' (scheduler_exit ctx s).1).1.current ≡ s.current
exit_failure_goes_on {s} ctx ctx' v n run pos h = rw (exit_refused ctx s n) (
    highest_next ctx' s.current (current_pcb s).priority_init v v.current_in pos
      (running-aged s s.current ∙ run) (rw (==_self s.current)) h)

entry-clear : (t : List Pcb) (i : ℕ) → entry (clear t) i ≡ zero_pcb
unfolding clear
entry-clear [] i = refl
entry-clear (p ∷ ps) zero = refl
entry-clear (p ∷ ps) (suc i) = entry-clear ps i

length-clear : (t : List Pcb) → length (clear t) ≡ length t
unfolding clear
length-clear [] = refl
length-clear (p ∷ ps) = ap suc (length-clear ps)

-- The console as it is set up, with its stack at `sp`.
abbrev pub first_console : Image → ℕ → Pcb
first_console im sp = record {
  pid = 0;
  pid_parent = 0;
  ctx = record zero_ctx { cpsr = 0x50; pc = im.main_console; sp = sp };
  running = true;
  priority_init = 2;
  priority_curr = 2;
}

-- A table where the console, as it is set up, is current, and no other entry is in use.
pub record Started (im : Image) (sp : ℕ) (r : Ctx × Sched) : Type 0 where
  pub valid : IsValid r.1
  pub current : r.1.current ≡ 0
  pub console : entry r.1.pcb 0 ≡ first_console im sp
  pub loaded : r.0 ≡ (first_console im sp).ctx
  pub rest : (k : ℕ) → entry r.1.pcb (suc k) ≡ zero_pcb

initialise_table :
    (im : Image) (t : List Pcb) (s : Sched)
    → s.pcb ≡ t
    → length t ≡ table_size
    → Started im s.current_tos_user (scheduler_initialise im s)
unfolding scheduler_initialise
initialise_table im [] s q e = absurd (omega arith)
initialise_table im (p ∷ ps) s q e = rw q (record {
  valid = record {
    size = omega (arith, length-clear ps);
    current_in = omega arith;
    current_own = refl;
    owned = elim [ zero ↦ λ l. inl refl | suc i ↦ λ l. inr (rw (entry-clear ps i) (refl, refl)) ];
  };
  current = refl;
  console = refl;
  loaded = refl;
  rest = entry-clear ps;
})

pub scheduler_initialise-IsValid :
    (im : Image) (s : Sched)
    → length s.pcb ≡ table_size
    → Started im s.current_tos_user (scheduler_initialise im s)
scheduler_initialise-IsValid im s e = initialise_table im s.pcb s refl e
