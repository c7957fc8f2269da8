-- ===== src/Scheduler/Run.antt =====
-- What `scheduler_run` of kernel/scheduler.c does: the process that leaves the processor keeps its
-- registers in the table, and the next one is the first of the highest priority.
use armcortex_a7os.Base.{
  ℕ, ◌+◌, ◌^◌, ◌<◌, ◌≡◌, refl, sym, ◌∙◌, ap, ◌≢◌, ◌⊎◌, inl, inr, true, List, length, set,
  length-set, get_or-set, ◌==◌, ==_self, ==_ne, if◌then◌else◌, ℕ_discrete, minus_one, arith,
}
use armcortex_a7os.Scheduler.{
  Ctx, Pcb, Sched, table_size, fork_priority, zero_pcb, entry, current_pcb, update_priority,
  scheduler_run, scheduler_fork,
}
use armcortex_a7os.Scheduler.Aging.{aged, entry-update_priority}
use armcortex_a7os.Scheduler.Choice.{IsFirstHighest, NoneAbove, next_pid-Chosen}
use armcortex_a7os.Scheduler.Inv.{
  IsValid, update_priority-IsValid, scheduler_fork-IsValid, scheduler_run-IsValid,
}
use armcortex_a7os.Scheduler.Ops.{Forked, scheduler_fork_lem}

-- The entry at `k` after the switch: aged, and with the saved registers if it was the current one.
abbrev pub parked : Ctx → Sched → ℕ → Pcb
parked ctx s k = if k == s.current then record (aged s k) { ctx = ctx } else aged s k

-- Two tables that agree on who runs and on the current priorities.
record SameRace (t u : List Pcb) : Type 0 where
  size : length t ≡ length u
  runs : (j : ℕ) → (entry u j).running ≡ (entry t j).running
  priority : (j : ℕ) → (entry u j).priority_curr ≡ (entry t j).priority_curr

NoneAbove-same : {t u : List Pcb} (b c : ℕ) → SameRace t u → b ≡ c → NoneAbove b t → NoneAbove c u
NoneAbove-same b c r e n j h = omega (arith, r.priority j, n j (sym (r.runs j) ∙ h))

IsFirstHighest-same :
    {t u : List Pcb} (k : ℕ) → SameRace t u → IsFirstHighest 0 t k → IsFirstHighest 0 u k
IsFirstHighest-same k r f = record {
  inside = omega (arith, r.size, f.inside);
  runs = r.runs k ∙ f.runs;
  above = omega (arith, r.priority k, f.above);
  highest = NoneAbove-same _ _ r (sym (r.priority k)) f.highest;
  first = λ j l h. omega (arith, r.priority j, r.priority k, f.first j l (sym (r.runs j) ∙ h));
}

SameRace-set :
    (t : List Pcb) (k : ℕ) (ctx : Ctx)
    → k < length t
    → SameRace t (set t k (record (entry t k) { ctx = ctx }))
SameRace-set t k ctx l = record {
  size = sym (length-set t k _);
  runs = λ j. ground (arith, get_or-set t k j (record (entry t k) { ctx = ctx }) zero_pcb);
  priority = λ j. ground (arith, get_or-set t k j (record (entry t k) { ctx = ctx }) zero_pcb);
}

-- The outcome of a switch from `s` with the registers `ctx`.
pub record Switched (ctx : Ctx) (s : Sched) (ctx' : Ctx) (s' : Sched) : Type 0 where
  pub table : (k : ℕ) → k < table_size → entry s'.pcb k ≡ parked ctx s k
  pub loaded : ctx' ≡ (current_pcb s').ctx
  pub chosen : ((s'.current ≡ 0) × NoneAbove 0 s'.pcb) ⊎ IsFirstHighest 0 s'.pcb s'.current

module _ {s : Sched} (ctx : Ctx) (v : IsValid s) where
  current-update_priority : (update_priority s).current ≡ s.current
  unfolding update_priority
  current-update_priority = refl

  saved : List Pcb
  saved =
      set (update_priority s).pcb (update_priority s).current
        (record (current_pcb (update_priority s)) { ctx = ctx })

  inside : (update_priority s).current < length (update_priority s).pcb
  inside = let w = update_priority-IsValid v in omega (arith, w.size, w.current_in)

  race : SameRace (update_priority s).pcb saved
  unfolding saved
  race = SameRace-set (update_priority s).pcb (update_priority s).current ctx inside

  entry-saved : (k : ℕ) → k < table_size → entry saved k ≡ parked ctx s k
  unfolding saved
  entry-saved k l = elim (ℕ_discrete k s.current) [
    | yes q ↦ rw (
      get_or-set (update_priority s).pcb (update_priority s).current k
          (record (current_pcb (update_priority s)) { ctx = ctx }) zero_pcb inside,
      current-update_priority,
      q,
      ==_self s.current,
      entry-update_priority s v.size v.current_in v.current_own s.current v.current_in,
      ==_self s.current,
    )
    | no ne ↦ rw (
      get_or-set (update_priority s).pcb (update_priority s).current k
          (record (current_pcb (update_priority s)) { ctx = ctx }) zero_pcb inside,
      current-update_priority,
      ==_ne k s.current ne,
      ==_ne s.current k (λ q. ne (sym q)),
      entry-update_priority s v.size v.current_in v.current_own k l,
      ==_ne k s.current ne,
    )
  ]

  -- From a valid table, the switch ages every entry once, keeps the registers of the process that
  -- leaves in its entry, and loads those of the lowest index among the running processes of the
  -- highest priority after ageing; if no running process has a priority above 0 it loads entry 0.
  pub scheduler_run_lem : Switched ctx s (scheduler_run ctx s).0 (scheduler_run ctx s).1
  unfolding scheduler_run saved
  scheduler_run_lem = record {
    table = entry-saved;
    loaded = refl;
    chosen = elim (next_pid-Chosen (update_priority s).pcb) [
      | inl (e, n) ↦ inl (e, NoneAbove-same 0 0 race refl n)
      | inr f ↦ inr (IsFirstHighest-same _ race f)
    ];
  }

pub parked-keeps :
    (ctx : Ctx) (s : Sched) (k : ℕ)
    → ((parked ctx s k).running ≡ (aged s k).running)
      × ((parked ctx s k).priority_curr ≡ (aged s k).priority_curr)
parked-keeps ctx s k = ground arith

length-scheduler_run :
    {s : Sched} (ctx : Ctx) → IsValid s → length (scheduler_run ctx s).1.pcb ≡ table_size
length-scheduler_run ctx v = (scheduler_run-IsValid ctx v).size

-- A waiting process that runs and whose aged priority `b` is above those of all others is next.
pub highest_next :
    {s : Sched} (ctx : Ctx) (r b : ℕ)
    → IsValid s
    → r < table_size
    → 0 < b
    → (aged s r).running ≡ true
    → (aged s r).priority_curr ≡ b
    → ((j : ℕ) → j < table_size → j ≢ r → (aged s j).running ≡ true → (aged s j).priority_curr < b)
    → (scheduler_run ctx s).1.current ≡ r
highest_next {s} ctx r b v l pb run prio h =
    let sw = scheduler_run_lem ctx v in
    let t = (scheduler_run ctx s).1.pcb in
    let er = sw.table r l in
    let run' : (entry t r).running ≡ true =
      ap (λ (p : Pcb). p.running) er ∙ (parked-keeps ctx s r).0 ∙ run in
    let prio' : (entry t r).priority_curr ≡ b =
      ap (λ (p : Pcb). p.priority_curr) er ∙ (parked-keeps ctx s r).1 ∙ prio in
    elim sw.chosen [
      | inl (e, n) ↦ absurd (omega (arith, n r run', prio'))
      | inr g ↦ elim (ℕ_discrete (scheduler_run ctx s).1.current r) [
        | yes q ↦ q
        | no ne ↦
            let c = (scheduler_run ctx s).1.current in
            let lc : c < table_size = omega (arith, g.inside, length-scheduler_run ctx v) in
            let ec = sw.table c lc in
            absurd (
              omega (
                arith,
                g.highest r run',
                prio',
                h c lc ne
                    (sym (parked-keeps ctx s c).0 ∙ sym (ap (λ (p : Pcb). p.running) ec) ∙ g.runs),
                ap (λ (p : Pcb). p.priority_curr) ec,
                (parked-keeps ctx s c).1,
              ))
      ]
    ]

aged_child :
    {s s' : Sched} (ctx : Ctx) (r : ℕ)
    → Forked ctx s r s'
    → r ≢ s'.current
    → fork_priority + (current_pcb s).priority_init < 2 ^ 32
    → ((aged s' r).running ≡ true)
      × ((aged s' r).priority_curr ≡ fork_priority + (current_pcb s).priority_init)
aged_child {s} {s'} ctx r f ne w = rw (==_ne r s'.current ne, f.child) (refl, omega arith)

-- From a valid table whose current process runs, a `fork` that succeeds makes the child the process
-- that the next switch runs, if ageing does not wrap the child's priority and no other running
-- process comes to as high a one.
pub fork-then_run :
    {s : Sched} (ctx ctx' : Ctx)
    → IsValid s
    → (current_pcb s).running ≡ true
    → (scheduler_fork ctx s).0 ≢ minus_one
    → fork_priority + (current_pcb s).priority_init < 2 ^ 32
    → ((j : ℕ)
        → j < table_size
        → j ≢ (scheduler_fork ctx s).0
        → (aged (scheduler_fork ctx s).1 j).running ≡ true
        → (aged (scheduler_fork ctx s).1 j).priority_curr
          < fork_priority + (current_pcb s).priority_init)
    → (scheduler_run ctx' (scheduler_fork ctx s).1).1.current ≡ (scheduler_fork ctx s).0
fork-then_run {s} ctx ctx' v busy some_child w h = elim (scheduler_fork_lem ctx v) [
  | inl n ↦ absurd (some_child n.result)
  | inr f ↦
      let s' = (scheduler_fork ctx s).1 in
      let r = (scheduler_fork ctx s).0 in
      let ne : r ≢ s'.current =
        λ q. cc (f.slot.free, busy, ap (λ (i : ℕ). (entry s.pcb i).running) (q ∙ f.same_current)) in
      let (run, prio) = aged_child ctx r f ne w in
      highest_next ctx' r _ (scheduler_fork-IsValid ctx v) (omega (arith, f.slot.inside, v.size))
        (omega arith) run prio h
]
