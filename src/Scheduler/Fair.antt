-- ===== src/Scheduler/Fair.antt =====
-- What one call of `scheduler_run` of kernel/scheduler.c does to a process that waits, and to those
-- that contend with it.
use armcortex_a7os.Base.{
  ℕ, zero, suc, ◌+◌, ◌*◌, ◌^◌, ◌≤◌, ◌<◌, ◌≡◌, ◌≢◌, sym, ap, ◌∙◌, Bool, true, false, not, ◌&&◌, ltb,
  ◌==◌, if◌then◌else◌, ℕ_discrete, arith, ==_iff,
}
use armcortex_a7os.Scheduler.{Ctx, Pcb, Sched, table_size, entry, scheduler_run}
use armcortex_a7os.Scheduler.Inv.{IsValid, scheduler_run-IsValid}
use armcortex_a7os.Scheduler.Run.{parked, scheduler_run_lem}

-- The process `i` runs with a positive initial priority, no running process has a larger initial
-- priority than `m`, nor a larger current one than `b`.
pub record Waits (i m b : ℕ) (s : Sched) : Type 0 where
  pub valid : IsValid s
  pub inside : i < table_size
  pub runs : (entry s.pcb i).running ≡ true
  pub starts : 0 < (entry s.pcb i).priority_init
  pub inits :
      (j : ℕ) → j < table_size → (entry s.pcb j).running ≡ true → (entry s.pcb j).priority_init ≤ m
  pub bounded :
      (j : ℕ) → j < table_size → (entry s.pcb j).running ≡ true → (entry s.pcb j).priority_curr ≤ b

-- How many numbers below `n` pass a test.
pub count : ℕ → (ℕ → Bool) → ℕ
count zero p = 0
count (suc n) p = (if p n then 1 else 0) + count n p

pub count-le : (n : ℕ) (p : ℕ → Bool) → count n p ≤ n
unfolding count
count-le zero p = omega arith
count-le (suc n) p = ground (arith, count-le n p)

count_mono :
    (n : ℕ) (p q : ℕ → Bool) → ((j : ℕ) → j < n → q j ≡ true → p j ≡ true) → count n q ≤ count n p
unfolding count
count_mono zero p q h = omega arith
count_mono (suc n) p q h =
    ground (arith, count_mono n p q (λ j l. h j (omega arith)), h n (omega arith))

pub count_drops :
    (n k : ℕ) (p q : ℕ → Bool)
    → ((j : ℕ) → j < n → q j ≡ true → p j ≡ true)
    → k < n
    → p k ≡ true
    → q k ≡ false
    → count n q < count n p
unfolding count
count_drops zero k p q h l a b = absurd (omega arith)
count_drops (suc n) k p q h l a b = elim (ℕ_discrete k n) [
  | yes e ↦
      let a' : p n ≡ true = ap p (sym e) ∙ a in
      let b' : q n ≡ false = ap q (sym e) ∙ b in
      ground (arith, count_mono n p q (λ j l'. h j (omega arith)))
  | no ne ↦
      ground (
        arith,
        count_drops n k p q (λ j l'. h j (omega arith)) (omega arith) a b,
        h n (omega arith),
      )
]

-- `j` can still be chosen before `i`: it runs, it is not the current process, and its priority is
-- above what `d + 1` rounds can have given it.
abbrev pub contends : ℕ → ℕ → ℕ → Sched → ℕ → Bool
contends i m d s j =
    not (j == i)
    && (not (j == s.current)
        && ((entry s.pcb j).running && ltb (m * (d + 1)) (entry s.pcb j).priority_curr))

-- The same as a record.
pub record Contends (i m d : ℕ) (s : Sched) (j : ℕ) : Type 0 where
  pub other : j ≢ i
  pub waiting : j ≢ s.current
  pub live : (entry s.pcb j).running ≡ true
  pub high : m * (d + 1) < (entry s.pcb j).priority_curr

pub contends-Contends :
    (i m d : ℕ) (s : Sched) (j : ℕ) → contends i m d s j ≡ true → Contends i m d s j
contends-Contends i m d s j h = ground arith

pub Contends-contends :
    (i m d : ℕ) (s : Sched) (j : ℕ) → Contends i m d s j → contends i m d s j ≡ true
Contends-contends i m d s j c = ground arith

pub contends_current : (i m d : ℕ) (s : Sched) → contends i m d s s.current ≡ false
contends_current i m d s = ground arith

parked-stays :
    (ctx : Ctx) (s : Sched) (k : ℕ)
    → ((parked ctx s k).running ≡ (entry s.pcb k).running)
      × ((parked ctx s k).priority_init ≡ (entry s.pcb k).priority_init)
parked-stays ctx s k = ground arith

parked-curr :
    (ctx : Ctx) (s : Sched) (k : ℕ)
    → (entry s.pcb k).running ≡ true
    → (entry s.pcb k).priority_curr + (entry s.pcb k).priority_init < 2 ^ 32
    → (parked ctx s k).priority_curr ≡ (
        if k == s.current
        then (entry s.pcb k).priority_init
        else (entry s.pcb k).priority_curr + (entry s.pcb k).priority_init)
parked-curr ctx s k r h = ground arith

module _ {i m b : ℕ} {s : Sched} (ctx : Ctx) (w : Waits i m b s) (room : b + m < 2 ^ 32) where
  abbrev pub s' : Sched
  s' = (scheduler_run ctx s).1

  at : (k : ℕ) → k < table_size → entry s'.pcb k ≡ parked ctx s k
  at = (scheduler_run_lem ctx w.valid).table

  pub running_after : (k : ℕ) → k < table_size → (entry s'.pcb k).running ≡ (entry s.pcb k).running
  running_after k h = ap (λ (p : Pcb). p.running) (at k h) ∙ (parked-stays ctx s k).0

  pub init_after :
      (k : ℕ) → k < table_size → (entry s'.pcb k).priority_init ≡ (entry s.pcb k).priority_init
  init_after k h = ap (λ (p : Pcb). p.priority_init) (at k h) ∙ (parked-stays ctx s k).1

  pub curr_after :
      (k : ℕ)
      → k < table_size
      → (entry s.pcb k).running ≡ true
      → (entry s'.pcb k).priority_curr ≡ (
          if k == s.current
          then (entry s.pcb k).priority_init
          else (entry s.pcb k).priority_curr + (entry s.pcb k).priority_init)
  curr_after k h r =
      ap (λ (p : Pcb). p.priority_curr) (at k h)
      ∙ parked-curr ctx s k r (omega (arith, w.inits k h r, w.bounded k h r))

  pub tick-Waits : Waits i m (b + m) s'
  tick-Waits = record {
    valid = scheduler_run-IsValid ctx w.valid;
    inside = w.inside;
    runs = running_after i w.inside ∙ w.runs;
    starts = omega (arith, init_after i w.inside, w.starts);
    inits = λ j h r. omega (arith, init_after j h, w.inits j h (sym (running_after j h) ∙ r));
    bounded = λ j h r.
        let r' = sym (running_after j h) ∙ r in
        ground (arith, curr_after j h r', w.inits j h r', w.bounded j h r');
  }

  pub grows :
      i ≢ s.current
      → (entry s'.pcb i).priority_curr
        ≡ (entry s.pcb i).priority_curr + (entry s.pcb i).priority_init
  grows ne = curr_after i w.inside w.runs ∙ ground arith

  -- Who contends after a round did so before.
  pub Contends-before : (d j : ℕ) → j < table_size → Contends i m (d + 1) s' j → Contends i m d s j
  Contends-before d j h c =
      let r = sym (running_after j h) ∙ c.live in
      let small = w.inits j h r in
      elim (ℕ_discrete j s.current) [
        | yes e ↦
            absurd (let z = ==_iff j s.current in ground (arith, curr_after j h r, c.high, small))
        | no ne ↦ record {
          other = c.other;
          waiting = ne;
          live = r;
          high = ground (arith, curr_after j h r, c.high, small);
        }
      ]
