-- ===== src/Scheduler/Turns.antt =====
-- No process starves: `scheduler_run` of kernel/scheduler.c, called again and again.
use armcortex_a7os.Base.{
  ℕ, zero, suc, ◌+◌, ◌*◌, ◌^◌, ◌≤◌, ◌<◌, ◌≡◌, ◌≢◌, sym, ◌∙◌, inl, inr, true, ℕ_discrete, arith,
  ==_iff,
}
use armcortex_a7os.Scheduler.{Ctx, Sched, table_size, entry, scheduler_run}
use armcortex_a7os.Scheduler.Run.{scheduler_run_lem}
use armcortex_a7os.Scheduler.Fair.{
  Waits, count, count-le, count_drops, contends, Contends, contends-Contends, Contends-contends,
  contends_current, running_after, curr_after, tick-Waits, grows, Contends-before,
}

-- The switches of the contexts `c 0`, `c 1` and on.
pub run_for : ℕ → (ℕ → Ctx) → Sched → Sched
run_for zero c s = s
run_for (suc n) c s = run_for n (λ j. c (suc j)) (scheduler_run (c 0) s).1

module _ {i m b : ℕ} {s : Sched} (ctx : Ctx) (w : Waits i m b s) (room : b + m < 2 ^ 32)
    (waiting : i ≢ s.current) where
  abbrev s' : Sched
  s' = (scheduler_run ctx s).1

  -- Whoever is chosen has at least the priority of `i`.
  chosen_high :
      (s'.current < table_size)
      × ((entry s'.pcb s'.current).running ≡ true)
      × ((entry s'.pcb i).priority_curr ≤ (entry s'.pcb s'.current).priority_curr)
  chosen_high =
      let w' = tick-Waits ctx w room in
      let grown = grows ctx w room waiting in
      elim (scheduler_run_lem ctx w.valid).chosen [
        | inl (z, none_above) ↦ absurd (omega (arith, none_above i (w'.runs), grown, w.starts))
        | inr f ↦ (omega (arith, f.inside, w'.valid.size), f.runs, f.highest i (w'.runs))
      ]

  -- If it is not `i`, it contended before.
  chosen-Contends :
      (d : ℕ)
      → m * (d + 2) ≤ (entry s.pcb i).priority_curr
      → s'.current ≢ i
      → Contends i m d s s'.current
  chosen-Contends d h ne =
      let (l, r, c) = chosen_high in
      let grown = grows ctx w room waiting in
      let r' = sym (running_after ctx w room s'.current l) ∙ r in
      let small = w.inits s'.current l r' in
      let after = curr_after ctx w room s'.current l r' in
      record {
        other = ne;
        waiting = λ e.
            let z = ==_iff s'.current s.current in
            ground (arith, after, small, c, grown, w.starts, z);
        live = r';
        high = ground (arith, after, small, c, grown, w.starts);
      }

  fewer :
      (d : ℕ)
      → m * (d + 2) ≤ (entry s.pcb i).priority_curr
      → s'.current ≢ i
      → count table_size (contends i m (d + 1) s') < count table_size (contends i m d s)
  fewer d h ne =
      count_drops table_size s'.current (contends i m d s) (contends i m (d + 1) s')
        (λ j l q.
          Contends-contends i m d s j
            (Contends-before ctx w room d j l (contends-Contends i m (d + 1) s' j q)))
        chosen_high.0 (Contends-contends i m d s s'.current (chosen-Contends d h ne))
        (contends_current i m (d + 1) s')

-- With `n` contenders left, `i` has its turn within `n + 1` switches.
last_rounds :
    (n d b : ℕ) {i m : ℕ} (c : ℕ → Ctx) (s : Sched)
    → Waits i m b s
    → b + m * (n + 1) < 2 ^ 32
    → i ≢ s.current
    → m * (d + n + 2) ≤ (entry s.pcb i).priority_curr
    → count table_size (contends i m d s) ≤ n
    → (k : ℕ) × (k ≤ n + 1) × ((run_for k c s).current ≡ i)
unfolding run_for
last_rounds zero d b {i} {m} c s w room ne h cnt =
    let room' : b + m < 2 ^ 32 = omega arith in
    elim (ℕ_discrete (scheduler_run (c 0) s).1.current i) [
      | yes e ↦ (1, omega arith, e)
      | no other ↦ absurd (omega (arith, fewer (c 0) w room' ne d (omega arith) other))
    ]
last_rounds (suc n) d b {i} {m} c s w room ne h cnt =
    let room' : b + m < 2 ^ 32 = omega arith in
    elim (ℕ_discrete (scheduler_run (c 0) s).1.current i) [
      | yes e ↦ (1, omega arith, e)
      | no other ↦
          let left = fewer (c 0) w room' ne d (omega arith) other in
          let grown = grows (c 0) w room' ne in
          let (k, l, e) =
            last_rounds n (d + 1) (b + m) (λ j. c (suc j)) (scheduler_run (c 0) s).1
              (tick-Waits (c 0) w room') (omega arith) (λ q. other (sym q)) (omega arith)
              (omega arith) in
          (suc k, omega arith, e)
    ]

-- Until the priority of `i` is as high as that, `n` switches pass at most.
first_rounds :
    (n b : ℕ) {i m : ℕ} (c : ℕ → Ctx) (s : Sched)
    → Waits i m b s
    → b + m * (n + 31) < 2 ^ 32
    → i ≢ s.current
    → m * 32 ≤ (entry s.pcb i).priority_curr + n
    → (k : ℕ) × (k ≤ n + 31) × ((run_for k c s).current ≡ i)
unfolding run_for
first_rounds zero b {i} {m} c s w room ne h =
    last_rounds 30 0 b c s w (omega arith) ne (omega arith) (count-le table_size (contends i m 0 s))
first_rounds (suc n) b {i} {m} c s w room ne h =
    let room' : b + m < 2 ^ 32 = omega arith in
    elim (ℕ_discrete (scheduler_run (c 0) s).1.current i) [
      | yes e ↦ (1, omega arith, e)
      | no other ↦
          let grown = grows (c 0) w room' ne in
          let (k, l, e) =
            first_rounds n (b + m) (λ j. c (suc j)) (scheduler_run (c 0) s).1
              (tick-Waits (c 0) w room') (omega arith) (λ q. other (sym q))
              (omega (arith, w.starts)) in
          (suc k, omega arith, e)
    ]

-- No process starves. On a valid table, let `i` be a running process with a positive initial priority,
-- let `m` bound the initial priorities of the running processes and `b` their current ones, and let
-- these be small enough that no priority wraps. Then, if only the timer switches processes, whatever
-- contexts they are in, `i` has its turn within 32 * m + 31 switches.
pub scheduler_run_turn :
    (i m b : ℕ) (c : ℕ → Ctx) (s : Sched)
    → Waits i m b s
    → b + m * (32 * m + 31) < 2 ^ 32
    → (k : ℕ) × (k ≤ 32 * m + 31) × ((run_for k c s).current ≡ i)
scheduler_run_turn i m b c s w room = elim (ℕ_discrete i s.current) [
  | yes e ↦ (0, omega arith, unfold run_for in sym e)
  | no ne ↦ first_rounds (32 * m) b c s w room ne (omega arith)
]
