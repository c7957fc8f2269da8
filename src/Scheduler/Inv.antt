-- ===== src/Scheduler/Inv.antt =====
-- The invariant of the process table, and that each operation of kernel/scheduler.c keeps it.
use armcortex_a7os.Base.{
  ℕ, zero, suc, ◌<◌, ◌≡◌, refl, ◌∙◌, ap, ◌⊎◌, inl, inr, false, List, [], ◌∷◌, length, set,
  length-set, get_or-set, ◌==◌, ==_self, ==_ne, if◌then◌else◌, Bool-cases, ℕ_discrete, minus_one,
  arith,
}
use armcortex_a7os.Scheduler.{
  new_pid, reg, next_pid, kill_one, scheduler_kill, scheduler_run, scheduler_fork, Ctx,
  scheduler_exec, kill_all, scheduler_exit, Pcb, Sched, table_size, zero_pcb, entry, current_pcb,
  update_priority,
}
use armcortex_a7os.Scheduler.Choice.{next_pid-Chosen, new_pid_lem}
use armcortex_a7os.Scheduler.Aging.{aged, entry-update_priority, length-update_priority}

-- The entry at index `i` has the pid `i`, or has never been used: it does not run and its pid is 0.
abbrev pub Owns : ℕ → Pcb → Type 0
Owns i p = (p.pid ≡ i) ⊎ ((p.pid ≡ 0) × (p.running ≡ false))

pub record IsValid (s : Sched) : Type 0 where
  pub size : length s.pcb ≡ table_size
  pub current_in : s.current < table_size
  pub current_own : (current_pcb s).pid ≡ s.current
  pub owned : (i : ℕ) → i < table_size → Owns i (entry s.pcb i)

-- A write of an entry that owns its index keeps the table.
Owns-set :
    (t : List Pcb) (k : ℕ) (p : Pcb)
    → length t ≡ table_size
    → k < table_size
    → Owns k p
    → ((i : ℕ) → i < table_size → Owns i (entry t i))
    → (i : ℕ) → i < table_size
    → Owns i (entry (set t k p) i)
Owns-set t k p e h o os i l = elim (ℕ_discrete k i) [
  | yes q ↦ rw (get_or-set t k i p zero_pcb (omega arith), ← q, ==_self k) o
  | no ne ↦ rw (get_or-set t k i p zero_pcb (omega arith), ==_ne k i ne) (os i l)
]

Owns-aged : (s : Sched) (i : ℕ) → Owns i (entry s.pcb i) → Owns i (aged s i)
Owns-aged s i o = ground arith

pub update_priority-IsValid : {s : Sched} → IsValid s → IsValid (update_priority s)
update_priority-IsValid {s} v = record {
  size = length-update_priority s ∙ v.size;
  current_in = rw current-update_priority v.current_in;
  current_own =
      rw
        (
          current-update_priority,
          entry-update_priority s v.size v.current_in v.current_own s.current v.current_in,
          ==_self s.current,
        )
        v.current_own;
  owned = λ i h.
      rw (entry-update_priority s v.size v.current_in v.current_own i h)
        (Owns-aged s i (v.owned i h));
}
  where
    current-update_priority : (update_priority s).current ≡ s.current
    current-update_priority = unfold update_priority in refl

-- The chosen entry is in the table and holds its own index.
pub next_pid-own :
    {s : Sched}
    → IsValid s
    → (next_pid s.pcb < table_size) × ((entry s.pcb (next_pid s.pcb)).pid ≡ next_pid s.pcb)
next_pid-own {s} v = elim (next_pid-Chosen s.pcb) [
  | inl (e, _) ↦ rw e (omega arith, ground (arith, v.owned 0 (omega arith)))
  | inr f ↦
      let h : next_pid s.pcb < table_size = omega (arith, f.inside, v.size) in
      (h, ground (arith, f.runs, v.owned (next_pid s.pcb) h))
]

-- Loading another entry that holds its own index as the current one, with a new context for the
-- old one, keeps the invariant.
switch-IsValid :
    {s : Sched} (ctx : Ctx) (next : ℕ)
    → IsValid s
    → next < table_size
    → (entry s.pcb next).pid ≡ next
    → IsValid (record s {
      pcb = set s.pcb s.current (record (current_pcb s) { ctx = ctx });
      current = next;
    })
switch-IsValid {s} ctx next v l e = record {
  size = length-set s.pcb s.current _ ∙ v.size;
  current_in = l;
  current_own = elim (ℕ_discrete s.current next) [
    | yes q ↦
        rw
          (
            get_or-set s.pcb s.current next (record (current_pcb s) { ctx = ctx }) zero_pcb here,
            q,
            ==_self next,
          )
          (rw q at v.current_own)
    | no ne ↦
        rw
          (
            get_or-set s.pcb s.current next (record (current_pcb s) { ctx = ctx }) zero_pcb here,
            ==_ne s.current next ne,
          )
          e
  ];
  owned =
      Owns-set s.pcb s.current (record (current_pcb s) { ctx = ctx }) v.size v.current_in
        (inl v.current_own) v.owned;
}
  where
    here : s.current < length s.pcb
    here = omega (arith, v.size, v.current_in)

pub scheduler_run-IsValid : {s : Sched} (ctx : Ctx) → IsValid s → IsValid (scheduler_run ctx s).1
unfolding scheduler_run
scheduler_run-IsValid {s} ctx v =
    let v' = update_priority-IsValid v in
    let (l, e) = next_pid-own v' in switch-IsValid ctx (next_pid (update_priority s).pcb) v' l e

-- A change of the current entry that keeps its pid keeps the invariant.
set_current-IsValid :
    {s : Sched} (p : Pcb)
    → IsValid s
    → p.pid ≡ (current_pcb s).pid
    → IsValid (record s { pcb = set s.pcb s.current p })
set_current-IsValid {s} p v e = record {
  size = length-set s.pcb s.current p ∙ v.size;
  current_in = v.current_in;
  current_own =
      rw
        (
          get_or-set s.pcb s.current s.current p zero_pcb (omega (arith, v.size, v.current_in)),
          ==_self s.current,
        )
        (e ∙ v.current_own);
  owned = Owns-set s.pcb s.current p v.size v.current_in (inl (e ∙ v.current_own)) v.owned;
}

pub scheduler_exec-IsValid : {s : Sched} (ctx : Ctx) → IsValid s → IsValid (scheduler_exec ctx s).1
unfolding scheduler_exec
scheduler_exec-IsValid {s} ctx v = set_current-IsValid _ v refl

-- The console's entry always holds the pid 0.
to_console-IsValid : {s : Sched} → IsValid s → IsValid (record s { current = 0 })
to_console-IsValid {s} v = record {
  size = v.size;
  current_in = omega arith;
  current_own = ground (arith, v.owned 0 (omega arith));
  owned = v.owned;
}

pub scheduler_exit-IsValid : {s : Sched} (ctx : Ctx) → IsValid s → IsValid (scheduler_exit ctx s).1
unfolding scheduler_exit
scheduler_exit-IsValid {s} ctx v = elim (Bool-cases (reg ctx 0 == 0)) [
  | inl e ↦
      rw e (
        to_console-IsValid
          (set_current-IsValid (record (current_pcb s) { running = false }) v refl))
  | inr e ↦ rw e v
]

-- A table of the same length whose entries own their indices, and keep their pids.
pub same_pids-IsValid :
    {s : Sched} (t : List Pcb)
    → IsValid s
    → length t ≡ length s.pcb
    → ((i : ℕ) → (entry t i).pid ≡ (entry s.pcb i).pid)
    → ((i : ℕ) → (entry s.pcb i).running ≡ false → (entry t i).running ≡ false)
    → IsValid (record s { pcb = t })
same_pids-IsValid {s} t v e p r = record {
  size = e ∙ v.size;
  current_in = v.current_in;
  current_own = p s.current ∙ v.current_own;
  owned = λ i l. elim (v.owned i l) [ inl q ↦ inl (p i ∙ q) | inr (q, f) ↦ inr (p i ∙ q, r i f) ];
}

pub length-kill_all : (t : List Pcb) → length (kill_all t) ≡ length t
unfolding kill_all
length-kill_all [] = refl
length-kill_all (p ∷ ps) = ap suc (length-kill_all ps)

-- What `kill( -1, sig )` makes of each entry.
pub entry-kill_all :
    (t : List Pcb) (i : ℕ)
    → entry (kill_all t) i
      ≡ (if (entry t i).pid == 0 then entry t i else record (entry t i) { running = false })
unfolding kill_all
entry-kill_all [] i = refl
entry-kill_all (p ∷ ps) zero = refl
entry-kill_all (p ∷ ps) (suc i) = entry-kill_all ps i

pub length-kill_one : (pid : ℕ) (t : List Pcb) → length (kill_one pid t).1 ≡ length t
unfolding kill_one
length-kill_one pid [] = refl
length-kill_one pid (p ∷ ps) = ground (arith, length-kill_one pid ps)

-- `kill( pid, sig )` changes no pid, and sets nothing running.
kill_one-keeps :
    (pid : ℕ) (t : List Pcb) (i : ℕ)
    → ((entry (kill_one pid t).1 i).pid ≡ (entry t i).pid)
      × ((entry t i).running ≡ false → (entry (kill_one pid t).1 i).running ≡ false)
unfolding kill_one
kill_one-keeps pid [] i = (refl, λ h. h)
kill_one-keeps pid (p ∷ ps) zero = ground arith
kill_one-keeps pid (p ∷ ps) (suc i) = ground (arith, kill_one-keeps pid ps i)

pub scheduler_kill-IsValid :
    {s : Sched} (pid sig : ℕ) → IsValid s → IsValid (scheduler_kill pid sig s).1
unfolding scheduler_kill
scheduler_kill-IsValid {s} pid sig v = elim (Bool-cases (pid == minus_one)) [
  | inl e ↦ rw e (
      same_pids-IsValid (kill_all s.pcb) v (length-kill_all s.pcb)
        (λ i. ground (arith, entry-kill_all s.pcb i))
        (λ i h. ground (arith, entry-kill_all s.pcb i)))
  | inr e ↦ elim (Bool-cases (kill_one pid s.pcb).0) [
    | inl f ↦
        rw (e, f)
          (same_pids-IsValid (kill_one pid s.pcb).1 v (length-kill_one pid s.pcb)
            (λ i. (kill_one-keeps pid s.pcb i).0) (λ i. (kill_one-keeps pid s.pcb i).1))
    | inr f ↦ rw (e, f) v
  ]
]

-- A new entry in the slot `k`, with the pid `k`.
set_new-IsValid :
    {s : Sched} (k : ℕ) (p : Pcb)
    → IsValid s
    → k < table_size
    → p.pid ≡ k
    → IsValid (record s { pcb = set s.pcb k p })
set_new-IsValid {s} k p v l e = record {
  size = length-set s.pcb k p ∙ v.size;
  current_in = v.current_in;
  current_own = elim (ℕ_discrete k s.current) [
    | yes q ↦
        rw (get_or-set s.pcb k s.current p zero_pcb (omega (arith, v.size)), q, ==_self s.current)
          (e ∙ q)
    | no ne ↦
        rw (get_or-set s.pcb k s.current p zero_pcb (omega (arith, v.size)), ==_ne k s.current ne)
          v.current_own
  ];
  owned = Owns-set s.pcb k p v.size l (inl e) v.owned;
}

-- What `new_pid` finds, if it finds an entry, is an index of the table.
pub new_pid-lt : {s : Sched} → IsValid s → (new_pid s == minus_one) ≡ false → new_pid s < table_size
new_pid-lt {s} v h = elim (new_pid_lem s) [
  | inl (e, _) ↦ ground arith
  | inr f ↦ omega (arith, f.inside, v.size)
]

pub scheduler_fork-IsValid : {s : Sched} (ctx : Ctx) → IsValid s → IsValid (scheduler_fork ctx s).1
unfolding scheduler_fork
scheduler_fork-IsValid {s} ctx v = elim (Bool-cases (new_pid s == minus_one)) [
  | inl e ↦ rw e (record {
    size = v.size;
    current_in = v.current_in;
    current_own = v.current_own;
    owned = v.owned;
  })
  | inr e ↦ rw e (
      let w = set_new-IsValid (new_pid s) _ v (new_pid-lt v e) refl in
      record {
        size = w.size;
        current_in = w.current_in;
        current_own = w.current_own;
        owned = w.owned;
      })
]
