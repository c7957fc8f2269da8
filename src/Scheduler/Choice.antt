-- ===== src/Scheduler/Choice.antt =====
-- What `next_pid` and `new_pid` of kernel/scheduler.c choose.
use armcortex_a7os.Base.{
  ℕ, zero, suc, ◌+◌, ◌≤◌, ◌<◌, ◌≡◌, refl, ◌⊎◌, inl, inr, true, false, ◌&&◌, subst, List, [], ◌∷◌,
  length, ltb, Bool-cases, minus_one, arith,
}
use armcortex_a7os.Scheduler.{Pcb, Sched, entry, next_pid_from, next_pid, new_pid_from, new_pid}

-- No running process of the table has a priority above `b`.
abbrev pub NoneAbove : ℕ → List Pcb → Type 0
NoneAbove b t = (j : ℕ) → (entry t j).running ≡ true → (entry t j).priority_curr ≤ b

-- The entry at `k` runs with a priority above `low`, the highest of the table, and those before it
-- have lower ones.
pub record IsFirstHighest (low : ℕ) (t : List Pcb) (k : ℕ) : Type 0 where
  pub inside : k < length t
  pub runs : (entry t k).running ≡ true
  pub above : low < (entry t k).priority_curr
  pub highest : NoneAbove (entry t k).priority_curr t
  pub first :
      (j : ℕ)
      → j < k
      → (entry t j).running ≡ true
      → (entry t j).priority_curr < (entry t k).priority_curr

NoneAbove-cons :
    (b : ℕ) (p : Pcb) (ps : List Pcb)
    → (p.running ≡ true → p.priority_curr ≤ b)
    → NoneAbove b ps
    → NoneAbove b (p ∷ ps)
NoneAbove-cons b p ps h hs zero r = h r
NoneAbove-cons b p ps h hs (suc j) r = hs j r

first-cons :
    (p : Pcb) (ps : List Pcb) (k : ℕ)
    → (p.running ≡ true → p.priority_curr < (entry ps k).priority_curr)
    → ((j : ℕ)
        → j < k
        → (entry ps j).running ≡ true
        → (entry ps j).priority_curr < (entry ps k).priority_curr)
    → (j : ℕ) → j < suc k
    → (entry (p ∷ ps) j).running ≡ true
    → (entry (p ∷ ps) j).priority_curr < (entry ps k).priority_curr
first-cons p ps k h hs zero l r = h r
first-cons p ps k h hs (suc j) l r = hs j (omega arith) r

IsFirstHighest-cons :
    (low : ℕ) (p : Pcb) (ps : List Pcb) (k : ℕ)
    → (p.running ≡ true → p.priority_curr ≤ low)
    → IsFirstHighest low ps k
    → IsFirstHighest low (p ∷ ps) (suc k)
IsFirstHighest-cons low p ps k h f = record {
  inside = omega arith;
  runs = f.runs;
  above = f.above;
  highest = NoneAbove-cons _ p ps (λ r. omega (arith, h r)) f.highest;
  first = first-cons p ps k (λ r. omega (arith, h r)) f.first;
}

IsFirstHighest-head :
    (low : ℕ) (p : Pcb) (ps : List Pcb)
    → p.running ≡ true
    → low < p.priority_curr
    → NoneAbove p.priority_curr ps
    → IsFirstHighest low (p ∷ ps) 0
IsFirstHighest-head low p ps r h n = record {
  inside = omega arith;
  runs = r;
  above = h;
  highest = NoneAbove-cons _ p ps (λ _. omega arith) n;
  first = λ j l _. absurd (omega arith);
}

abbrev pub Chosen : ℕ → ℕ → ℕ → List Pcb → ℕ → Type 0
Chosen i low next t r =
    ((r ≡ next) × NoneAbove low t) ⊎ ((k : ℕ) × (r ≡ i + k) × IsFirstHighest low t k)

IsFirstHighest-weaken :
    (low high : ℕ) (t : List Pcb) (k : ℕ)
    → low ≤ high
    → IsFirstHighest high t k
    → IsFirstHighest low t k
IsFirstHighest-weaken low high t k h f = record {
  inside = f.inside;
  runs = f.runs;
  above = omega (arith, f.above);
  highest = f.highest;
  first = f.first;
}

Chosen-head :
    (i low next : ℕ) (p : Pcb) (ps : List Pcb) (r : ℕ)
    → p.running ≡ true
    → low < p.priority_curr
    → Chosen (i + 1) p.priority_curr i ps r
    → Chosen i low next (p ∷ ps) r
Chosen-head i low next p ps r e h (inl (q, n)) =
    inr (0, omega arith, IsFirstHighest-head low p ps e h n)
Chosen-head i low next p ps r e h (inr (k, q, f)) = inr (
  suc k,
  omega arith,
  record {
    inside = omega (arith, f.inside);
    runs = f.runs;
    above = omega (arith, f.above);
    highest = NoneAbove-cons _ p ps (λ _. omega (arith, f.above)) f.highest;
    first = first-cons p ps k (λ _. omega (arith, f.above)) f.first;
  },
)

Chosen-skip :
    (i low next : ℕ) (p : Pcb) (ps : List Pcb) (r : ℕ)
    → (p.running ≡ true → p.priority_curr ≤ low)
    → Chosen (i + 1) low next ps r
    → Chosen i low next (p ∷ ps) r
Chosen-skip i low next p ps r h (inl (q, n)) = inl (q, NoneAbove-cons low p ps h n)
Chosen-skip i low next p ps r h (inr (k, q, f)) =
    inr (suc k, omega arith, IsFirstHighest-cons low p ps k h f)

next_pid_from-Chosen :
    (i low next : ℕ) (t : List Pcb) → Chosen i low next t (next_pid_from i low next t)
unfolding next_pid_from
next_pid_from-Chosen i low next [] = inl (refl, λ j r. absurd (cc r))
next_pid_from-Chosen i low next (p ∷ ps) =
    elim (Bool-cases (p.running && ltb low p.priority_curr)) [
      | inl e ↦ rw e (
          Chosen-head i low next p ps _ (ground arith) (ground arith)
            (next_pid_from-Chosen (i + 1) p.priority_curr i ps))
      | inr e ↦ rw e (
          Chosen-skip i low next p ps _ (λ r. ground arith)
            (next_pid_from-Chosen (i + 1) low next ps))
    ]

-- `next_pid` is the lowest index among the running processes of the highest priority; where no
-- running process has a priority above 0 it is 0.
pub next_pid-Chosen :
    (t : List Pcb) → ((next_pid t ≡ 0) × NoneAbove 0 t) ⊎ IsFirstHighest 0 t (next_pid t)
unfolding next_pid
next_pid-Chosen t = elim (next_pid_from-Chosen 0 0 0 t) [
  | inl h ↦ inl h
  | inr (k, e, f) ↦ inr (subst (IsFirstHighest 0 t) (omega arith) f)
]

-- No entry of the table is free.
abbrev pub AllRunning : List Pcb → Type 0
AllRunning t = (j : ℕ) → j < length t → (entry t j).running ≡ true

-- The entry at `k` is free, and all before it run.
pub record IsFirstFree (t : List Pcb) (k : ℕ) : Type 0 where
  pub inside : k < length t
  pub free : (entry t k).running ≡ false
  pub first : (j : ℕ) → j < k → (entry t j).running ≡ true

AllRunning-cons : (p : Pcb) (ps : List Pcb) → p.running ≡ true → AllRunning ps → AllRunning (p ∷ ps)
AllRunning-cons p ps h hs zero l = h
AllRunning-cons p ps h hs (suc j) l = hs j (omega arith)

IsFirstFree-cons :
    (p : Pcb) (ps : List Pcb) (k : ℕ)
    → p.running ≡ true
    → IsFirstFree ps k
    → IsFirstFree (p ∷ ps) (suc k)
IsFirstFree-cons p ps k h f = record {
  inside = omega (arith, f.inside);
  free = f.free;
  first = elim [ zero ↦ λ l. h | suc j ↦ λ l. f.first j (omega arith) ];
}

abbrev NewPid : ℕ → List Pcb → ℕ → Type 0
NewPid i t r = ((r ≡ minus_one) × AllRunning t) ⊎ ((k : ℕ) × (r ≡ i + k) × IsFirstFree t k)

NewPid-cons :
    (i : ℕ) (p : Pcb) (ps : List Pcb) (r : ℕ)
    → p.running ≡ true
    → NewPid (i + 1) ps r
    → NewPid i (p ∷ ps) r
NewPid-cons i p ps r h (inl (e, a)) = inl (e, AllRunning-cons p ps h a)
NewPid-cons i p ps r h (inr (k, e, f)) = inr (suc k, omega arith, IsFirstFree-cons p ps k h f)

new_pid_from-running :
    (i : ℕ) (p : Pcb) (ps : List Pcb)
    → p.running ≡ true
    → new_pid_from i (p ∷ ps) ≡ new_pid_from (i + 1) ps
unfolding new_pid_from
new_pid_from-running i p ps e = rw e

new_pid_from-free :
    (i : ℕ) (p : Pcb) (ps : List Pcb) → p.running ≡ false → new_pid_from i (p ∷ ps) ≡ i + 0
unfolding new_pid_from
new_pid_from-free i p ps e = rw e (omega arith)

new_pid_from-NewPid : (i : ℕ) (t : List Pcb) → NewPid i t (new_pid_from i t)
new_pid_from-NewPid i [] = inl (unfold new_pid_from in refl, λ j l. absurd (omega arith))
new_pid_from-NewPid i (p ∷ ps) = elim (Bool-cases p.running) [
  | inl e ↦
      rw (new_pid_from-running i p ps e) (NewPid-cons i p ps _ e (new_pid_from-NewPid (i + 1) ps))
  | inr e ↦ inr (
    0,
    new_pid_from-free i p ps e,
    record { inside = omega arith; free = e; first = λ j l. absurd (omega arith) },
  )
]

-- `new_pid` is the lowest free index, and -1 where every entry runs.
pub new_pid_lem :
    (s : Sched) → ((new_pid s ≡ minus_one) × AllRunning s.pcb) ⊎ IsFirstFree s.pcb (new_pid s)
unfolding new_pid
new_pid_lem s = elim (new_pid_from-NewPid 0 s.pcb) [
  | inl h ↦ inl h
  | inr (k, e, f) ↦ inr (subst (IsFirstFree s.pcb) (omega arith) f)
]
