-- ===== src/Scheduler/Aging.antt =====
-- What `update_priority` of kernel/scheduler.c does to the process table.
use armcortex_a7os.Base.{
  ℕ, zero, suc, ◌+◌, ◌-◌, ◌%◌, ◌≤◌, ◌<◌, ◌≡◌, refl, ◌∙◌, ◌≢◌, List, length, set, length-set,
  get_or-set, set-get_or, ltb, ◌==◌, ==_self, ==_ne, sym, ℕ_discrete, if◌then◌else◌, add32, arith,
}
use armcortex_a7os.Scheduler.{
  Pcb, Sched, table_size, zero_pcb, entry, current_pcb, raise_priority, raise_from, update_priority,
}

-- A running process gains its initial priority; any other keeps what it has.
abbrev pub raised : Pcb → Pcb
raised p =
    if p.running then record p { priority_curr = add32 p.priority_curr p.priority_init } else p

raise_priority-eq-set : (i : ℕ) (t : List Pcb) → raise_priority i t ≡ set t i (raised (entry t i))
unfolding raise_priority
raise_priority-eq-set i t = ground (arith, set-get_or t i zero_pcb)

length-raise_priority : (i : ℕ) (t : List Pcb) → length (raise_priority i t) ≡ length t
length-raise_priority i t = rw raise_priority-eq-set (length-set t i (raised (entry t i)))

pub length-raise_from : (n i : ℕ) (t : List Pcb) → length (raise_from n i t) ≡ length t
unfolding raise_from
length-raise_from zero i t = refl
length-raise_from (suc n) i t =
    length-raise_from n (i + 1) (raise_priority (i % table_size) t)
    ∙ length-raise_priority (i % table_size) t

entry-raise_priority :
    (i k : ℕ) (t : List Pcb)
    → i < length t
    → entry (raise_priority i t) k ≡ (if i == k then raised (entry t k) else entry t k)
entry-raise_priority i k t h =
    rw raise_priority-eq-set (ground (arith, get_or-set t i k (raised (entry t i)) zero_pcb))

-- The loop reaches the index `j` steps ahead of its start exactly if it makes more than `j` rounds.
entry-raise_from :
    (n i j k : ℕ) (t : List Pcb)
    → length t ≡ table_size
    → j < table_size
    → n ≤ table_size
    → k ≡ (i + j) % table_size
    → entry (raise_from n i t) k ≡ (if ltb j n then raised (entry t k) else entry t k)
unfolding raise_from
entry-raise_from zero i j k t e hj hn hk = ground arith
entry-raise_from (suc n) i zero k t e hj hn hk = ground (
  arith,
  entry-raise_from n (i + 1) 29 k (raise_priority (i % table_size) t)
      (length-raise_priority _ t ∙ e) (omega arith) (omega arith) (omega arith),
  entry-raise_priority (i % table_size) k t (omega arith),
)
entry-raise_from (suc n) i (suc j) k t e hj hn hk = ground (
  arith,
  entry-raise_from n (i + 1) j k (raise_priority (i % table_size) t) (length-raise_priority _ t ∙ e)
      (omega arith) (omega arith) (omega arith),
  entry-raise_priority (i % table_size) k t (omega arith),
)

-- The process that leaves the processor falls back to its initial priority.
abbrev pub reset : Pcb → Pcb
reset p = record p { priority_curr = p.priority_init }

-- What one call makes of the entry at index `k`.
abbrev pub aged : Sched → ℕ → Pcb
aged s k = if k == s.current then reset (entry s.pcb k) else raised (entry s.pcb k)

pub length-update_priority : (s : Sched) → length (update_priority s).pcb ≡ length s.pcb
unfolding update_priority
length-update_priority s = length-set _ s.current _ ∙ length-raise_from 29 _ s.pcb

module _ (s : Sched) (size : length s.pcb ≡ table_size) (here : s.current < table_size)
    (own : (current_pcb s).pid ≡ s.current) where
  entry-raised :
      (k : ℕ)
      → k < table_size
      → k ≢ s.current
      → entry (raise_from 29 ((current_pcb s).pid + 1) s.pcb) k ≡ raised (entry s.pcb k)
  entry-raised k h ne = ground (
    arith,
    entry-raise_from 29 ((current_pcb s).pid + 1)
        ((k + table_size + table_size - ((current_pcb s).pid + 1)) % table_size) k s.pcb size
        (omega arith) (omega arith) (omega arith),
  )

  entry-raised_current :
      entry (raise_from 29 ((current_pcb s).pid + 1) s.pcb) s.current ≡ current_pcb s
  entry-raised_current = ground (
    arith,
    entry-raise_from 29 ((current_pcb s).pid + 1) 29 s.current s.pcb size (omega arith)
        (omega arith) (omega arith),
  )

  entry-set-reset :
      (t : List Pcb) (k : ℕ)
      → length t ≡ table_size
      → entry t s.current ≡ current_pcb s
      → (k ≢ s.current → entry t k ≡ raised (entry s.pcb k))
      → entry (set t s.current (reset (entry t s.current))) k ≡ aged s k
  entry-set-reset t k e c o = elim (ℕ_discrete k s.current) [
    | yes q ↦ rw (
      get_or-set t s.current k (reset (entry t s.current)) zero_pcb (omega arith),
      c,
      q,
      ==_self s.current,
    )
    | no ne ↦ rw (
      get_or-set t s.current k (reset (entry t s.current)) zero_pcb (omega arith),
      o ne,
      ==_ne k s.current ne,
      ==_ne s.current k (λ q. ne (sym q)),
    )
  ]

  -- Where the table has its `table_size` entries and the current entry holds its own index, one
  -- call of `update_priority` raises each other running process once, by its initial priority and
  -- modulo 2 ^ 32, gives the current one its initial priority, and changes no other entry.
  pub entry-update_priority : (k : ℕ) → k < table_size → entry (update_priority s).pcb k ≡ aged s k
  unfolding update_priority
  entry-update_priority k h =
      entry-set-reset (raise_from 29 ((current_pcb s).pid + 1) s.pcb) k
        (length-raise_from 29 ((current_pcb s).pid + 1) s.pcb ∙ size) entry-raised_current
        (entry-raised k h)
