-- ===== src/Ipc/Inv.antt =====
-- The table of pipes: its invariant, and which pipe a pair of processes is given (kernel/ipc.c).
use armcortex_a7os.Base.{
  ℕ, zero, suc, ◌<◌, ◌≡◌, refl, ◌⊎◌, inl, inr, true, false, ◌&&◌, List, [], ◌∷◌, none, some, length,
  Bool-cases, arith,
}
use armcortex_a7os.Ipc.{
  Pipe, Ipc, no_of_pipes, ipc_failure, at, joins, find_pipe, new_pipe_id, ipc_empty,
}

-- The table has `no_of_pipes` entries, each with its index as its id.
pub record IsValid (s : Ipc) : Type 0 where
  pub size : length s.pipe ≡ no_of_pipes
  pub ids : (i : ℕ) → i < no_of_pipes → (at s.pipe i).pipe_id ≡ i

-- The entry at `k` is active and joins the two, and none before it does.
pub record IsFirstJoining (a b : ℕ) (t : List Pipe) (k : ℕ) : Type 0 where
  pub inside : k < length t
  pub live : (at t k).active ≡ true
  pub joined : joins a b (at t k) ≡ true
  pub first : (j : ℕ) → j < k → ((at t j).active && joins a b (at t j)) ≡ false

abbrev pub NoneJoining : ℕ → ℕ → List Pipe → Type 0
NoneJoining a b t = (j : ℕ) → j < length t → ((at t j).active && joins a b (at t j)) ≡ false

pub find_pipe-cases :
    (a b : ℕ) (t : List Pipe)
    → ((find_pipe a b t ≡ none) × NoneJoining a b t)
      ⊎ ((k : ℕ) × (find_pipe a b t ≡ some (at t k).pipe_id) × IsFirstJoining a b t k)
unfolding find_pipe
find_pipe-cases a b [] = inl (refl, λ j l. absurd (omega arith))
find_pipe-cases a b (p ∷ ps) = elim (Bool-cases (p.active && joins a b p)) [
  | inl e ↦ inr (
    0,
    rw e refl,
    record {
      inside = omega arith;
      live = ground arith;
      joined = ground arith;
      first = λ j l. absurd (omega arith);
    },
  )
  | inr e ↦ elim (find_pipe-cases a b ps) [
    | inl (f, n) ↦ inl (rw e f, elim [ zero ↦ λ l. e | suc j ↦ λ l. n j (omega arith) ])
    | inr (k, f, g) ↦ inr (
      suc k,
      rw e f,
      record {
        inside = omega (arith, g.inside);
        live = g.live;
        joined = g.joined;
        first = elim [ zero ↦ λ l. e | suc j ↦ λ l. g.first j (omega arith) ];
      },
    )
  ]
]

-- Every pipe of the table is in use.
abbrev pub AllActive : List Pipe → Type 0
AllActive t = (j : ℕ) → j < length t → (at t j).active ≡ true

pub record IsFirstIdle (t : List Pipe) (k : ℕ) : Type 0 where
  pub inside : k < length t
  pub idle : (at t k).active ≡ false
  pub first : (j : ℕ) → j < k → (at t j).active ≡ true

pub new_pipe_id-cases :
    (t : List Pipe)
    → ((new_pipe_id t ≡ ipc_failure) × AllActive t)
      ⊎ ((k : ℕ) × (new_pipe_id t ≡ (at t k).pipe_id) × IsFirstIdle t k)
unfolding new_pipe_id
new_pipe_id-cases [] = inl (refl, λ j l. absurd (omega arith))
new_pipe_id-cases (p ∷ ps) = elim (Bool-cases p.active) [
  | inr e ↦
      inr (
        0,
        rw e refl,
        record { inside = omega arith; idle = e; first = λ j l. absurd (omega arith) },
      )
  | inl e ↦ elim (new_pipe_id-cases ps) [
    | inl (f, n) ↦ inl (rw e f, elim [ zero ↦ λ l. e | suc j ↦ λ l. n j (omega arith) ])
    | inr (k, f, g) ↦ inr (
      suc k,
      rw e f,
      record {
        inside = omega (arith, g.inside);
        idle = g.idle;
        first = elim [ zero ↦ λ l. e | suc j ↦ λ l. g.first j (omega arith) ];
      },
    )
  ]
]

-- The entry once it is given to the two processes.
abbrev pub opened : ℕ → ℕ → Pipe → Pipe
opened a b p = record p {
  buff_1 = record { pid = a; signal = ipc_empty };
  buff_2 = record { pid = b; signal = ipc_empty };
  active = true;
}

-- How `ipc_pipe a b` comes to the pipe `k`.
pub data Route (a b : ℕ) (t : List Pipe) (k : ℕ) : Type 0 where
  existing : IsFirstJoining a b t k → Route a b t k
  fresh : NoneJoining a b t → IsFirstIdle t k → Route a b t k
  stolen : NoneJoining a b t → AllActive t → k ≡ 0 → Route a b t k

pub find_pipe-at :
    (a b : ℕ) (t : List Pipe) (k : ℕ)
    → IsFirstJoining a b t k
    → find_pipe a b t ≡ some (at t k).pipe_id
unfolding find_pipe joins
find_pipe-at a b [] k f = absurd (omega (arith, f.inside))
find_pipe-at a b (p ∷ ps) zero f = rw (f.live, f.joined)
find_pipe-at a b (p ∷ ps) (suc k) f = rw (f.first 0 (omega arith)) (
    find_pipe-at a b ps k (record {
      inside = omega (arith, f.inside);
      live = f.live;
      joined = f.joined;
      first = λ j l. f.first (suc j) (omega arith);
    }))
