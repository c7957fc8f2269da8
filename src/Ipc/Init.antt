-- ===== src/Ipc/Init.antt =====
-- `ipc_initialise` of kernel/ipc.c.
use armcortex_a7os.Base.{
  ℕ, zero, suc, ◌+◌, ◌<◌, ◌≤◌, ◌≡◌, refl, ◌∙◌, ap, List, length, set, length-set, get_or-set, ◌==◌,
  ltb, leb, ◌&&◌, if◌then◌else◌, arith,
}
use armcortex_a7os.Ipc.{Pipe, Ipc, no_of_pipes, zero_pipe, at, initialise_from, ipc_initialise}
use armcortex_a7os.Ipc.Inv.{IsValid}

-- What the loop makes of the entry at `k`: entry 0 is cleared, any other only gets its id.
abbrev pub numbered : ℕ → Pipe → Pipe
numbered k p = if k == 0 then zero_pipe else record p { pipe_id = k }

length-initialise_from : (n i : ℕ) (t : List Pipe) → length (initialise_from n i t) ≡ length t
unfolding initialise_from
length-initialise_from zero i t = refl
length-initialise_from (suc n) i t =
    length-initialise_from n (i + 1) _ ∙ length-set _ i _ ∙ length-set t 0 zero_pipe

-- One round, at an index of the table.
round_at :
    (i k : ℕ) (t : List Pipe)
    → i < length t
    → at (set (set t 0 zero_pipe) i (record (at (set t 0 zero_pipe) i) { pipe_id = i })) k
      ≡ (if i == k then numbered k (at t k) else if k == 0 then zero_pipe else at t k)
round_at i k t l = ground (
  arith,
  get_or-set (set t 0 zero_pipe) i k (record (at (set t 0 zero_pipe) i) { pipe_id = i }) zero_pipe,
  length-set t 0 zero_pipe,
  get_or-set t 0 k zero_pipe zero_pipe,
  get_or-set t 0 i zero_pipe zero_pipe,
)

at-initialise_from :
    (n i k : ℕ) (t : List Pipe)
    → 0 < n
    → i + n ≤ length t
    → at (initialise_from n i t) k ≡ (
        if k == 0
        then zero_pipe
        else if leb i k && ltb k (i + n)
        then record (at t k) { pipe_id = k }
        else at t k)
unfolding initialise_from
at-initialise_from zero i k t h l = absurd (omega arith)
at-initialise_from (suc zero) i k t h l = ground (arith, round_at i k t (omega arith))
at-initialise_from (suc (suc n)) i k t h l =
    let t' = set (set t 0 zero_pipe) i (record (at (set t 0 zero_pipe) i) { pipe_id = i }) in
    ground (
      arith,
      at-initialise_from (suc n) (i + 1) k t' (omega arith) (
          omega (
            arith,
            length-set (set t 0 zero_pipe) i (record (at (set t 0 zero_pipe) i) { pipe_id = i }),
            length-set t 0 zero_pipe,
          )),
      round_at i k t (omega arith),
    )

-- On a table of the right length, `ipc_initialise` clears entry 0 alone: of every other entry it
-- changes nothing but the id, so that a pipe in use stays in use.
pub ipc_initialise_lem :
    (s : Ipc) (k : ℕ)
    → length s.pipe ≡ no_of_pipes
    → k < no_of_pipes
    → at (ipc_initialise s).pipe k ≡ numbered k (at s.pipe k)
unfolding ipc_initialise
ipc_initialise_lem s k e l =
    ground (arith, at-initialise_from 105 0 k s.pipe (omega arith) (omega arith))

numbered-pipe_id : (k : ℕ) (p : Pipe) → (numbered k p).pipe_id ≡ k
numbered-pipe_id k p = ground arith

pub ipc_initialise-IsValid : (s : Ipc) → length s.pipe ≡ no_of_pipes → IsValid (ipc_initialise s)
ipc_initialise-IsValid s e = record {
  size = unfold ipc_initialise in length-initialise_from 105 0 s.pipe ∙ e;
  ids = λ i l.
      ap (λ (p : Pipe). p.pipe_id) (ipc_initialise_lem s i e l) ∙ numbered-pipe_id i (at s.pipe i);
}
