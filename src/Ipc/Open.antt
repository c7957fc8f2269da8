-- ===== src/Ipc/Open.antt =====
-- `ipc_pipe` of kernel/ipc.c: which pipe it gives, and that both ends are given the same one.
use armcortex_a7os.Base.{
  ℕ, zero, suc, ◌<◌, ◌≡◌, refl, sym, ◌∙◌, ap, ap₂, inl, inr, true, ◌&&◌, List, [], ◌∷◌, Option,
  some, length, set, get_elem?-eq-get_or, ==_ne, minus_one, arith,
}
use armcortex_a7os.Ipc.{
  Pipe, Ipc, no_of_pipes, zero_pipe, at, joins, find_pipe, new_pipe_id, new_pipe, ipc_pipe,
  buffer_initialise,
}
use armcortex_a7os.Ipc.Inv.{
  find_pipe-at, IsValid, NoneJoining, find_pipe-cases, AllActive, new_pipe_id-cases, opened, Route,
  existing, fresh, stolen,
}

-- The state after `ipc_pipe a b` came to the pipe `k`.
abbrev pub routed : (a b : ℕ) (s : Ipc) (k : ℕ) → Route a b s.pipe k → Ipc
routed a b s k (existing f) = s
routed a b s k (fresh n f) = record s { pipe = set s.pipe k (opened a b (at s.pipe k)) }
routed a b s k (stolen n f e) = record s { pipe = set s.pipe k (opened a b (at s.pipe k)) }

new_pipe-at :
    (a b k : ℕ) (s : Ipc)
    → new_pipe_id s.pipe ≡ k
    → k < length s.pipe
    → k < no_of_pipes
    → new_pipe a b s ≡ some (k, record s { pipe = set s.pipe k (opened a b (at s.pipe k)) })
unfolding new_pipe buffer_initialise
new_pipe-at a b k s e l m =
    rw (e, ==_ne k minus_one (omega arith), get_elem?-eq-get_or s.pipe k zero_pipe l)
      (ap (λ (i : ℕ). some (i, record s { pipe = set s.pipe i (opened a b (at s.pipe k)) })) e)

-- On a valid table `ipc_pipe` gives the pipe that joins the two processes already, and changes
-- nothing; if there is none, it opens the first idle pipe for them, both buffers empty; and if every
-- pipe is in use, it takes pipe 0 away from its owners and opens that.
pub ipc_pipe_lem :
    (a b : ℕ) (s : Ipc)
    → IsValid s
    → (k : ℕ) × (route : Route a b s.pipe k) × (ipc_pipe a b s ≡ some (k, routed a b s k route))
unfolding ipc_pipe
ipc_pipe_lem a b s v = elim (find_pipe-cases a b s.pipe) [
  | inr (k, e, f) ↦ (k, existing f, rw (e, ipc_pipe, v.ids k (omega (arith, f.inside, v.size))))
  | inl (e, n) ↦ elim (new_pipe_id-cases s.pipe) [
    | inl (q, all) ↦ (
      0,
      stolen n all refl,
      rw (e, ipc_pipe) (new_pipe-at a b 0 s q (omega (arith, v.size)) (omega arith)),
    )
    | inr (k, q, f) ↦
        let l : k < no_of_pipes = omega (arith, f.inside, v.size) in
        (k, fresh n f, rw (e, ipc_pipe) (new_pipe-at a b k s (q ∙ v.ids k l) f.inside l))
  ]
]

joins_comm : (a b : ℕ) (p : Pipe) → joins a b p ≡ joins b a p
unfolding joins
joins_comm a b p = ground arith

find_pipe_comm : (a b : ℕ) (t : List Pipe) → find_pipe a b t ≡ find_pipe b a t
unfolding find_pipe
find_pipe_comm a b [] = refl
find_pipe_comm a b (p ∷ ps) = rw (joins_comm a b p, find_pipe_comm a b ps)

joins-opened : (a b : ℕ) (p : Pipe) → joins a b (opened a b p) ≡ true
unfolding joins
joins-opened a b p = ground arith

-- Opening an entry for a pair that no pipe joins makes it the one that is found.
find_pipe-opened :
    (a b : ℕ) (t : List Pipe) (k : ℕ)
    → NoneJoining a b t
    → k < length t
    → find_pipe a b (set t k (opened a b (at t k))) ≡ some (at t k).pipe_id
unfolding find_pipe
find_pipe-opened a b [] k n l = absurd (omega arith)
find_pipe-opened a b (p ∷ ps) zero n l = rw (joins-opened a b p)
find_pipe-opened a b (p ∷ ps) (suc k) n l =
    rw (n 0 (omega arith))
      (find_pipe-opened a b ps k (λ j m. n (suc j) (omega arith)) (omega arith))

found_again :
    (a b : ℕ) (s : Ipc) (k : ℕ) (route : Route a b s.pipe k)
    → IsValid s
    → find_pipe a b (routed a b s k route).pipe ≡ some k
found_again a b s k (existing f) v =
    find_pipe-at a b s.pipe k f ∙ ap some (v.ids k (omega (arith, f.inside, v.size)))
found_again a b s k (fresh n f) v =
    find_pipe-opened a b s.pipe k n f.inside ∙ ap some (v.ids k (omega (arith, f.inside, v.size)))
found_again a b s k (stolen n f z) v =
    let l : k < no_of_pipes = omega arith in
    find_pipe-opened a b s.pipe k n (omega (arith, v.size)) ∙ ap some (v.ids k l)

ipc_pipe-found :
    (a b k : ℕ) (s : Ipc) → find_pipe a b s.pipe ≡ some k → ipc_pipe a b s ≡ some (k, s)
unfolding ipc_pipe
ipc_pipe-found a b k s e = rw (e, ipc_pipe)

same_outcome :
    (i k : ℕ) (t u : Ipc)
    → ◌≡◌ {A = Option (ℕ × Ipc)} (some (i, t)) (some (k, u))
    → (i ≡ k) × (t ≡ u)
same_outcome i k t u e = (cc, cc)

-- Both ends agree: once a process was given the pipe `k` for a pair, asking again for the pair, in
-- either order, gives `k` and changes nothing, provided the table was valid.
pub ipc_pipe_agree :
    (a b k : ℕ) (s s' : Ipc)
    → IsValid s
    → ipc_pipe a b s ≡ some (k, s')
    → (ipc_pipe a b s' ≡ some (k, s')) × (ipc_pipe b a s' ≡ some (k, s'))
ipc_pipe_agree a b k s s' v e =
    let (i, route, q) = ipc_pipe_lem a b s v in
    let (ei, es) = same_outcome i k (routed a b s i route) s' (sym q ∙ e) in
    let f : find_pipe a b s'.pipe ≡ some k =
      ap (λ (t : Ipc). find_pipe a b t.pipe) (sym es) ∙ found_again a b s i route v ∙ ap some ei in
    (ipc_pipe-found a b k s' f, ipc_pipe-found b a k s' (find_pipe_comm b a s'.pipe ∙ f))

-- Where every pipe is in use and none joins the two processes, `ipc_pipe` reports no failure: its
-- result is 0, and pipe 0 is taken from its owners, whatever signals it holds.
pub ipc_pipe_steals :
    (a b : ℕ) (s : Ipc)
    → IsValid s
    → AllActive s.pipe
    → NoneJoining a b s.pipe
    → ipc_pipe a b s ≡ some (0, record s { pipe = set s.pipe 0 (opened a b (at s.pipe 0)) })
ipc_pipe_steals a b s v all n = steal (ipc_pipe_lem a b s v)
  where
    steal :
        (k : ℕ) × (route : Route a b s.pipe k) × (ipc_pipe a b s ≡ some (k, routed a b s k route))
        → ipc_pipe a b s ≡ some (0, record s { pipe = set s.pipe 0 (opened a b (at s.pipe 0)) })
    steal (k, existing f, e) = cc (n k f.inside, ap₂ ◌&&◌ f.live f.joined)
    steal (k, fresh _ f, e) = cc (f.idle, all k f.inside)
    steal (k, stolen _ _ z, e) =
        e ∙ ap (λ (i : ℕ). some (i, record s { pipe = set s.pipe i (opened a b (at s.pipe i)) })) z
