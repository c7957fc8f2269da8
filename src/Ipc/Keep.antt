-- ===== src/Ipc/Keep.antt =====
-- The calls of kernel/ipc.c keep the table of pipes valid, on every branch.
use armcortex_a7os.Base.{
  Bool, ℕ, ◌≡◌, refl, sym, ◌∙◌, ap, inl, inr, true, false, not, List, Option, none, some, get_elem?,
  set, length-set, get_or-set, get_or-set_ne, String, get_or-of_get_elem?, Option-cases, Bool-cases,
  ℕ_discrete, ◌==◌, ==_self, if◌then◌else◌, arith,
}
use armcortex_a7os.Ipc.{
  Pipe, Ipc, zero_pipe, at, ipc_pipe, ipc_send_message, ipc_receive_message, find_buffer,
  send_along, receive_from, set_signal, signal_of, Side, first, second, ipc_empty,
}
use armcortex_a7os.Ipc.Inv.{IsValid, Route, existing, fresh, stolen, opened}
use armcortex_a7os.Ipc.Open.{ipc_pipe_lem, routed}

-- Writing an entry with the id that stands there keeps the table valid.
set-IsValid :
    {s : Ipc} (k : ℕ) (p : Pipe) (out : List String)
    → IsValid s
    → p.pipe_id ≡ (at s.pipe k).pipe_id
    → IsValid (record { pipe = set s.pipe k p; out = out })
set-IsValid {s} k p out v e = record {
  size = length-set s.pipe k p ∙ v.size;
  ids = λ i l. elim (ℕ_discrete k i) [
    | yes q ↦
        rw (q, get_or-set s.pipe i i p zero_pipe (omega (arith, v.size)), ==_self i)
          (rw q at e ∙ v.ids i l)
    | no ne ↦ rw (get_or-set_ne s.pipe k i p zero_pipe ne) (v.ids i l)
  ];
}

-- A call that has an outcome leaves a valid table.
abbrev pub Kept : Option (ℕ × Ipc) → Type 0
Kept none = Unit {0}
Kept (some (r, s')) = IsValid s'

same_pipes-IsValid : {s : Ipc} (s' : Ipc) → IsValid s → s'.pipe ≡ s.pipe → IsValid s'
same_pipes-IsValid s' v e = record { size = rw e v.size; ids = rw e v.ids }

routed-IsValid :
    (a b : ℕ) (s : Ipc) (k : ℕ) (route : Route a b s.pipe k)
    → IsValid s
    → IsValid (routed a b s k route)
routed-IsValid a b s k (existing f) v = v
routed-IsValid a b s k (fresh n f) v = set-IsValid k (opened a b (at s.pipe k)) s.out v refl
routed-IsValid a b s k (stolen n f e) v = set-IsValid k (opened a b (at s.pipe k)) s.out v refl

pub ipc_pipe-Kept : (a b : ℕ) (s : Ipc) → IsValid s → Kept (ipc_pipe a b s)
ipc_pipe-Kept a b s v =
    let (k, route, e) = ipc_pipe_lem a b s v in rw e (routed-IsValid a b s k route v)

pipe-find_buffer : (pid : ℕ) (p : Pipe) (s : Ipc) → (find_buffer pid p s).1.pipe ≡ s.pipe
unfolding find_buffer
pipe-find_buffer pid p s = ground arith

set_signal-pipe_id : (x : Side) (sig : ℕ) (p : Pipe) → (set_signal x sig p).pipe_id ≡ p.pipe_id
set_signal-pipe_id first sig p = refl
set_signal-pipe_id second sig p = refl

Kept-if : (b : Bool) (m n : Option (ℕ × Ipc)) → Kept m → Kept n → Kept (if b then m else n)
Kept-if true m n h k = h
Kept-if false m n h k = k

send_along-Kept :
    (id : ℕ) (p : Pipe) (x y : Option Side) (sig : ℕ) (s : Ipc)
    → IsValid s
    → p.pipe_id ≡ (at s.pipe id).pipe_id
    → Kept (send_along id p x y sig s)
unfolding send_along
send_along-Kept id p none y sig s v e = Kept-if (not p.active) _ _ (same_pipes-IsValid _ v refl) tt
send_along-Kept id p (some a) none sig s v e =
    Kept-if (not p.active) _ _ (same_pipes-IsValid _ v refl)
      (Kept-if (not (signal_of a p == ipc_empty)) _ _ (same_pipes-IsValid _ v refl) tt)
send_along-Kept id p (some a) (some b) sig s v e =
    Kept-if (not p.active) _ _ (same_pipes-IsValid _ v refl) (
      Kept-if (not (signal_of a p == ipc_empty)) _ _ (same_pipes-IsValid _ v refl) (
        Kept-if (not (signal_of b p == ipc_empty)) _ _ (same_pipes-IsValid _ v refl)
          (set-IsValid id (set_signal b sig p) s.out v (set_signal-pipe_id b sig p ∙ e))))

receive_from-Kept :
    (id : ℕ) (p : Pipe) (x : Option Side) (s : Ipc)
    → IsValid s
    → p.pipe_id ≡ (at s.pipe id).pipe_id
    → Kept (receive_from id p x s)
unfolding receive_from
receive_from-Kept id p none s v e = tt
receive_from-Kept id p (some b) s v e = elim (Bool-cases (signal_of b p == ipc_empty)) [
  | inl q ↦ rw q (same_pipes-IsValid _ v refl)
  | inr q ↦
      rw q
        (set-IsValid id (set_signal b ipc_empty p) s.out v (set_signal-pipe_id b ipc_empty p ∙ e))
]

pub ipc_send_message-Kept :
    (id src des sig : ℕ) (s : Ipc) → IsValid s → Kept (ipc_send_message id src des sig s)
unfolding ipc_send_message
ipc_send_message-Kept id src des sig s v = elim (Option-cases (get_elem? s.pipe id)) [
  | inl e ↦ rw (e, ipc_send_message) tt
  | inr (p, e) ↦
      let s₁ = (find_buffer src p s).1 in
      let s₂ = (find_buffer des p s₁).1 in
      let same : s₂.pipe ≡ s.pipe = pipe-find_buffer des p s₁ ∙ pipe-find_buffer src p s in
      rw (e, ipc_send_message)
        (send_along-Kept id p _ _ sig s₂ (same_pipes-IsValid s₂ v same) (
          rw same (ap (λ (u : Pipe). u.pipe_id) (sym (get_or-of_get_elem? s.pipe id zero_pipe e)))))
]

pub ipc_receive_message-Kept :
    (id des : ℕ) (s : Ipc) → IsValid s → Kept (ipc_receive_message id des s)
unfolding ipc_receive_message
ipc_receive_message-Kept id des s v = elim (Option-cases (get_elem? s.pipe id)) [
  | inl e ↦ rw (e, ipc_receive_message) tt
  | inr (p, e) ↦
      let s₁ = (find_buffer des p s).1 in
      let same : s₁.pipe ≡ s.pipe = pipe-find_buffer des p s in
      rw (e, ipc_receive_message)
        (receive_from-Kept id p _ s₁ (same_pipes-IsValid s₁ v same) (
          rw same (ap (λ (u : Pipe). u.pipe_id) (sym (get_or-of_get_elem? s.pipe id zero_pipe e)))))
]
