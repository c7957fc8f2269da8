-- ===== src/Ipc/Message.antt =====
-- Messages along a pipe: `ipc_send_message` and `ipc_receive_message` of kernel/ipc.c.
use armcortex_a7os.Base.{
  Option-cases, ℕ, ◌≡◌, refl, sym, ◌∙◌, ap, ◌≢◌, ◌⊎◌, inl, inr, true, List, Option, none, some,
  get_elem?, set, set-get_or, set-set, get_or-of_get_elem?, Option-cases, ==_iff, ◌==◌, ==_self,
  ==_ne, Bool-cases,
}
use armcortex_a7os.Ipc.{
  Pipe, Ipc, zero_pipe, at, ipc_failure, ipc_success, ipc_empty, Side, signal_of, set_signal,
  find_buffer, send_along, ipc_send_message, receive_from, ipc_receive_message, say,
}
use armcortex_a7os.Ipc.Ends.{
  IsBetween, IsQuiet, side_of, holding, find_buffer-end, quiet_side, send_between, send_quiet,
  receive_step, set_signal-keeps, at-holding, holding-IsBetween, side_of-holding, restore_quiet,
  receive_from-full,
}

-- A signal other than -1, sent along an active pipe between two different processes whose two buffers
-- are empty, is accepted; the receiver gets exactly that signal, and receiving it restores the state
-- from before the send.
pub send-receive :
    {id src des : ℕ} (sig : ℕ) {s : Ipc}
    → IsBetween id src des s
    → IsQuiet id s
    → sig ≢ ipc_empty
    → (ipc_send_message id src des sig s ≡ some (ipc_success, holding id des sig s))
      × (ipc_receive_message id des (holding id des sig s) ≡ some (sig, s))
send-receive {id} {src} {des} sig {s} b q n = (send_quiet sig b q, received ∙ restored)
  where
    x : Side
    x = side_of des (at s.pipe id)

    p' : Pipe
    p' = set_signal x sig (at s.pipe id)

    t : Ipc
    t = holding id des sig s

    answer : Side → Option Side × Ipc
    answer y = (some y, t)

    finds : find_buffer des (at t.pipe id) t ≡ (some x, t)
    finds = (find_buffer-end t (holding-IsBetween sig b)).1 ∙ ap answer (side_of-holding sig des b)

    received :
        ipc_receive_message id des t
        ≡ some (sig, record s { pipe = set t.pipe id (set_signal x ipc_empty p') })
    received =
        receive_step id des t (some x) (holding-IsBetween sig b).inside finds
        ∙ ap (λ (p : Pipe). receive_from id p (some x) t) (at-holding sig b)
        ∙ receive_from-full id sig p' x t (set_signal-keeps x sig (at s.pipe id)).3 n

    same_pipes : set t.pipe id (set_signal x ipc_empty p') ≡ s.pipe
    same_pipes =
        set-set s.pipe id p' (set_signal x ipc_empty p')
        ∙ ap (λ (p : Pipe). set s.pipe id p)
            (restore_quiet x sig (at s.pipe id) (quiet_side x (at s.pipe id) q.0 q.1))
        ∙ set-get_or s.pipe id zero_pipe

    result : List Pipe → Option (ℕ × Ipc)
    result u = some (sig, record s { pipe = u })

    restored : result (set t.pipe id (set_signal x ipc_empty p')) ≡ result s.pipe
    restored = ap result same_pipes

pub send_along-busy :
    (id sig : ℕ) (p : Pipe) (x y : Side) (s : Ipc)
    → p.active ≡ true
    → (signal_of x p ≢ ipc_empty) ⊎ (signal_of y p ≢ ipc_empty)
    → (s' : Ipc) × (send_along id p (some x) (some y) sig s ≡ some (ipc_failure, s'))
      × (s'.pipe ≡ s.pipe)
unfolding send_along
send_along-busy id sig p x y s h full = elim (Bool-cases (signal_of x p == ipc_empty)) [
  | inr e ↦
      (say "IPC(ipc_send_message): Sender's buffer is full\n" s, simp (send_along, h, e), refl)
  | inl e ↦ (
    say "IPC(ipc_send_message): Receiver's buffer is full\n" s,
    simp (send_along, h, e, ==_ne (signal_of y p) ipc_empty (receiver full ((==_iff _ _).0 e))),
    refl,
  )
]
  where
    receiver :
        (signal_of x p ≢ ipc_empty) ⊎ (signal_of y p ≢ ipc_empty)
        → signal_of x p ≡ ipc_empty
        → signal_of y p ≢ ipc_empty
    receiver (inl n) e = absurd (n e)
    receiver (inr n) e = n

-- The two sides of a pipe are those of its two processes.
either_side :
    {id src des : ℕ} {s : Ipc}
    → IsBetween id src des s
    → ((at s.pipe id).buff_1.signal ≢ ipc_empty) ⊎ ((at s.pipe id).buff_2.signal ≢ ipc_empty)
    → (signal_of (side_of src (at s.pipe id)) (at s.pipe id) ≢ ipc_empty)
      ⊎ (signal_of (side_of des (at s.pipe id)) (at s.pipe id) ≢ ipc_empty)
either_side {id} {src} {des} {s} b full = elim b.ends [
  | inl (p, q) ↦ rw (p, ==_self src, ==_ne src des b.apart) full
  | inr (p, q) ↦ rw (p, ==_self des, ==_ne des src (λ e. b.apart (sym e))) (swap full)
]
  where
    swap : {A B : Type 0} → A ⊎ B → B ⊎ A
    swap (inl a) = inr a
    swap (inr c) = inl c

-- A pipe carries one signal at a time: while either buffer of an active pipe between two different
-- processes holds a signal, a send in either direction is refused with 0 and leaves every pipe as it
-- is.
pub send_busy :
    {id src des : ℕ} (sig : ℕ) {s : Ipc}
    → IsBetween id src des s
    → ((at s.pipe id).buff_1.signal ≢ ipc_empty) ⊎ ((at s.pipe id).buff_2.signal ≢ ipc_empty)
    → (s' : Ipc) × (ipc_send_message id src des sig s ≡ some (ipc_failure, s')) × (s'.pipe ≡ s.pipe)
send_busy {id} {src} {des} sig {s} b full =
    let p = at s.pipe id in
    let (s', e, k) =
      send_along-busy id sig p (side_of src p) (side_of des p) s b.live (either_side b full) in
    (s', send_between sig b ∙ e, k)

find_buffer-stranger :
    (pid : ℕ) (p : Pipe) (s : Ipc)
    → p.buff_1.pid ≢ pid
    → p.buff_2.pid ≢ pid
    → (find_buffer pid p s).0 ≡ none
unfolding find_buffer
find_buffer-stranger pid p s n m = rw (==_ne p.buff_1.pid pid n, ==_ne p.buff_2.pid pid m)

-- A process that is at neither end of a pipe gets no answer from `ipc_receive_message`: it reads
-- through a null pointer.
pub receive_stranger :
    (id pid : ℕ) (s : Ipc)
    → (at s.pipe id).buff_1.pid ≢ pid
    → (at s.pipe id).buff_2.pid ≢ pid
    → ipc_receive_message id pid s ≡ none
unfolding ipc_receive_message receive_from
receive_stranger id pid s n m = elim (Option-cases (get_elem? s.pipe id)) [
  | inl e ↦ rw (e, ipc_receive_message)
  | inr (p, e) ↦
      let q : at s.pipe id ≡ p = get_or-of_get_elem? s.pipe id zero_pipe e in
      rw (e, ipc_receive_message)
        (rw (
          find_buffer-stranger pid p s (λ h. n (ap (λ (u : Pipe). u.buff_1.pid) q ∙ h))
              (λ h. m (ap (λ (u : Pipe). u.buff_2.pid) q ∙ h)),
          receive_from,
        ))
]
