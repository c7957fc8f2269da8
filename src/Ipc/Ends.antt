-- ===== src/Ipc/Ends.antt =====
-- The two ends of a pipe of kernel/ipc.c: which buffer a process is given, and what the steps of
-- `ipc_send_message` and `ipc_receive_message` do there.
use armcortex_a7os.Base.{
  ℕ, ◌<◌, ◌≡◌, refl, sym, ◌∙◌, ◌≢◌, ◌⊎◌, inl, inr, true, Option, some, length, set, length-set,
  get_or-set, get_elem?-eq-get_or, ◌==◌, ==_self, ==_ne, if◌then◌else◌, arith,
}
use armcortex_a7os.Ipc.{
  Pipe, Ipc, zero_pipe, at, ipc_success, ipc_empty, Side, first, second, signal_of, set_signal,
  find_buffer, send_along, ipc_send_message, receive_from, ipc_receive_message, say,
}

-- The pipe `id` is active, and its two buffers belong to two different processes.
pub record IsBetween (id src des : ℕ) (s : Ipc) : Type 0 where
  pub inside : id < length s.pipe
  pub live : (at s.pipe id).active ≡ true
  pub apart : src ≢ des
  pub ends :
      (((at s.pipe id).buff_1.pid ≡ src) × ((at s.pipe id).buff_2.pid ≡ des))
      ⊎ (((at s.pipe id).buff_1.pid ≡ des) × ((at s.pipe id).buff_2.pid ≡ src))

abbrev pub IsQuiet : ℕ → Ipc → Type 0
IsQuiet id s =
    ((at s.pipe id).buff_1.signal ≡ ipc_empty) × ((at s.pipe id).buff_2.signal ≡ ipc_empty)

-- Where the signal for `des` goes.
abbrev pub side_of : ℕ → Pipe → Side
side_of pid p = if p.buff_1.pid == pid then first else second

-- The state that holds the signal `sig` for `des`.
abbrev pub holding : (id des sig : ℕ) → Ipc → Ipc
holding id des sig s = record s {
  pipe = set s.pipe id (set_signal (side_of des (at s.pipe id)) sig (at s.pipe id));
}

pub find_buffer-end :
    {id src des : ℕ} {s : Ipc} (t : Ipc)
    → IsBetween id src des s
    → (find_buffer src (at s.pipe id) t ≡ (some (side_of src (at s.pipe id)), t))
      × (find_buffer des (at s.pipe id) t ≡ (some (side_of des (at s.pipe id)), t))
unfolding find_buffer
find_buffer-end {id} {src} {des} {s} t b = elim b.ends [
  | inl (p, q) ↦ rw (p, q, ==_self src, ==_ne src des b.apart, ==_self des) (refl, refl)
  | inr (p, q) ↦
      rw (p, q, ==_self des, ==_ne des src (λ e. b.apart (sym e)), ==_self src) (refl, refl)
]

pub quiet_side :
    (x : Side) (p : Pipe)
    → p.buff_1.signal ≡ ipc_empty
    → p.buff_2.signal ≡ ipc_empty
    → signal_of x p ≡ ipc_empty
quiet_side first p a b = a
quiet_side second p a b = b

send_step :
    (id src des sig : ℕ) (s : Ipc) (x y : Option Side)
    → id < length s.pipe
    → find_buffer src (at s.pipe id) s ≡ (x, s)
    → find_buffer des (at s.pipe id) s ≡ (y, s)
    → ipc_send_message id src des sig s ≡ send_along id (at s.pipe id) x y sig s
unfolding ipc_send_message
send_step id src des sig s x y l e f =
    rw (get_elem?-eq-get_or s.pipe id zero_pipe l, ipc_send_message, e, f)

pub send_between :
    {id src des : ℕ} (sig : ℕ) {s : Ipc}
    → IsBetween id src des s
    → ipc_send_message id src des sig s
      ≡ send_along id
          (at s.pipe id)
          (some (side_of src (at s.pipe id)))
          (some (side_of des (at s.pipe id)))
          sig
          s
send_between {id} {src} {des} sig {s} b =
    send_step id src des sig s _ _ b.inside (find_buffer-end s b).0 (find_buffer-end s b).1

pub send_along-quiet :
    (id sig : ℕ) (p : Pipe) (x y : Side) (s : Ipc)
    → p.active ≡ true
    → signal_of x p ≡ ipc_empty
    → signal_of y p ≡ ipc_empty
    → send_along id p (some x) (some y) sig s
      ≡ some (ipc_success, record s { pipe = set s.pipe id (set_signal y sig p) })
unfolding send_along
send_along-quiet id sig p x y s h a b = simp (send_along, h, a, b)

pub send_quiet :
    {id src des : ℕ} (sig : ℕ) {s : Ipc}
    → IsBetween id src des s
    → IsQuiet id s
    → ipc_send_message id src des sig s ≡ some (ipc_success, holding id des sig s)
send_quiet {id} {src} {des} sig {s} b (q₁, q₂) =
    let p = at s.pipe id in
    send_between sig b
    ∙ send_along-quiet id sig p (side_of src p) (side_of des p) s b.live
        (quiet_side (side_of src p) p q₁ q₂) (quiet_side (side_of des p) p q₁ q₂)

pub receive_step :
    (id des : ℕ) (s : Ipc) (x : Option Side)
    → id < length s.pipe
    → find_buffer des (at s.pipe id) s ≡ (x, s)
    → ipc_receive_message id des s ≡ receive_from id (at s.pipe id) x s
unfolding ipc_receive_message
receive_step id des s x l e = rw (get_elem?-eq-get_or s.pipe id zero_pipe l, ipc_receive_message, e)

pub set_signal-keeps :
    (x : Side) (sig : ℕ) (p : Pipe)
    → ((set_signal x sig p).active ≡ p.active)
      × ((set_signal x sig p).buff_1.pid ≡ p.buff_1.pid)
      × ((set_signal x sig p).buff_2.pid ≡ p.buff_2.pid)
      × (signal_of x (set_signal x sig p) ≡ sig)
set_signal-keeps first sig p = (refl, refl, refl, refl)
set_signal-keeps second sig p = (refl, refl, refl, refl)

pub at-holding :
    {id src des : ℕ} (sig : ℕ) {s : Ipc}
    → IsBetween id src des s
    → at (holding id des sig s).pipe id ≡ set_signal (side_of des (at s.pipe id)) sig (at s.pipe id)
at-holding {id} {src} {des} sig {s} b = rw (
  get_or-set s.pipe id id (set_signal (side_of des (at s.pipe id)) sig (at s.pipe id)) zero_pipe
      b.inside,
  ==_self id,
)

pub holding-IsBetween :
    {id src des : ℕ} (sig : ℕ) {s : Ipc}
    → IsBetween id src des s
    → IsBetween id src des (holding id des sig s)
holding-IsBetween {id} {src} {des} sig {s} b =
    let k = set_signal-keeps (side_of des (at s.pipe id)) sig (at s.pipe id) in
    record {
      inside = rw length-set b.inside;
      live = rw (at-holding sig b) (k.0 ∙ b.live);
      apart = b.apart;
      ends = rw (at-holding sig b) (rw (k.1, k.2) b.ends);
    }

pub side_of-holding :
    {id src des : ℕ} (sig : ℕ) {s : Ipc} (pid : ℕ)
    → IsBetween id src des s
    → side_of pid (at (holding id des sig s).pipe id) ≡ side_of pid (at s.pipe id)
side_of-holding {id} {src} {des} sig {s} pid b =
    let k = set_signal-keeps (side_of des (at s.pipe id)) sig (at s.pipe id) in
    rw (at-holding sig b, k.1)

pub restore_quiet :
    (x : Side) (sig : ℕ) (p : Pipe)
    → signal_of x p ≡ ipc_empty
    → set_signal x ipc_empty (set_signal x sig p) ≡ p
restore_quiet first sig p e = ground arith
restore_quiet second sig p e = ground arith

pub receive_from-full :
    (id sig : ℕ) (p : Pipe) (x : Side) (s : Ipc)
    → signal_of x p ≡ sig
    → sig ≢ ipc_empty
    → receive_from id p (some x) s
      ≡ some (sig, record s { pipe = set s.pipe id (set_signal x ipc_empty p) })
unfolding receive_from
receive_from-full id sig p x s e n = rw (e, ==_ne sig ipc_empty n)

pub receive_from-empty :
    (id : ℕ) (p : Pipe) (x : Side) (s : Ipc)
    → signal_of x p ≡ ipc_empty
    → receive_from id p (some x) s
      ≡ some (ipc_empty, say "IPC(ipc_receive_message): Nothing to receive. Buffer empty\n" s)
unfolding receive_from
receive_from-empty id p x s e = rw e
