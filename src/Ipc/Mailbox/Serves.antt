-- ===== src/Ipc/Mailbox/Serves.antt =====
-- The kernel's calls on a pipe answer as the mailbox does (`ipc_send_message` and
-- `ipc_receive_message` of kernel/ipc.c).
use armcortex_a7os.Base.{
  ℕ, ◌≡◌, refl, sym, ◌∙◌, ap, ◌≢◌, ◌⊎◌, inl, inr, List, [], ◌∷◌, none, some, ==_self, ==_ne,
}
use armcortex_a7os.Ipc.{
  Pipe, Ipc, at, ipc_empty, Side, first, second, signal_of, set_signal, ipc_receive_message,
  receive_from, say,
}
use armcortex_a7os.Ipc.Ends.{
  IsBetween, side_of, holding, find_buffer-end, send_between, send_along-quiet, receive_step,
  set_signal-keeps, at-holding, holding-IsBetween, side_of-holding, receive_from-full,
  receive_from-empty,
}
use armcortex_a7os.Ipc.Message.{send_along-busy}
use armcortex_a7os.Ipc.Mailbox.{
  End, near, far, opposite, Call, sends, receives, Mail, waiting, taken, serve, serve_all, IsSignal,
  AllSignals, IsLetter, pid_at, perform, perform_all, Carries,
}

ends_apart :
    {id a b : ℕ} {s : Ipc}
    → IsBetween id a b s
    → side_of a (at s.pipe id) ≢ side_of b (at s.pipe id)
ends_apart {id} {a} {b} {s} h = elim h.ends [
  | inl (p, q) ↦ rw (p, ==_self a, ==_ne a b h.apart) (λ e. cc e)
  | inr (p, q) ↦ rw (p, ==_self b, ==_ne b a (λ e. h.apart (sym e))) (λ e. cc e)
]

signal-set :
    (x y : Side) (v : ℕ) (p : Pipe) → x ≢ y → signal_of x (set_signal y v p) ≡ signal_of x p
signal-set first first v p n = absurd (n refl)
signal-set first second v p n = refl
signal-set second first v p n = refl
signal-set second second v p n = absurd (n refl)

turned : {id a b : ℕ} {s : Ipc} → IsBetween id a b s → IsBetween id b a s
turned h = record {
  inside = h.inside;
  live = h.live;
  apart = λ e. h.apart (sym e);
  ends = elim h.ends [ inl q ↦ inr q | inr q ↦ inl q ];
}

seen_from :
    {id a b : ℕ} {s : Ipc} (x : End)
    → IsBetween id a b s
    → IsBetween id (pid_at a b x) (pid_at a b (opposite x)) s
seen_from near h = h
seen_from far h = turned h

held_here :
    {id src des : ℕ} (v : ℕ) {s : Ipc}
    → IsBetween id src des s
    → signal_of (side_of des (at (holding id des v s).pipe id)) (at (holding id des v s).pipe id)
      ≡ v
held_here {id} {src} {des} v {s} b =
    ap (λ (x : Side). signal_of x (at (holding id des v s).pipe id)) (side_of-holding v des b)
    ∙ ap (λ (p : Pipe). signal_of (side_of des (at s.pipe id)) p) (at-holding v b)
    ∙ (set_signal-keeps (side_of des (at s.pipe id)) v (at s.pipe id)).3

held_there :
    {id src des : ℕ} (v : ℕ) {s : Ipc}
    → IsBetween id src des s
    → signal_of (side_of src (at (holding id des v s).pipe id)) (at (holding id des v s).pipe id)
      ≡ signal_of (side_of src (at s.pipe id)) (at s.pipe id)
held_there {id} {src} {des} v {s} b =
    ap (λ (x : Side). signal_of x (at (holding id des v s).pipe id)) (side_of-holding v src b)
    ∙ ap (λ (p : Pipe). signal_of (side_of src (at s.pipe id)) p) (at-holding v b)
    ∙ signal-set (side_of src (at s.pipe id)) (side_of des (at s.pipe id)) v (at s.pipe id)
        (ends_apart b)

-- The pipe with another signal at one end.
put-Carries :
    {id a b : ℕ} {m : Mail} {s : Ipc} (x : End) (v : ℕ) (m' : Mail)
    → Carries id a b m s
    → IsLetter m'
    → waiting x m' ≡ v
    → waiting (opposite x) m' ≡ waiting (opposite x) m
    → Carries id a b m' (holding id (pid_at a b x) v s)
put-Carries near v m' c l e f =
    let t = turned c.between in
    record {
      between = turned (holding-IsBetween v t);
      letter = l;
      signals = elim [
        | near ↦ held_here v t ∙ sym e
        | far ↦ held_there v t ∙ c.signals far ∙ sym f
      ];
    }
put-Carries far v m' c l e f = record {
  between = holding-IsBetween v c.between;
  letter = l;
  signals = elim [
    | near ↦ held_there v (c.between) ∙ c.signals near ∙ sym f
    | far ↦ held_here v (c.between) ∙ sym e
  ];
}

elsewhere-Carries :
    {id a b : ℕ} {m : Mail} {s : Ipc} (s' : Ipc)
    → Carries id a b m s
    → s'.pipe ≡ s.pipe
    → Carries id a b m s'
elsewhere-Carries s' c e = record {
  between = record {
    inside = rw e c.between.inside;
    live = rw e c.between.live;
    apart = c.between.apart;
    ends = rw e c.between.ends;
  };
  letter = c.letter;
  signals = λ x. rw e (c.signals x);
}

waiting_own : (x : End) (v : ℕ) → waiting x (some (x, v)) ≡ v
waiting_own near v = refl
waiting_own far v = refl

waiting_opposite : (x : End) (v : ℕ) → waiting (opposite x) (some (x, v)) ≡ ipc_empty
waiting_opposite near v = refl
waiting_opposite far v = refl

opposite-opposite : (x : End) → opposite (opposite x) ≡ x
opposite-opposite near = refl
opposite-opposite far = refl

taken_own : (x : End) (v : ℕ) → taken x (some (x, v)) ≡ none
taken_own near v = refl
taken_own far v = refl

-- A letter is for either end.
letter_end : (x y : End) → (y ≡ x) ⊎ (y ≡ opposite x)
letter_end near near = inl refl
letter_end near far = inr refl
letter_end far near = inr refl
letter_end far far = inl refl

-- The kernel answers a call as the mailbox does, and holds then what the mailbox holds.
record Serves (id a b : ℕ) (c : Call) (m : Mail) (s : Ipc) : Type 0 where
  after : Ipc
  answers : perform id a b c s ≡ some ((serve c m).0, after)
  carries : Carries id a b (serve c m).1 after

send_empty :
    {id a b : ℕ} {s : Ipc} (x : End) (v : ℕ)
    → v ≢ ipc_empty
    → Carries id a b none s
    → Serves id a b (sends x v) none s
unfolding perform
send_empty {id} {a} {b} {s} x v n c =
    let p = at s.pipe id in
    let h = seen_from x c.between in
    record {
      after = holding id (pid_at a b (opposite x)) v s;
      answers =
          send_between v h
          ∙ send_along-quiet id v p (side_of (pid_at a b x) p) (side_of (pid_at a b (opposite x)) p)
              s h.live (c.signals x) (c.signals (opposite x));
      carries =
          put-Carries (opposite x) v (some (opposite x, v)) c n (waiting_own (opposite x) v)
            (waiting_opposite (opposite x) v);
    }

send_full :
    {id a b : ℕ} {s : Ipc} (x : End) (v : ℕ) (y : End) (u : ℕ)
    → Carries id a b (some (y, u)) s
    → Serves id a b (sends x v) (some (y, u)) s
unfolding perform
send_full {id} {a} {b} {s} x v y u c =
    let p = at s.pipe id in
    let h = seen_from x c.between in
    let (s', e, k) =
      send_along-busy id v p (side_of (pid_at a b x) p) (side_of (pid_at a b (opposite x)) p) s
        h.live
        (elim (letter_end x y) [
          | inl e ↦ inl (rw (c.signals x, e, waiting_own x u) (c.letter))
          | inr e ↦ inr (rw (c.signals (opposite x), e, waiting_own (opposite x) u) (c.letter))
        ]) in
    record { after = s'; answers = send_between v h ∙ e; carries = elsewhere-Carries s' c k }

finds_end :
    {id a b : ℕ} {s : Ipc} (x : End)
    → IsBetween id a b s
    → ipc_receive_message id (pid_at a b x) s
      ≡ receive_from id (at s.pipe id) (some (side_of (pid_at a b x) (at s.pipe id))) s
finds_end {id} {a} {b} {s} x h =
    let g = seen_from x h in
    receive_step id (pid_at a b x) s (some (side_of (pid_at a b x) (at s.pipe id))) g.inside
      (find_buffer-end s g).0

receive_empty :
    {id a b : ℕ} {s : Ipc} (x : End) (m : Mail)
    → waiting x m ≡ ipc_empty
    → taken x m ≡ m
    → Carries id a b m s
    → Serves id a b (receives x) m s
unfolding perform
receive_empty {id} {a} {b} {s} x m e f c =
    let p = at s.pipe id in
    record {
      after = say "IPC(ipc_receive_message): Nothing to receive. Buffer empty\n" s;
      answers =
          finds_end x c.between
          ∙ receive_from-empty id p (side_of (pid_at a b x) p) s (c.signals x ∙ e)
          ∙ rw e refl;
      carries = rw f (elsewhere-Carries _ c refl);
    }

receive_full :
    {id a b : ℕ} {s : Ipc} (x : End) (v : ℕ)
    → Carries id a b (some (x, v)) s
    → Serves id a b (receives x) (some (x, v)) s
unfolding perform
receive_full {id} {a} {b} {s} x v c =
    let p = at s.pipe id in
    record {
      after = holding id (pid_at a b x) ipc_empty s;
      answers =
          finds_end x c.between
          ∙ receive_from-full id v p (side_of (pid_at a b x) p) s (c.signals x ∙ waiting_own x v)
              c.letter
          ∙ rw (waiting_own x v) refl;
      carries =
          rw (taken_own x v) (put-Carries x ipc_empty none c tt refl (sym (waiting_opposite x v)));
    }

serves :
    {id a b : ℕ} (c : Call) (m : Mail) {s : Ipc}
    → IsSignal c
    → Carries id a b m s
    → Serves id a b c m s
serves (sends x v) none n h = send_empty x v n h
serves (sends x v) (some (y, u)) n h = send_full x v y u h
serves (receives x) none n h = receive_empty x none refl refl h
serves (receives near) (some (near, u)) n h = receive_full near u h
serves (receives near) (some (far, u)) n h = receive_empty near (some (far, u)) refl refl h
serves (receives far) (some (near, u)) n h = receive_empty far (some (near, u)) refl refl h
serves (receives far) (some (far, u)) n h = receive_full far u h

-- A pipe is a mailbox for one letter. Let the active pipe `id` join two different processes, and hold
-- just what the mailbox holds. Then for whatever sequence of sends and receives by the two, of signals
-- other than -1, the kernel has an outcome for each call and answers just what the mailbox does: a send
-- gives 1 if no letter waits and is refused with 0 otherwise, and a receive gives, once, the signal
-- that waits for the caller, and -1 where none does.
pub perform_all-serve_all :
    {id a b : ℕ} (cs : List Call) (m : Mail) {s : Ipc}
    → AllSignals cs
    → Carries id a b m s
    → perform_all id a b cs s ≡ some (serve_all cs m)
unfolding perform_all serve_all AllSignals
perform_all-serve_all [] m t h = refl
perform_all-serve_all (c ∷ cs) m (t, ts) h =
    let r = serves c m t h in
    rw (r.answers, perform_all, perform_all-serve_all cs (serve c m).1 ts r.carries) refl
