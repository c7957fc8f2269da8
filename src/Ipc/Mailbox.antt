-- ===== src/Ipc/Mailbox.antt =====
-- A pipe of kernel/ipc.c as a mailbox that has room for one letter: what a sequence of calls of
-- `ipc_send_message` and `ipc_receive_message` by the two processes at its ends is to answer.
pub mod Serves
use armcortex_a7os.Base.{
  ℕ, ◌≡◌, refl, sym, ◌∙◌, ap, ◌≢◌, ◌⊎◌, inl, inr, List, [], ◌∷◌, Option, none, some, ==_self, ==_ne,
  ◌==◌, if◌then◌else◌, arith,
}
use armcortex_a7os.Ipc.{
  Pipe, Ipc, at, ipc_failure, ipc_success, ipc_empty, Side, first, second, signal_of, set_signal,
  ipc_send_message, ipc_receive_message, find_buffer, receive_from, send_along, say,
}
use armcortex_a7os.Ipc.Ends.{
  IsBetween, IsQuiet, side_of, holding, find_buffer-end, send_between, send_along-quiet,
  receive_step, set_signal-keeps, at-holding, holding-IsBetween, side_of-holding, receive_from-full,
  receive_from-empty,
}
use armcortex_a7os.Ipc.Message.{send_along-busy}

-- The two ends of a pipe.
pub data End : Type 0 where
  near far : End

abbrev pub opposite : End → End
opposite near = far
opposite far = near

pub data Call : Type 0 where
  sends : End → ℕ → Call
  receives : End → Call

-- The letter that waits: the end that it is for, and the signal.
abbrev pub Mail : Type 0
Mail = Option (End × ℕ)

-- The signal that waits at an end.
abbrev pub waiting : End → Mail → ℕ
waiting x none = ipc_empty
waiting near (some (near, v)) = v
waiting near (some (far, v)) = ipc_empty
waiting far (some (near, v)) = ipc_empty
waiting far (some (far, v)) = v

abbrev pub taken : End → Mail → Mail
taken x none = none
taken near (some (near, v)) = none
taken near (some (far, v)) = some (far, v)
taken far (some (near, v)) = some (near, v)
taken far (some (far, v)) = none

-- What the mailbox answers to a call, and the letter that waits then.
abbrev pub serve : Call → Mail → ℕ × Mail
serve (sends x v) none = (ipc_success, some (opposite x, v))
serve (sends x v) (some l) = (ipc_failure, some l)
serve (receives x) m = (waiting x m, taken x m)

-- The answers to a sequence of calls.
unfoldable pub serve_all : List Call → Mail → List ℕ
serve_all [] m = []
serve_all (c ∷ cs) m = (serve c m).0 ∷ serve_all cs (serve c m).1

-- -1 stands for an empty buffer and is not a signal.
abbrev pub IsSignal : Call → Type 0
IsSignal (sends x v) = v ≢ ipc_empty
IsSignal (receives x) = Unit {0}

unfoldable pub AllSignals : List Call → Type 0
AllSignals [] = Unit {0}
AllSignals (c ∷ cs) = IsSignal c × AllSignals cs

abbrev pub IsLetter : Mail → Type 0
IsLetter none = Unit {0}
IsLetter (some (x, v)) = v ≢ ipc_empty

-- The process at an end.
abbrev pub pid_at : ℕ → ℕ → End → ℕ
pid_at a b near = a
pid_at a b far = b

-- The kernel's function for a call of the process at an end of the pipe `id` between `a` and `b`.
unfoldable pub perform : ℕ → ℕ → ℕ → Call → Ipc → Option (ℕ × Ipc)
perform id a b (sends x v) s = ipc_send_message id (pid_at a b x) (pid_at a b (opposite x)) v s
perform id a b (receives x) s = ipc_receive_message id (pid_at a b x) s

unfoldable pub perform_all : ℕ → ℕ → ℕ → List Call → Ipc → Option (List ℕ)
perform_all id a b [] s = some []
perform_all id a b (c ∷ cs) s = elim (perform id a b c s) [
  | none ↦ none
  | some (r, s') ↦ elim (perform_all id a b cs s') [ none ↦ none | some rs ↦ some (r ∷ rs) ]
]

module _ (id a b : ℕ) where
  -- What waits at an end in the kernel.
  abbrev at_end : End → Ipc → ℕ
  at_end x s = signal_of (side_of (pid_at a b x) (at s.pipe id)) (at s.pipe id)

  -- The pipe joins `a` and `b`, and holds just the letter `m`.
  pub record Carries (m : Mail) (s : Ipc) : Type 0 where
    pub between : IsBetween id a b s
    pub letter : IsLetter m
    pub signals : (x : End) → at_end x s ≡ waiting x m
