-- ===== src/Ipc/Tests.antt =====
-- Runs of the pipes, and their theorems at inputs that meet their hypotheses.
use armcortex_a7os.Ipc.Mailbox.{
  Call, sends, receives, near, far, Carries, AllSignals, serve_all, perform_all,
}
use armcortex_a7os.Ipc.Mailbox.Serves.{perform_all-serve_all}
use armcortex_a7os.Base.{
  ℕ, zero, suc, ◌+◌, ◌<◌, ◌≡◌, refl, inl, inr, true, List, [], ◌∷◌, length, arith, set, some, none,
  minus_one,
}
use armcortex_a7os.Ipc.{
  Pipe, Ipc, zero_pipe, at, ipc_initialise, ipc_pipe, ipc_send_message, ipc_receive_message,
  ipc_success, ipc_failure, find_pipe, joins, new_pipe, new_pipe_id, buffer_initialise,
}
use armcortex_a7os.Ipc.Inv.{IsValid, NoneJoining, Route, opened}
use armcortex_a7os.Ipc.Init.{ipc_initialise_lem, numbered}
use armcortex_a7os.Ipc.Open.{ipc_pipe_lem, ipc_pipe_agree, ipc_pipe_steals, routed}
use armcortex_a7os.Ipc.Ends.{IsBetween, holding}
use armcortex_a7os.Ipc.Message.{send-receive, send_busy, receive_stranger}

-- A table numbered from `i` on, with `p` at each place.
abbrev numbers : ℕ → ℕ → Pipe → List Pipe
numbers zero i p = []
numbers (suc n) i p = record p { pipe_id = i } ∷ numbers n (suc i) p

abbrev idle : Ipc
idle = record { pipe = numbers 105 0 zero_pipe; out = [] }

-- Every pipe joins the processes 3 and 4.
abbrev crowded : Ipc
crowded = record { pipe = numbers 105 0 (opened 3 4 zero_pipe); out = [] }

-- Pipe 0 joins the processes 0 and 1.
abbrev joined : Ipc
joined = record idle { pipe = set idle.pipe 0 (opened 0 1 (at idle.pipe 0)) }

numbers-id : (n i k : ℕ) (p : Pipe) → k < n → (at (numbers n i p) k).pipe_id ≡ i + k
numbers-id zero i k p h = absurd (omega arith)
numbers-id (suc n) i zero p h = omega arith
numbers-id (suc n) i (suc k) p h = omega (arith, numbers-id n (suc i) k p (omega arith))

idle-IsValid : IsValid idle
idle-IsValid = record { size = refl; ids = λ i l. omega (arith, numbers-id 105 0 i zero_pipe l) }

crowded-IsValid : IsValid crowded
crowded-IsValid = record {
  size = refl;
  ids = λ i l. omega (arith, numbers-id 105 0 i (opened 3 4 zero_pipe) l);
}

crowded-active :
    (n i j : ℕ)
    → j < length (numbers n i (opened 3 4 zero_pipe))
    → (at (numbers n i (opened 3 4 zero_pipe)) j).active ≡ true
crowded-active zero i j l = absurd (omega arith)
crowded-active (suc n) i zero l = refl
crowded-active (suc n) i (suc j) l = crowded-active n (suc i) j (omega arith)

crowded-strangers : (n i : ℕ) → NoneJoining 0 1 (numbers n i (opened 3 4 zero_pipe))
unfolding joins
crowded-strangers zero i j l = absurd (omega arith)
crowded-strangers (suc n) i zero l = refl
crowded-strangers (suc n) i (suc j) l = crowded-strangers n (suc i) j (omega arith)

opens_first : ipc_pipe 0 1 idle ≡ some (0, joined)
unfolding ipc_pipe find_pipe joins new_pipe new_pipe_id buffer_initialise
opens_first = refl

between : IsBetween 0 1 0 joined
between = record { inside = omega arith; live = refl; apart = omega arith; ends = inr (refl, refl) }

initialise_clears_one : at (ipc_initialise crowded).pipe 5 ≡ numbered 5 (at crowded.pipe 5)
initialise_clears_one = ipc_initialise_lem crowded 5 refl (omega arith)

ipc_pipe_lem_example :
    (k : ℕ) × (route : Route 0 1 idle.pipe k) × (ipc_pipe 0 1 idle
      ≡ some (k, routed 0 1 idle k route))
ipc_pipe_lem_example = ipc_pipe_lem 0 1 idle idle-IsValid

ipc_pipe_agree_example :
    (ipc_pipe 0 1 joined ≡ some (0, joined)) × (ipc_pipe 1 0 joined ≡ some (0, joined))
ipc_pipe_agree_example = ipc_pipe_agree 0 1 0 idle joined idle-IsValid opens_first

steals :
    ipc_pipe 0 1 crowded
    ≡ some (0, record crowded { pipe = set crowded.pipe 0 (opened 0 1 (at crowded.pipe 0)) })
steals =
    ipc_pipe_steals 0 1 crowded crowded-IsValid (crowded-active 105 0) (crowded-strangers 105 0)

seven_arrives :
    (ipc_send_message 0 1 0 7 joined ≡ some (ipc_success, holding 0 0 7 joined))
    × (ipc_receive_message 0 0 (holding 0 0 7 joined) ≡ some (7, joined))
seven_arrives = send-receive 7 between (refl, refl) (omega arith)

busy-IsBetween : IsBetween 0 1 0 (holding 0 0 7 joined)
busy-IsBetween = record {
  inside = omega arith;
  live = refl;
  apart = omega arith;
  ends = inr (refl, refl);
}

eight_waits :
    (s' : Ipc) × (ipc_send_message 0 1 0 8 (holding 0 0 7 joined) ≡ some (ipc_failure, s'))
    × (s'.pipe ≡ (holding 0 0 7 joined).pipe)
eight_waits = send_busy 8 busy-IsBetween (inl (omega arith))

stranger_faults : ipc_receive_message 0 9 joined ≡ none
stranger_faults = receive_stranger 0 9 joined (omega arith) (omega arith)

abbrev letters : List Call
letters =
    sends near 7 ∷ sends far 8 ∷ receives near ∷ receives far ∷ receives far ∷ sends far 9 ∷ []

joined-Carries : Carries 0 1 0 none joined
joined-Carries = record {
  between = between;
  letter = tt;
  signals = elim [ near ↦ refl | far ↦ refl ];
}

letters-AllSignals : AllSignals letters
unfolding AllSignals
letters-AllSignals = (omega arith, (omega arith, (tt, (tt, (tt, (omega arith, tt))))))

perform_all-serve_all_example : perform_all 0 1 0 letters joined ≡ some (serve_all letters none)
perform_all-serve_all_example = perform_all-serve_all letters none letters-AllSignals joined-Carries

letters_served : serve_all letters none ≡ 1 ∷ 0 ∷ minus_one ∷ 7 ∷ minus_one ∷ 1 ∷ []
unfolding serve_all
letters_served = refl
