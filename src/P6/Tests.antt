-- ===== src/P6/Tests.antt =====
-- The waiter against a world that logs its messages, the newest first.
use armcortex_a7os.Base.{ℕ, ◌+◌, ◌≡◌, refl, List, [], ◌∷◌, replicate}
use armcortex_a7os.Libc.Sys.{Sys}
use armcortex_a7os.P6.{Waiter, waiter, initialise_from, initialise}
use armcortex_a7os.P6.Rounds.{IsReady}
use armcortex_a7os.P6.Start.{initialise-IsReady}

-- The next pid, and the messages sent.
pub record Log : Type 0 where
  next : ℕ
  sent : List (ℕ × ℕ)

abbrev log_sys : Sys Log
log_sys = record {
  yield = λ w. w;
  get_pid = λ w. 1;
  get_parent_pid = λ w. 0;
  fork = λ w. (w.next, record w { next = w.next + 1 });
  exec = λ x p w. w;
  kill = λ pid x w. (0, w);
  make_pipe = λ a b w. (b, w);
  msend = λ p a b x w. (1, record w { sent = (b, x) ∷ w.sent });
  mreceive = λ p b w. (0, w);
  open_file = λ x w. (0, w);
  close = λ fd w. (0, w);
  write = λ fd x n w. (0, w);
  read = λ fd n w. ((0, []), w);
  print = λ x w. w;
}

abbrev table : List ℕ → Waiter
table c = record {
  child_pipe = replicate 16 0;
  chopstick = c;
  child_id = replicate 16 0;
  pid_parent = 1;
  first_index = 0;
}

start : Log
start = record { next = 2; sent = [] }

abbrev children : List ℕ
children = 2 ∷ 3 ∷ 4 ∷ 5 ∷ 6 ∷ 7 ∷ 8 ∷ 9 ∷ 10 ∷ 11 ∷ 12 ∷ 13 ∷ 14 ∷ 15 ∷ 16 ∷ 17 ∷ []

abbrev seated : Waiter
seated = record (table (replicate 16 1)) { child_pipe = children; child_id = children }

abbrev begun : Log
begun = record {
  next = 18;
  sent =
      (17, 2)
      ∷ (16, 2)
      ∷ (15, 2)
      ∷ (14, 2)
      ∷ (13, 2)
      ∷ (12, 2)
      ∷ (11, 2)
      ∷ (10, 2)
      ∷ (9, 2)
      ∷ (8, 2)
      ∷ (7, 2)
      ∷ (6, 2)
      ∷ (5, 2)
      ∷ (4, 2)
      ∷ (3, 2)
      ∷ (2, 2)
      ∷ [];
}

begins : initialise log_sys 0 (table (replicate 16 5)) start ≡ waiter seated begun
unfolding initialise initialise_from start
begins = refl

initialise-IsReady_example :
    IsReady seated × (seated.first_index ≡ 0) × (seated.pid_parent ≡ log_sys.get_pid start)
initialise-IsReady_example =
    initialise-IsReady log_sys 0 (table (replicate 16 5)) seated start begun refl refl begins
