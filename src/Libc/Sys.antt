-- ===== src/Libc/Sys.antt =====
-- The system calls of user/libc.c as a user program sees them: each may change the world `W`, that is
-- the kernel, the other processes and the devices, and gives its result.
use armcortex_a7os.Base.{ℕ, List, [], ◌∷◌}

-- `EXIT_SUCCESS`
abbrev pub exit_success : ℕ
exit_success = 0

pub record Sys (W : Type 0) : Type 0 where
  pub yield : W → W
  pub get_pid : W → ℕ
  pub get_parent_pid : W → ℕ
  pub fork : W → ℕ × W
  pub exec : ℕ → ℕ → W → W
  pub kill : ℕ → ℕ → W → ℕ × W
  pub make_pipe : ℕ → ℕ → W → ℕ × W
  pub msend : ℕ → ℕ → ℕ → ℕ → W → ℕ × W
  pub mreceive : ℕ → ℕ → W → ℕ × W
  -- A name, and the bytes of a buffer.
  pub open_file : List ℕ → W → ℕ × W
  pub close : ℕ → W → ℕ × W
  pub write : ℕ → List ℕ → ℕ → W → ℕ × W
  -- The string that is copied to the buffer.
  pub read : ℕ → ℕ → W → (ℕ × List ℕ) × W
  pub print : List ℕ → W → W

-- The calls where the world is what has been printed, newest first: for the tests.
abbrev pub only_prints : Sys (List (List ℕ))
only_prints = record {
  yield = λ w. w;
  get_pid = λ w. 0;
  get_parent_pid = λ w. 0;
  fork = λ w. (0, w);
  exec = λ x p w. w;
  kill = λ p x w. (0, w);
  make_pipe = λ a b w. (0, w);
  msend = λ i a b x w. (0, w);
  mreceive = λ i b w. (0, w);
  open_file = λ name w. (0, w);
  close = λ fd w. (0, w);
  write = λ fd x n w. (0, w);
  read = λ fd n w. ((0, []), w);
  print = λ x w. x ∷ w;
}
