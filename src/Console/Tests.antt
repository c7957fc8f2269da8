-- ===== src/Console/Tests.antt =====
-- The console on concrete lines, in a world that keeps the calls of `kill` and what is printed.
use armcortex_a7os.Base.{
  ℕ, ◌+◌, ◌<◌, ◌≡◌, refl, List, [], ◌∷◌, ◌++◌, some, none, length, if◌then◌else◌, minus_one, arith,
  codes, inl, ◌⊎◌, ◌≤◌,
}
use armcortex_a7os.Uart.Hex.{with_input}
use armcortex_a7os.Libc.Numbers.{atoi}
use armcortex_a7os.Libc.Sys.{Sys}
use armcortex_a7os.Console.{
  gets, skip, split, strtok, same_text, number_in, Programs, prompt, child, run_child, fork_command,
  load, run_command, console_round,
}
use armcortex_a7os.Console.Line.{gets_line}
use armcortex_a7os.Console.Commands.{run_command-kill, run_command-open}

pub record Seen : Type 0 where
  killed : List (ℕ × ℕ)
  printed : List ℕ
  ran : List (ℕ × ℕ)

-- `fork` gives 0: what follows is the child.
abbrev seen_sys : Sys Seen
seen_sys = record {
  yield = λ w. w;
  get_pid = λ w. 0;
  get_parent_pid = λ w. 0;
  fork = λ w. (0, w);
  exec = λ x p w. record w { ran = (x, p) ∷ w.ran };
  kill = λ pid x w. (0, record w { killed = (pid, x) ∷ w.killed });
  make_pipe = λ a b w. (0, w);
  msend = λ p a b x w. (1, w);
  mreceive = λ p b w. (0, w);
  open_file = λ x w. (length x, w);
  close = λ fd w. (0, w);
  write = λ fd x n w. (0, w);
  read = λ fd n w. ((0, []), w);
  print = λ x w. record w { printed = w.printed ++ x };
}

abbrev programs : Programs
programs = record { main_p3 = 3; main_p4 = 4; main_p5 = 5; main_p6 = 6; main_p8 = 8 }

abbrev none_yet : Seen
none_yet = record { killed = []; printed = []; ran = [] }

starts_p4 :
    run_command seen_sys programs 9 (codes "fork P4 12") none_yet
    ≡ some (child (record none_yet { ran = (4, 12) ∷ [] }))
unfolding run_command fork_command run_child load strtok skip split same_text atoi
starts_p4 = refl

-- An empty line gives a null pointer to `strcmp`.
empty_line : console_round seen_sys programs 9 (0 ∷ []) none_yet ≡ none
unfolding console_round run_command strtok skip
empty_line = refl

line_read :
    gets 1024
      (with_input (codes "kill 3 0" ++ b'\n' ∷ b'x' ∷ []) (record { input = []; peer = tt }))
    ≡ some (codes "kill 3 0" ++ 0 ∷ [], with_input (b'x' ∷ []) (record { input = []; peer = tt }))
line_read =
    gets_line 1024 (codes "kill 3 0") (b'x' ∷ []) (record { input = []; peer = tt }) (omega arith)
      (omega arith)

twelve : number_in (codes "12") ≡ some 12
unfolding atoi
twelve = refl

nought : number_in (codes "0") ≡ some 0
unfolding atoi
nought = refl

run_command-kill_example :
    run_command seen_sys programs 9 (codes "kill 12 0") none_yet
    ≡ some (
        prompt
          (seen_sys.kill
            (if same_text (codes "12") (codes "all") then minus_one else 12)
            0
            none_yet).1)
run_command-kill_example =
    run_command-kill seen_sys programs 9 b'1' b'0' 12 0 (b'2' ∷ []) [] none_yet (omega arith)
      (omega arith) twelve nought

run_command-open_example :
    ((0 < 6)
      × (6 < 10)
      × (run_command seen_sys programs 9 (codes "open README") none_yet
          ≡ some
              (prompt (seen_sys.print (codes "\n") (seen_sys.print ((b'0' + 6) ∷ []) none_yet)))))
    ⊎ (((◌≡◌ {A = ℕ} 6 0) ⊎ ((10 ≤ 6) ⊎ (6 ≡ minus_one)))
        × (run_command seen_sys programs 9 (codes "open README") none_yet ≡ none))
run_command-open_example =
    run_command-open seen_sys programs 9 b'R' (codes "EADME") none_yet none_yet 6 refl
      (inl (omega arith))
