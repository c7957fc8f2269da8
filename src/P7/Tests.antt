-- ===== src/P7/Tests.antt =====
-- A philosopher with the pid 27 that is told to eat, in a world that keeps what is printed.
use armcortex_a7os.Base.{ℕ, ◌≡◌, refl, List, [], ◌∷◌, ◌++◌, some, arith, codes, iterate}
use armcortex_a7os.Libc.Sys.{Sys}
use armcortex_a7os.Libc.Numbers.{itoa, put_sign, itoa_digits, put, count_digits, put_digits, memset}
use armcortex_a7os.P6.{eat}
use armcortex_a7os.P7.{Philosopher, begin, speak, round, rounds}
use armcortex_a7os.P7.Safe.{after_round, rounds_print_replies}

abbrev printer : Sys (List ℕ)
printer = record {
  yield = λ w. w;
  get_pid = λ w. 27;
  get_parent_pid = λ w. 4;
  fork = λ w. (0, w);
  exec = λ x p w. w;
  kill = λ pid x w. (0, w);
  make_pipe = λ a b w. (7, w);
  msend = λ p a b x w. (1, w);
  mreceive = λ p b w. (eat, w);
  open_file = λ x w. (0, w);
  close = λ fd w. (0, w);
  write = λ fd x n w. (0, w);
  read = λ fd n w. ((0, []), w);
  print = λ x w. w ++ x;
}

abbrev seated : Philosopher
seated = record { pid_child = 27; pid_parent = 4; pipe = 7; id = 0 ∷ 0 ∷ 0 ∷ [] }

begins : begin printer (9 ∷ 9 ∷ 9 ∷ []) [] ≡ some (seated, [])
unfolding begin memset
begins = refl

eats :
    round printer seated []
    ≡ some (record seated { id = b'2' ∷ b'7' ∷ 0 ∷ [] }, codes "Philosopher 27: EATING\n")
unfolding round speak itoa put_sign itoa_digits put count_digits put_digits
eats = refl

rounds_print_replies_example :
    (q : Philosopher) × (rounds printer 5 seated []
      ≡ some (q, iterate 5 (after_round printer seated) []))
rounds_print_replies_example =
    rounds_print_replies printer 5 seated [] (omega arith) (omega arith) refl

says_eating : after_round printer seated [] ≡ codes "Philosopher 27: EATING\n"
says_eating = refl
