-- ===== src/P8/Tests.antt =====
-- P8 over the file system of kernel/mem.c, on a device that accepts every write.
use armcortex_a7os.Base.{
  ℕ, ◌≡◌, refl, List, [], ◌++◌, Option, some, none, replicate, codes, Bytes, get_or,
}
use armcortex_a7os.Libc.Sys.{Sys}
use armcortex_a7os.Fs.{Fs, Blocks, zero_file, zero_data, zero_header, Op, rounds}
use armcortex_a7os.Fs.Files.{file_open, file_close}
use armcortex_a7os.Fs.Rw.{file_write, file_read}
use armcortex_a7os.P8.{main_p8}

abbrev sink : Blocks (Unit {0})
sink = record { wr = λ a x d. some (0, d); rd = λ a n x d. some ((0, x), d) }

abbrev World : Type 0
World = Option (Fs (Unit {0}))

abbrev text_of : List ℕ → Bytes
text_of xs i = get_or xs i 0

-- A call of the file system, where the world has not come to an end.
abbrev call : {A : Type 0} → A → Op (Unit {0}) A → World → A × World
call a m none = (a, none)
call a m (some s) = elim (m s) [ none ↦ (a, none) | some (b, s') ↦ (b, some s') ]

abbrev sys : Sys World
sys = record {
  yield = λ w. w;
  get_pid = λ w. 0;
  get_parent_pid = λ w. 0;
  fork = λ w. (0, w);
  exec = λ x p w. w;
  kill = λ p x w. (0, w);
  make_pipe = λ a b w. (0, w);
  msend = λ a b c d w. (0, w);
  mreceive = λ a b w. (0, w);
  open_file = λ name. call 0 (file_open sink (text_of name));
  close = λ fd. call 0 (file_close sink fd);
  write = λ fd x n. call 0 (file_write sink fd (text_of x) n);
  read = λ fd n. call (0, []) (file_read fd n);
  print = λ x w. w;
}

abbrev fresh : World
fresh = some (record {
  file = replicate 95 zero_file;
  data_blocks = replicate 8 zero_data;
  header = record zero_header { new_data_block = 96 };
  disk = tt;
  out = [];
})

abbrev text_in : World → List ℕ
text_in none = []
text_in (some s) = elim (file_read 0 200 s) [ none ↦ [] | some ((n, text), s') ↦ text ]

reads_back :
    text_in (main_p8 sys fresh).1
    ≡ codes "Well this seems like an interesting coursework but it is full of debugging!"
      ++ codes "BRAVOOOOOOOBRATKEMOJJEDINI"
unfolding main_p8 file_open file_write file_read rounds
reads_back = refl
