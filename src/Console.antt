-- ===== src/Console.antt =====
-- The console process, user/console.c, and the `cat` of user/cat.c that it calls.
pub mod Line
pub mod Tokens
pub mod Commands
mod Tests
use armcortex_a7os.Base.{
  ℕ, zero, suc, List, [], ◌∷◌, ◌++◌, Bool, true, false, not, Option, none, some, take, length,
  strlen, ◌==◌, if◌then◌else◌, minus_one, codes,
}
use armcortex_a7os.Uart.{Io, ◌>>=◌, return, pl011_getc}
use armcortex_a7os.Libc.Numbers.{atoi, itoa}
use armcortex_a7os.Libc.Sys.{Sys}

-- The bytes that `gets( x, n )` writes to `x`.
unfoldable pub gets : {P : Type 0} → ℕ → Io P (List ℕ)
unfolding pl011_getc
gets zero = return []
gets (suc n) = do
  c ← pl011_getc
  let more = (do cs ← gets n; return (c ∷ cs))
  if c == b'\n' then return (0 ∷ []) else more

-- `strtok` of the C library on the string that it has not read yet: the next token and what is left
-- behind it, or none for the null pointer. `d` tells the delimiters.
unfoldable pub skip : (ℕ → Bool) → List ℕ → List ℕ
skip d [] = []
skip d (c ∷ cs) = let rest = skip d cs in if d c then rest else c ∷ cs

unfoldable pub split : (ℕ → Bool) → List ℕ → List ℕ × List ℕ
split d [] = ([], [])
split d (c ∷ cs) = let (t, r) = split d cs in if d c then ([], cs) else (c ∷ t, r)

unfoldable pub strtok : (ℕ → Bool) → List ℕ → Option (List ℕ × List ℕ)
strtok d s = elim (skip d s) [ [] ↦ none | c ∷ cs ↦ some (split d (c ∷ cs)) ]

-- The delimiters `" "` and `"\0"`: the latter is the empty set.
abbrev pub space : ℕ → Bool
space c = c == b' '

abbrev pub nothing : ℕ → Bool
nothing c = false

-- `0 == strcmp( a, b )`
unfoldable pub same_text : List ℕ → List ℕ → Bool
same_text [] [] = true
same_text [] (c ∷ cs) = false
same_text (c ∷ cs) [] = false
same_text (a ∷ as') (b ∷ bs) = let rest = same_text as' bs in if a == b then rest else false

-- The entry points of the programs in the image.
pub record Programs : Type 0 where
  pub main_p3 : ℕ
  pub main_p4 : ℕ
  pub main_p5 : ℕ
  pub main_p6 : ℕ
  pub main_p8 : ℕ

unfoldable pub load : Programs → List ℕ → ℕ
unfolding same_text
load ps x =
    if same_text x (codes "P3")
    then ps.main_p3
    else if same_text x (codes "P4")
    then ps.main_p4
    else if same_text x (codes "P5")
    then ps.main_p5
    else if same_text x (codes "P6")
    then ps.main_p6
    else if same_text x (codes "P8")
    then ps.main_p8
    else 0

-- The number in a token, which a null byte ends.
abbrev pub number_in : List ℕ → Option ℕ
number_in t = atoi (t ++ 0 ∷ [])

-- Where the program goes on: at the prompt, or in a child that runs another program.
pub data Shell (W : Type 0) : Type 0 where
  prompt : W → Shell W
  child : W → Shell W

module _ {W : Type 0} (sys : Sys W) (ps : Programs) where
  -- The branches of `main_console`, with what is left of the line behind the command. The result is
  -- none where a null pointer is read, or an array is overrun.
  unfoldable pub run_child : List ℕ → W → Option (Shell W)
  run_child line w = elim (strtok space line) [
    | none ↦ none
    | some (name, rest) ↦ elim (strtok space rest) [
      | none ↦ some (child (sys.exec (load ps name) 2 w))
      | some (p, rest') ↦ elim (number_in p) [
        | none ↦ none
        | some priority ↦ some (child (sys.exec (load ps name) priority w))
      ]
    ]
  ]

  unfoldable pub fork_command : List ℕ → W → Option (Shell W)
  fork_command line w =
      let (pid, w') = sys.fork w in if pid == 0 then run_child line w' else some (prompt w')

  -- The second call of `strtok` gives null too where the first does.
  unfoldable pub kill_command : List ℕ → W → Option (Shell W)
  kill_command line w = elim (strtok space line) [
    | none ↦ none
    | some (pid_char, rest) ↦ elim (strtok space rest) [
      | none ↦ none
      | some (sig, rest') ↦ elim (number_in sig) [
        | none ↦ none
        | some s ↦ elim (same_text pid_char (codes "all")) [
          | true ↦ some (prompt (sys.kill minus_one s w).1)
          | false ↦ elim (number_in pid_char) [
            | none ↦ none
            | some pid ↦ some (prompt (sys.kill pid s w).1)
          ]
        ]
      ]
    ]
  ]

  -- `garbage` is the second byte of `result` before.
  unfoldable pub open_command : ℕ → List ℕ → W → Option (Shell W)
  open_command garbage line w = elim (strtok nothing line) [
    | none ↦ none
    | some (name, rest) ↦
        let (res, w') = sys.open_file name w in
        elim (itoa (0 ∷ garbage ∷ []) res) [
          | none ↦ none
          | some result ↦ elim (strlen result) [
            | none ↦ none
            | some n ↦ some (prompt (sys.print (codes "\n") (sys.print (take n result) w')))
          ]
        ]
  ]

  unfoldable pub close_command : List ℕ → W → Option (Shell W)
  close_command line w = elim (strtok nothing line) [
    | none ↦ none
    | some (t, rest) ↦ elim (number_in t) [
      | none ↦ none
      | some fd ↦ some (prompt (sys.close fd w).1)
    ]
  ]

  unfoldable pub write_command : List ℕ → W → Option (Shell W)
  write_command line w = elim (strtok space line) [
    | none ↦ none
    | some (t, rest) ↦ elim (number_in t) [
      | none ↦ none
      | some fd ↦ elim (strtok nothing rest) [
        | none ↦ none
        | some (x, rest') ↦ some (prompt (sys.write fd x (length x) w).1)
      ]
    ]
  ]

  -- `cat`, with room for what is read behind the literal `""`.
  unfoldable pub cat : List ℕ → W → W
  cat filename w =
      let (fd, w1) = sys.open_file filename w in
      let ((rd, result), w2) = sys.read fd 5000 w1 in sys.print (codes "\n") (sys.print result w2)

  unfoldable pub cat_command : List ℕ → W → Option (Shell W)
  unfolding cat
  cat_command line w = elim (strtok space line) [
    | none ↦ none
    | some (filename, rest) ↦ some (prompt (cat filename w))
  ]

  -- What `main_console` does with a line.
  unfoldable pub run_command : ℕ → List ℕ → W → Option (Shell W)
  run_command garbage x w = elim (strtok space x) [
    | none ↦ none
    | some (p, rest) ↦
        if same_text p (codes "fork")
        then fork_command rest w
        else if same_text p (codes "kill")
        then kill_command rest w
        else if same_text p (codes "open")
        then open_command garbage rest w
        else if same_text p (codes "close")
        then close_command rest w
        else if same_text p (codes "write")
        then write_command rest w
        else if same_text p (codes "cat")
        then cat_command rest w
        else some (prompt (sys.print (codes "unknown command\n") w))
  ]

  -- One round of the loop, where `x` is what `gets` writes.
  unfoldable pub console_round : ℕ → List ℕ → W → Option (Shell W)
  console_round garbage x w = elim (strlen x) [
    | none ↦ none
    | some n ↦ run_command garbage (take n x) (sys.print (codes "shell$ ") w)
  ]
