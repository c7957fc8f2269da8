-- ===== src/P8.antt =====
-- The test program P8, user/P8.c: it opens a file, writes to it, reads it and writes again. The memory
-- behind the literal `res` is taken to be free.
mod Tests
use armcortex_a7os.Base.{ℕ, codes, length}
use armcortex_a7os.Libc.Sys.{Sys, exit_success}

-- The code given to `exit`.
unfoldable pub main_p8 : {W : Type 0} → Sys W → W → ℕ × W
main_p8 sys w =
    let (fd, w1) = sys.open_file (codes "README") w in
    let input =
      codes "Well this seems like an interesting coursework but it is full of debugging!" in
    let (wr, w2) = sys.write fd input (length input) w1 in
    let (rd, w3) = sys.read fd 11 w2 in
    let (rdi, w4) = sys.read fd 99999 w3 in
    let (wri, w5) = sys.write fd (codes "BRAVOOOOOOOBRATKEMOJJEDINI") 26 w4 in (exit_success, w5)
