-- ===== src/Libc.antt =====
-- The system call stubs of user/libc.c: each loads its arguments into r0 and on, and traps with the
-- number of its call. The caller reads the result in r0 when it runs again.
pub mod Reaches
pub mod Numbers
pub mod Sys
mod Tests
use armcortex_a7os.Base.{ℕ, List, [], ◌∷◌}
use armcortex_a7os.Scheduler.{Ctx}
use armcortex_a7os.Fs.{Blocks}
use armcortex_a7os.Hilevel.{Kernel, Outcome, hilevel_handler_svc}

-- The calls, with the arguments of the stubs; a pointer is an address.
pub data LibCall : Type 0 where
  yield get_pid get_parent_pid fork : LibCall
  make_pipe : ℕ → ℕ → LibCall
  msend : ℕ → ℕ → ℕ → ℕ → LibCall
  mreceive : ℕ → ℕ → LibCall
  open_file : ℕ → LibCall
  close : ℕ → LibCall
  write : ℕ → ℕ → ℕ → LibCall
  read : ℕ → ℕ → ℕ → LibCall
  exit : ℕ → LibCall
  exec : ℕ → ℕ → LibCall
  kill : ℕ → ℕ → LibCall

-- The number in the `svc` instruction of each stub.
unfoldable pub number : LibCall → ℕ
number yield = 0x00
number get_pid = 0x01
number fork = 0x02
number (exec x p) = 0x03
number (exit x) = 0x04
number (kill pid x) = 0x06
number (msend pipe_id pid_src pid_des x) = 0x07
number (mreceive pipe_id pid_des) = 0x08
number (make_pipe pid_1 pid_2) = 0x09
number get_parent_pid = 0x13
number (open_file name) = 0x20
number (close fd) = 0x21
number (read fd x n) = 0x22
number (write fd x n) = 0x23

-- What each stub moves into r0 and on.
unfoldable pub arguments : LibCall → List ℕ
arguments yield = []
arguments get_pid = []
arguments get_parent_pid = []
arguments fork = []
arguments (make_pipe pid_1 pid_2) = pid_1 ∷ pid_2 ∷ []
arguments (msend pipe_id pid_src pid_des x) = pipe_id ∷ pid_src ∷ pid_des ∷ x ∷ []
arguments (mreceive pipe_id pid_des) = pipe_id ∷ pid_des ∷ []
arguments (open_file name) = name ∷ []
arguments (close fd) = fd ∷ []
arguments (write fd x n) = fd ∷ x ∷ n ∷ []
arguments (read fd x n) = fd ∷ x ∷ n ∷ []
arguments (exit x) = x ∷ []
arguments (exec x p) = x ∷ p ∷ []
arguments (kill pid x) = pid ∷ x ∷ []

-- The registers from r0 on, once the arguments are moved in.
unfoldable pub moved : List ℕ → List ℕ → List ℕ
moved [] gpr = gpr
moved (v ∷ vs) [] = []
moved (v ∷ vs) (r ∷ rs) = v ∷ moved vs rs

module _ {D : Type 0} (dev : Blocks D) where
  unfoldable pub stub : LibCall → Ctx → Kernel D → Outcome dev
  unfolding number arguments moved
  stub c ctx k =
      hilevel_handler_svc dev (record ctx { gpr = moved (arguments c) ctx.gpr }) (number c) k
