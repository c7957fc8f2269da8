-- ===== src/Libc/Reaches.antt =====
-- Each stub of user/libc.c reaches the call that it is named for, with its arguments in order: the
-- stubs and the `switch` of kernel/hilevel.c agree on numbers and registers.
use armcortex_a7os.Base.{ℕ, List, ◌∷◌, some}
use armcortex_a7os.Scheduler
use armcortex_a7os.Scheduler.{Ctx, set_reg}
use armcortex_a7os.Ipc
use armcortex_a7os.Fs.{Blocks}
use armcortex_a7os.Fs.Files
use armcortex_a7os.Fs.Rw
use armcortex_a7os.Hilevel.{Kernel, Outcome, with_ipc, with_fs, with_read, string_at}
use armcortex_a7os.Libc.{
  LibCall, yield, get_pid, get_parent_pid, fork, make_pipe, msend, mreceive, open_file, close,
  write, read, exit, exec, kill,
}

module _ {D : Type 0} (dev : Blocks D) where
  -- What a call asks of the kernel's parts; `ctx` has the registers at the trap, from which `exec` and
  -- `exit` take their arguments.
  abbrev pub request : LibCall → Ctx → Kernel D → Outcome dev
  request yield ctx k =
      let (ctx', s) = Scheduler.scheduler_run ctx k.sched in some (ctx', record k { sched = s })
  request get_pid ctx k = some (set_reg ctx 0 (Scheduler.scheduler_get_pid k.sched), k)
  request get_parent_pid ctx k =
      some (set_reg ctx 0 (Scheduler.scheduler_get_pid_parent k.sched), k)
  request fork ctx k =
      let (child, s) = Scheduler.scheduler_fork ctx k.sched in
      some (set_reg ctx 0 child, record k { sched = s })
  request (make_pipe pid_1 pid_2) ctx k = with_ipc dev ctx k (Ipc.ipc_pipe pid_1 pid_2 k.ipc)
  request (msend pipe_id pid_src pid_des x) ctx k =
      with_ipc dev ctx k (Ipc.ipc_send_message pipe_id pid_src pid_des x k.ipc)
  request (mreceive pipe_id pid_des) ctx k =
      with_ipc dev ctx k (Ipc.ipc_receive_message pipe_id pid_des k.ipc)
  request (open_file name) ctx k =
      with_fs dev ctx k (Files.file_open dev (string_at k.memory name) k.fs)
  request (close fd) ctx k = with_fs dev ctx k (Files.file_close dev fd k.fs)
  request (write fd x n) ctx k =
      with_fs dev ctx k (Rw.file_write dev fd (string_at k.memory x) n k.fs)
  request (read fd x n) ctx k = with_read dev ctx k x (Rw.file_read fd n k.fs)
  request (exit x) ctx k =
      let (ctx', s) = Scheduler.scheduler_exit ctx k.sched in some (ctx', record k { sched = s })
  request (exec x p) ctx k =
      let (ctx', s) = Scheduler.scheduler_exec ctx k.sched in some (ctx', record k { sched = s })
  request (kill pid x) ctx k =
      let (r, s) = Scheduler.scheduler_kill pid x k.sched in
      some (set_reg ctx 0 r, record k { sched = s })

  -- r0 to r3 with the arguments of a call in their places, and the registers above them.
  abbrev pub loaded : LibCall → ℕ → ℕ → ℕ → ℕ → List ℕ → List ℕ
  loaded yield r0 r1 r2 r3 rest = r0 ∷ r1 ∷ r2 ∷ r3 ∷ rest
  loaded get_pid r0 r1 r2 r3 rest = r0 ∷ r1 ∷ r2 ∷ r3 ∷ rest
  loaded get_parent_pid r0 r1 r2 r3 rest = r0 ∷ r1 ∷ r2 ∷ r3 ∷ rest
  loaded fork r0 r1 r2 r3 rest = r0 ∷ r1 ∷ r2 ∷ r3 ∷ rest
  loaded (make_pipe pid_1 pid_2) r0 r1 r2 r3 rest = pid_1 ∷ pid_2 ∷ r2 ∷ r3 ∷ rest
  loaded (msend pipe_id pid_src pid_des x) r0 r1 r2 r3 rest = pipe_id ∷ pid_src ∷ pid_des ∷ x ∷ rest
  loaded (mreceive pipe_id pid_des) r0 r1 r2 r3 rest = pipe_id ∷ pid_des ∷ r2 ∷ r3 ∷ rest
  loaded (open_file name) r0 r1 r2 r3 rest = name ∷ r1 ∷ r2 ∷ r3 ∷ rest
  loaded (close fd) r0 r1 r2 r3 rest = fd ∷ r1 ∷ r2 ∷ r3 ∷ rest
  loaded (write fd x n) r0 r1 r2 r3 rest = fd ∷ x ∷ n ∷ r3 ∷ rest
  loaded (read fd x n) r0 r1 r2 r3 rest = fd ∷ x ∷ n ∷ r3 ∷ rest
  loaded (exit x) r0 r1 r2 r3 rest = x ∷ r1 ∷ r2 ∷ r3 ∷ rest
  loaded (exec x p) r0 r1 r2 r3 rest = x ∷ p ∷ r2 ∷ r3 ∷ rest
  loaded (kill pid x) r0 r1 r2 r3 rest = pid ∷ x ∷ r2 ∷ r3 ∷ rest
