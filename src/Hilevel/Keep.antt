-- ===== src/Hilevel/Keep.antt =====
-- The handlers of kernel/hilevel.c keep the process table and the table of pipes valid.
use armcortex_a7os.Base.{inr, inl, ℕ, ◌≡◌, List, Option, none, some, length, Bool-cases, ◌==◌, ◌+◌}
use armcortex_a7os.Scheduler
use armcortex_a7os.Scheduler.{Ctx, Sched, Image, table_size, reg}
use armcortex_a7os.Scheduler.Inv.{
  scheduler_run-IsValid, scheduler_fork-IsValid, scheduler_exec-IsValid, scheduler_exit-IsValid,
  scheduler_kill-IsValid,
}
use armcortex_a7os.Scheduler.Inv
use armcortex_a7os.Scheduler.Stop.{scheduler_initialise-IsValid}
use armcortex_a7os.Ipc
use armcortex_a7os.Ipc.{Ipc, no_of_pipes}
use armcortex_a7os.Ipc.Init.{ipc_initialise-IsValid}
use armcortex_a7os.Ipc.Keep.{Kept, ipc_pipe-Kept, ipc_send_message-Kept, ipc_receive_message-Kept}
use armcortex_a7os.Fs.{Blocks, Fs}
use armcortex_a7os.Fs.Rw
use armcortex_a7os.Hilevel.{
  Kernel, Call, yield, get_pid, fork, exec, exit, print, kill, msend, mreceive, pipe, get_parent,
  open_file, close_file, read_file, write_file, cat, unknown, decode, dispatch, with_ipc, with_fs,
  with_read, meets, hilevel_handler_svc, hilevel_handler_irq, hilevel_handler_rst, with_boot,
  gic_source_timer0,
}

pub record IsValid {D : Type 0} (k : Kernel D) : Type 0 where
  pub sched : Inv.IsValid k.sched
  pub ipc : Ipc.Inv.IsValid k.ipc

module _ {D : Type 0} (dev : Blocks D) where
  -- An outcome, if there is one, is valid.
  abbrev pub IsValidAfter : Option (Ctx × Kernel D) → Type 0
  IsValidAfter none = Unit {0}
  IsValidAfter (some (ctx, k)) = IsValid k

  with_ipc-IsValid :
      (ctx : Ctx) {k : Kernel D} (m : Option (ℕ × Ipc))
      → IsValid k
      → Kept m
      → IsValidAfter (with_ipc dev ctx k m)
  with_ipc-IsValid ctx none v h = tt
  with_ipc-IsValid ctx (some (r, i)) v h = record { sched = v.sched; ipc = h }

  with_fs-IsValid :
      (ctx : Ctx) {k : Kernel D} (m : Option (ℕ × Fs D))
      → IsValid k
      → IsValidAfter (with_fs dev ctx k m)
  with_fs-IsValid ctx none v = tt
  with_fs-IsValid ctx (some (r, f)) v = record { sched = v.sched; ipc = v.ipc }

  with_read-IsValid :
      (ctx : Ctx) {k : Kernel D} (x : ℕ) (m : Option ((ℕ × List ℕ) × Fs D))
      → IsValid k
      → IsValidAfter (with_read dev ctx k x m)
  with_read-IsValid ctx x none v = tt
  with_read-IsValid ctx {k} x (some ((r, text), f)) v =
      elim (Bool-cases (meets k.is_static x (length text + 1))) [
        | inl e ↦ rw e tt
        | inr e ↦ rw e (record { sched = v.sched; ipc = v.ipc })
      ]

  -- Every system call, known or not, that has an outcome keeps both tables valid.
  dispatch-IsValid :
      (c : Call) (ctx : Ctx) {k : Kernel D} → IsValid k → IsValidAfter (dispatch dev c ctx k)
  unfolding dispatch
  dispatch-IsValid yield ctx v = record { sched = scheduler_run-IsValid ctx v.sched; ipc = v.ipc }
  dispatch-IsValid get_pid ctx v = v
  dispatch-IsValid fork ctx v = record { sched = scheduler_fork-IsValid ctx v.sched; ipc = v.ipc }
  dispatch-IsValid exec ctx v = record { sched = scheduler_exec-IsValid ctx v.sched; ipc = v.ipc }
  dispatch-IsValid exit ctx v = record { sched = scheduler_exit-IsValid ctx v.sched; ipc = v.ipc }
  dispatch-IsValid print ctx v = v
  dispatch-IsValid kill ctx v = record {
    sched = scheduler_kill-IsValid (reg ctx 0) (reg ctx 1) v.sched;
    ipc = v.ipc;
  }
  dispatch-IsValid msend ctx {k} v =
      with_ipc-IsValid ctx _ v
        (ipc_send_message-Kept (reg ctx 0) (reg ctx 1) (reg ctx 2) (reg ctx 3) k.ipc v.ipc)
  dispatch-IsValid mreceive ctx {k} v =
      with_ipc-IsValid ctx _ v (ipc_receive_message-Kept (reg ctx 0) (reg ctx 1) k.ipc v.ipc)
  dispatch-IsValid pipe ctx {k} v =
      with_ipc-IsValid ctx _ v (ipc_pipe-Kept (reg ctx 0) (reg ctx 1) k.ipc v.ipc)
  dispatch-IsValid get_parent ctx v = v
  dispatch-IsValid open_file ctx v = with_fs-IsValid ctx _ v
  dispatch-IsValid close_file ctx v = with_fs-IsValid ctx _ v
  dispatch-IsValid read_file ctx {k} v =
      with_read-IsValid ctx (reg ctx 1) (Rw.file_read (reg ctx 0) (reg ctx 2) k.fs) v
  dispatch-IsValid write_file ctx v = with_fs-IsValid ctx _ v
  dispatch-IsValid cat ctx v = v
  dispatch-IsValid unknown ctx v = v

  -- A system call with any number and any registers keeps the process table and the table of pipes
  -- valid, if it has an outcome.
  pub hilevel_handler_svc-IsValid :
      (ctx : Ctx) (id : ℕ) {k : Kernel D}
      → IsValid k
      → IsValidAfter (hilevel_handler_svc dev ctx id k)
  unfolding hilevel_handler_svc
  hilevel_handler_svc-IsValid ctx id v = dispatch-IsValid (decode id) ctx v

  -- An interrupt from any source keeps both tables valid.
  pub hilevel_handler_irq-IsValid :
      (iar : ℕ) (ctx : Ctx) {k : Kernel D}
      → IsValid k
      → IsValid (hilevel_handler_irq dev iar ctx k).1
  unfolding hilevel_handler_irq
  hilevel_handler_irq-IsValid iar ctx {k} v = elim (Bool-cases (iar == gic_source_timer0)) [
    | inl e ↦ rw e (record { sched = scheduler_run-IsValid ctx v.sched; ipc = v.ipc })
    | inr e ↦ rw e (record { sched = v.sched; ipc = v.ipc })
  ]

  with_boot-IsValid :
      (ctx : Ctx) (k : Kernel D) (m : Option (Unit {0} × Fs D))
      → IsValid k
      → IsValidAfter (with_boot dev ctx k m)
  with_boot-IsValid ctx k none v = tt
  with_boot-IsValid ctx k (some (_, f)) v = record { sched = v.sched; ipc = v.ipc }

  -- A reset, if the disk answers, makes both tables valid, whatever they held before.
  pub hilevel_handler_rst-IsValid :
      (im : Image) (k : Kernel D)
      → length k.sched.pcb ≡ table_size
      → length k.ipc.pipe ≡ no_of_pipes
      → IsValidAfter (hilevel_handler_rst dev im k)
  unfolding hilevel_handler_rst
  hilevel_handler_rst-IsValid im k e f =
      with_boot-IsValid _
        (record k {
          sched = (Scheduler.scheduler_initialise im k.sched).1;
          ipc = Ipc.ipc_initialise k.ipc;
        })
        _
        (record {
          sched = (scheduler_initialise-IsValid im k.sched e).valid;
          ipc = ipc_initialise-IsValid k.ipc f;
        })
