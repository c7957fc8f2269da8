-- ===== src/Hilevel.antt =====
-- The high-level interrupt handlers: kernel/hilevel.c, over the scheduler, the pipes and the files.
-- `none` is undefined behaviour in a component, or a disk that never answers.
pub mod Keep
pub mod Traces
mod Tests
use Prim.Native.Nat.{bit_or}
use armcortex_a7os.Base.{
  ℕ, zero, suc, ◌+◌, Bool, true, false, ◌||◌, length, add32, List, [], ◌∷◌, Option, none, some,
  ◌==◌, if◌then◌else◌, Bytes,
}
use armcortex_a7os.Scheduler
use armcortex_a7os.Scheduler.{Ctx, Sched, Image, reg, set_reg}
use armcortex_a7os.Ipc
use armcortex_a7os.Ipc.{Ipc}
use armcortex_a7os.Fs.{Blocks, Fs, ◌>>◌}
use armcortex_a7os.Fs.Files
use armcortex_a7os.Fs.Rw

-- The memory-mapped registers that the handlers write, and whether the processor takes IRQs.
pub record Regs : Type 0 where
  pub timer1_load : ℕ
  pub timer1_ctrl : ℕ
  pub timer1_int_clr : ℕ
  pub pmr : ℕ
  pub isenabler1 : ℕ
  pub gicc_ctlr : ℕ
  pub gicd_ctlr : ℕ
  pub eoir : ℕ
  pub irq_enabled : Bool

-- The static variables of the kernel's parts, the memory that processes share, at which addresses the
-- linker puts the static variables, and the registers. The static variables are not in `memory`:
-- what would be written over them is said where it can come to that.
pub record Kernel (D : Type 0) : Type 0 where
  pub sched : Sched
  pub ipc : Ipc
  pub fs : Fs D
  pub memory : Bytes
  pub is_static : ℕ → Bool
  pub regs : Regs

abbrev pub gic_source_timer0 : ℕ
gic_source_timer0 = 36

-- The system calls, by the cases of the `switch`. `SYS_PRINT` and `SYS_CAT` have empty cases.
pub data Call : Type 0 where
  yield get_pid fork exec exit print kill msend mreceive pipe get_parent : Call
  open_file close_file read_file write_file cat unknown : Call

pub decode : ℕ → Call
decode id =
    if id == 0x00
    then yield
    else if id == 0x01
    then get_pid
    else if id == 0x02
    then fork
    else if id == 0x03
    then exec
    else if id == 0x04
    then exit
    else if id == 0x05
    then print
    else if id == 0x06
    then kill
    else if id == 0x07
    then msend
    else if id == 0x08
    then mreceive
    else if id == 0x09
    then pipe
    else if id == 0x13
    then get_parent
    else if id == 0x20
    then open_file
    else if id == 0x21
    then close_file
    else if id == 0x22
    then read_file
    else if id == 0x23
    then write_file
    else if id == 0x30
    then cat
    else unknown

-- `strcpy( x, text )`
abbrev pub write_string : ℕ → List ℕ → Bytes → Bytes
write_string x [] m = λ a. if a == x then 0 else m a
write_string x (c ∷ cs) m = write_string (add32 x 1) cs (λ a. if a == x then c else m a)

-- One of the `n` addresses from `x` on is one of those.
abbrev pub meets : (ℕ → Bool) → ℕ → ℕ → Bool
meets is_static x zero = false
meets is_static x (suc n) = let rest = meets is_static (add32 x 1) n in is_static x || rest

-- The string at an address.
abbrev pub string_at : Bytes → ℕ → Bytes
string_at m x i = m (x + i)

module _ {D : Type 0} (dev : Blocks D) where
  abbrev pub Outcome : Type 0
  Outcome = Option (Ctx × Kernel D)

  -- A call that changes the pipes only, with its result in r0.
  abbrev pub with_ipc : Ctx → Kernel D → Option (ℕ × Ipc) → Outcome
  with_ipc ctx k none = none
  with_ipc ctx k (some (r, i)) = some (set_reg ctx 0 r, record k { ipc = i })

  abbrev pub with_fs : Ctx → Kernel D → Option (ℕ × Fs D) → Outcome
  with_fs ctx k none = none
  with_fs ctx k (some (r, f)) = some (set_reg ctx 0 r, record k { fs = f })

  -- `file_read` also stores its string at `x`, which nothing checks. `none` also where a byte of it falls
  -- on the kernel's static variables, which are then anything.
  abbrev pub with_read : Ctx → Kernel D → ℕ → Option ((ℕ × List ℕ) × Fs D) → Outcome
  with_read ctx k x none = none
  with_read ctx k x (some ((r, text), f)) =
      if meets k.is_static x (length text + 1)
      then none
      else some (set_reg ctx 0 r, record k { fs = f; memory = write_string x text k.memory })

  -- The cases of the `switch`.
  unfoldable pub dispatch : Call → Ctx → Kernel D → Outcome
  dispatch yield ctx k =
      let (ctx', s) = Scheduler.scheduler_run ctx k.sched in some (ctx', record k { sched = s })
  dispatch get_pid ctx k = some (set_reg ctx 0 (Scheduler.scheduler_get_pid k.sched), k)
  dispatch fork ctx k =
      let (r, s) = Scheduler.scheduler_fork ctx k.sched in
      some (set_reg ctx 0 r, record k { sched = s })
  dispatch exec ctx k =
      let (ctx', s) = Scheduler.scheduler_exec ctx k.sched in some (ctx', record k { sched = s })
  dispatch exit ctx k =
      let (ctx', s) = Scheduler.scheduler_exit ctx k.sched in some (ctx', record k { sched = s })
  dispatch print ctx k = some (ctx, k)
  dispatch kill ctx k =
      let (r, s) = Scheduler.scheduler_kill (reg ctx 0) (reg ctx 1) k.sched in
      some (set_reg ctx 0 r, record k { sched = s })
  dispatch msend ctx k =
      with_ipc ctx k (Ipc.ipc_send_message (reg ctx 0) (reg ctx 1) (reg ctx 2) (reg ctx 3) k.ipc)
  dispatch mreceive ctx k = with_ipc ctx k (Ipc.ipc_receive_message (reg ctx 0) (reg ctx 1) k.ipc)
  dispatch pipe ctx k = with_ipc ctx k (Ipc.ipc_pipe (reg ctx 0) (reg ctx 1) k.ipc)
  dispatch get_parent ctx k = some (set_reg ctx 0 (Scheduler.scheduler_get_pid_parent k.sched), k)
  dispatch open_file ctx k =
      with_fs ctx k (Files.file_open dev (string_at k.memory (reg ctx 0)) k.fs)
  dispatch close_file ctx k = with_fs ctx k (Files.file_close dev (reg ctx 0) k.fs)
  dispatch read_file ctx k = with_read ctx k (reg ctx 1) (Rw.file_read (reg ctx 0) (reg ctx 2) k.fs)
  dispatch write_file ctx k =
      with_fs ctx k
        (Rw.file_write dev (reg ctx 0) (string_at k.memory (reg ctx 1)) (reg ctx 2) k.fs)
  dispatch cat ctx k = some (ctx, k)
  dispatch unknown ctx k = some (ctx, k)

  unfoldable pub hilevel_handler_svc : Ctx → ℕ → Kernel D → Outcome
  unfolding decode dispatch
  hilevel_handler_svc ctx id k = dispatch (decode id) ctx k

  -- `iar` is what the interrupt controller answers to the read of its acknowledge register.
  unfoldable pub hilevel_handler_irq : ℕ → Ctx → Kernel D → Ctx × Kernel D
  hilevel_handler_irq iar ctx k =
      let (ctx', s) = Scheduler.scheduler_run ctx k.sched in
      if iar == gic_source_timer0
      then (
        ctx',
        record k { sched = s; regs = record (k.regs) { timer1_int_clr = 0x01; eoir = iar } },
      )
      else (ctx, record k { regs = record (k.regs) { eoir = iar } })

  -- The registers once the timer and the interrupt controller are set up.
  unfoldable pub enable_timer : Regs → Regs
  enable_timer r = record r {
    timer1_load = 0x00100000;
    timer1_ctrl = bit_or (bit_or (bit_or 0x00000002 0x00000040) 0x00000020) 0x00000080;
    pmr = 0x000000F0;
    isenabler1 = bit_or r.isenabler1 0x00000010;
    gicc_ctlr = 0x00000001;
    gicd_ctlr = 0x00000001;
    irq_enabled = true;
  }

  -- The kernel once the files are loaded.
  abbrev pub with_boot : Ctx → Kernel D → Option (Unit {0} × Fs D) → Outcome
  with_boot ctx k none = none
  with_boot ctx k (some (_, f)) = some (ctx, record k { fs = f; regs = enable_timer k.regs })

  unfoldable pub hilevel_handler_rst : Image → Kernel D → Outcome
  unfolding enable_timer
  hilevel_handler_rst im k =
      let (ctx, s) = Scheduler.scheduler_initialise im k.sched in
      with_boot ctx (record k { sched = s; ipc = Ipc.ipc_initialise k.ipc })
        ((Files.file_setup dev >> Files.file_disk_load dev) k.fs)
