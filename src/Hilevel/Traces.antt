-- ===== src/Hilevel/Traces.antt =====
-- What the kernel can come to: a reset, then system calls and interrupts in any order, with any
-- registers, while processes change the memory that they share. (kernel/hilevel.c)
-- User code is taken to leave the kernel's static variables alone. There is no step of a call without an
-- outcome: one that would index outside of a table, or wait for ever, or a read whose pointer would put
-- the text over the static variables. Nothing in the program keeps a process from either: neither
-- memory protection, nor a check of the pointer.
use armcortex_a7os.Base.{ℕ, true, ◌≡◌, some, length, Bytes, subst}
use armcortex_a7os.Scheduler.{Ctx, Image, table_size}
use armcortex_a7os.Ipc.{no_of_pipes}
use armcortex_a7os.Fs.{Blocks}
use armcortex_a7os.Hilevel.{Kernel, hilevel_handler_svc, hilevel_handler_irq, hilevel_handler_rst}
use armcortex_a7os.Hilevel.Keep.{
  IsValid, IsValidAfter, hilevel_handler_svc-IsValid, hilevel_handler_irq-IsValid,
  hilevel_handler_rst-IsValid,
}

pub data Step {D : Type 0} (dev : Blocks D) : Kernel D → Kernel D → Type 0 where
  svc :
      {k k' : Kernel D} (ctx ctx' : Ctx) (id : ℕ)
      → hilevel_handler_svc dev ctx id k ≡ some (ctx', k')
      → Step dev k k'
  irq :
      {k k' : Kernel D} (ctx : Ctx) (iar : ℕ)
      → (hilevel_handler_irq dev iar ctx k).1 ≡ k'
      → Step dev k k'
  user :
      {k k' : Kernel D} (m : Bytes)
      → ((a : ℕ) → k.is_static a ≡ true → m a ≡ k.memory a)
      → record k { memory = m } ≡ k'
      → Step dev k k'

-- The states from a reset of a kernel whose tables have their lengths.
pub data Reach {D : Type 0} (dev : Blocks D) : Kernel D → Type 0 where
  boot :
      {k' : Kernel D} (im : Image) (k : Kernel D) (ctx : Ctx)
      → length k.sched.pcb ≡ table_size
      → length k.ipc.pipe ≡ no_of_pipes
      → hilevel_handler_rst dev im k ≡ some (ctx, k')
      → Reach dev k'
  next : {k k' : Kernel D} → Reach dev k → Step dev k k' → Reach dev k'

module _ {D : Type 0} (dev : Blocks D) where
  Step-IsValid : {k k' : Kernel D} → Step dev k k' → IsValid k → IsValid k'
  Step-IsValid (svc ctx ctx' id e) v =
      subst (IsValidAfter dev) e (hilevel_handler_svc-IsValid dev ctx id v)
  Step-IsValid (irq ctx iar e) v = subst IsValid e (hilevel_handler_irq-IsValid dev iar ctx v)
  Step-IsValid (user m _ e) v = subst IsValid e (record { sched = v.sched; ipc = v.ipc })

  -- Where no user code and no read of a file writes over the kernel's static variables, and every system
  -- call has an outcome: in every state that a reset, system calls, interrupts and user code lead to,
  -- the process table and the table of pipes are valid.
  pub Reach-IsValid : {k : Kernel D} → Reach dev k → IsValid k
  Reach-IsValid (boot im k ctx e f q) =
      subst (IsValidAfter dev) q (hilevel_handler_rst-IsValid dev im k e f)
  Reach-IsValid (next r st) = Step-IsValid st (Reach-IsValid r)
