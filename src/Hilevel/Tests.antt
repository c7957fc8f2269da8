-- ===== src/Hilevel/Tests.antt =====
-- A boot on a device that answers every request, and the theorems about the handlers from there.
use armcortex_a7os.Base.{◌≡◌, refl, [], Option, some, none, replicate, false, leb, ltb, ◌&&◌, ◌∷◌}
use armcortex_a7os.Scheduler.{Ctx, Image, zero_ctx, zero_pcb}
use armcortex_a7os.Ipc.{zero_pipe}
use armcortex_a7os.Fs.{Blocks, zero_file, zero_header}
use armcortex_a7os.Fs.Files
use armcortex_a7os.Fs.Rw
use armcortex_a7os.Hilevel.{
  Kernel, Regs, hilevel_handler_svc, hilevel_handler_irq, hilevel_handler_rst,
}
use armcortex_a7os.Hilevel.Keep.{IsValid, IsValidAfter, hilevel_handler_svc-IsValid}
use armcortex_a7os.Hilevel.Traces.{Reach, boot, next, irq, Reach-IsValid}

abbrev sink : Blocks (Unit {0})
sink = record { wr = λ a x d. some (0, d); rd = λ a n x d. some ((0, x), d) }

abbrev image : Image
image = record { main_console = 0x70010400; tos_user = 0x70090000 }

abbrev cold_regs : Regs
cold_regs = record {
  timer1_load = 0;
  timer1_ctrl = 0;
  timer1_int_clr = 0;
  pmr = 0;
  isenabler1 = 0;
  gicc_ctlr = 0;
  gicd_ctlr = 0;
  eoir = 0;
  irq_enabled = false;
}

abbrev cold : Kernel (Unit {0})
cold = record {
  sched = record {
    pcb = replicate 30 zero_pcb;
    current = 0;
    current_tos_user = 0x70090000;
    out = [];
  };
  ipc = record { pipe = replicate 105 zero_pipe; out = [] };
  fs = record {
    file = replicate 95 zero_file;
    data_blocks = [];
    header = zero_header;
    disk = tt;
    out = [];
  };
  memory = λ a. 0;
  is_static = λ a. leb 0x70080000 a && ltb a 0x70090000;
  regs = cold_regs;
}

-- The state of an outcome.
abbrev state_of : Option (Ctx × Kernel (Unit {0})) → Ctx × Kernel (Unit {0})
state_of none = (zero_ctx, cold)
state_of (some s) = s

abbrev booted : Ctx × Kernel (Unit {0})
booted = state_of (hilevel_handler_rst sink image cold)

boots : hilevel_handler_rst sink image cold ≡ some booted
unfolding hilevel_handler_rst Files.file_setup Files.file_disk_load
boots = refl

warm : Reach sink booted.1
warm = boot image cold booted.0 refl refl boots

Reach-IsValid_example : IsValid (hilevel_handler_irq sink 36 booted.0 booted.1).1
Reach-IsValid_example = Reach-IsValid sink (next warm (irq booted.0 36 refl))

hilevel_handler_svc-IsValid_example :
    IsValidAfter sink (hilevel_handler_svc sink booted.0 2 booted.1)
hilevel_handler_svc-IsValid_example =
    hilevel_handler_svc-IsValid sink booted.0 2 (Reach-IsValid sink warm)

-- A read of no bytes with a pointer to the static variables writes its null byte there.
reads_over_statics :
    hilevel_handler_svc sink
      (record (booted.0) { gpr = 0 ∷ 0x70080000 ∷ 0 ∷ replicate 10 0 })
      0x22
      booted.1
    ≡ none
unfolding hilevel_handler_svc Rw.file_read hilevel_handler_rst Files.file_setup Files.file_disk_load
reads_over_statics = refl
