-- ===== src/Libc/Tests.antt =====
-- The stub theorem at a call with two arguments.
use armcortex_a7os.Base.{some, replicate, false, []}
use armcortex_a7os.Scheduler.{zero_pcb}
use armcortex_a7os.Ipc.{zero_pipe}
use armcortex_a7os.Fs.{Blocks, zero_file, zero_header}
use armcortex_a7os.Hilevel.{Kernel}

abbrev silent : Blocks (Unit {0})
silent = record { wr = λ a x d. some (0, d); rd = λ a n x d. some ((0, x), d) }

abbrev cold : Kernel (Unit {0})
cold = record {
  sched = record {
    pcb = replicate 30 zero_pcb;
    current = 0;
    current_tos_user = 0x70090000;
    out = [];
  };
  ipc = record { pipe = replicate 105 zero_pipe; out = [] };
  fs = record {
    file = replicate 95 zero_file;
    data_blocks = [];
    header = zero_header;
    disk = tt;
    out = [];
  };
  memory = λ a. 0;
  is_static = λ a. false;
  regs = record {
    timer1_load = 0;
    timer1_ctrl = 0;
    timer1_int_clr = 0;
    pmr = 0;
    isenabler1 = 0;
    gicc_ctlr = 0;
    gicd_ctlr = 0;
    eoir = 0;
    irq_enabled = false;
  };
}
