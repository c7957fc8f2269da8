-- ===== src/Registers/Map.antt =====
-- The pointers to the devices, from device/GIC.c, SP804.c, SYS.c, PL011.c, PL050.c and PL111.c.
use armcortex_a7os.Base.{ℕ, List, [], ◌∷◌, ◌++◌, String}
use armcortex_a7os.Registers.{Member, word}
use armcortex_a7os.Registers.Headers.{gicc, gicd, sp804, sysconf, pl011, pl050, pl111}

-- A pointer: the address, and the members of the structure there.
pub record Device : Type 0 where
  pub name : String
  pub base : ℕ
  pub members : List Member

abbrev pub device : String → ℕ → List Member → Device
device name base members = record { name = name; base = base; members = members }

-- A single register, as `SYSCTRL0` points to.
abbrev pub control : String → List Member
control name = word name 0 ∷ []

unfoldable pub gic_devices : List Device
unfolding gicc gicd
gic_devices =
    device "GICC0" 0x1E000000 gicc
    ∷ device "GICD0" 0x1E001000 gicd
    ∷ device "GICC1" 0x1E010000 gicc
    ∷ device "GICD1" 0x1E011000 gicd
    ∷ device "GICC2" 0x1E020000 gicc
    ∷ device "GICD2" 0x1E021000 gicd
    ∷ device "GICC3" 0x1E030000 gicc
    ∷ device "GICD3" 0x1E031000 gicd
    ∷ []

unfoldable pub timer_devices : List Device
unfolding sp804
timer_devices =
    device "TIMER0" 0x10011000 sp804
    ∷ device "TIMER1" 0x10012000 sp804
    ∷ device "TIMER2" 0x10018000 sp804
    ∷ device "TIMER3" 0x10019000 sp804
    ∷ []

unfoldable pub sys_devices : List Device
unfolding sysconf
sys_devices =
    device "SYSCONF" 0x10000000 sysconf
    ∷ device "SYSCTRL0" 0x10001000 (control "SYSCTRL0")
    ∷ device "SYSCTRL1" 0x1001A000 (control "SYSCTRL1")
    ∷ []

unfoldable pub uart_devices : List Device
unfolding pl011
uart_devices =
    device "UART0" 0x10009000 pl011
    ∷ device "UART1" 0x1000A000 pl011
    ∷ device "UART2" 0x1000B000 pl011
    ∷ device "UART3" 0x1000C000 pl011
    ∷ []

unfoldable pub ps2_devices : List Device
unfolding pl050
ps2_devices = device "PS20" 0x10006000 pl050 ∷ device "PS21" 0x10007000 pl050 ∷ []

unfoldable pub lcd_devices : List Device
unfolding pl111
lcd_devices = device "LCD" 0x10020000 pl111 ∷ []

-- All of them.
unfoldable pub devices : List Device
unfolding gic_devices timer_devices sys_devices uart_devices ps2_devices lcd_devices
devices =
    gic_devices
    ++ (timer_devices ++ (sys_devices ++ (uart_devices ++ (ps2_devices ++ lcd_devices))))
