-- ===== src/Registers/Tests.antt =====
-- Registers at their addresses, and the theorems at registers of the kernel's.
use armcortex_a7os.Base.{ℕ, ◌+◌, ◌%◌, ◌≤◌, ◌≡◌, refl, ◌⊎◌, inl, inr, some, get_elem?, arith}
use armcortex_a7os.Registers.{
  Slot, word, halves, layout, size_of, align_of, extent, registers_of, rsvd,
}
use armcortex_a7os.Registers.Headers.{gicd, sp804, sysconf, pl111, pl050}
use armcortex_a7os.Registers.Map.{devices, device}
use armcortex_a7os.Registers.Apart.{registers_aligned}
use armcortex_a7os.Registers.Distinct.{IsUnion, registers_apart}
use armcortex_a7os.Registers.Offsets.{driven, IsExact, registers_documented}

abbrev timer_load : Slot
timer_load = record { member = word "Timer1Load" 0x0000; start = 0 }

abbrev timer_clear : Slot
timer_clear = record { member = word "Timer1IntClr" 0x000C; start = 0x000C }

timer0 : get_elem? devices 8 ≡ some (device "TIMER0" 0x10011000 sp804)
unfolding devices sp804
timer0 = refl

load_slot : get_elem? (layout 0 sp804) 0 ≡ some timer_load
unfolding layout sp804
load_slot = refl

clear_slot : get_elem? (layout 0 sp804) 3 ≡ some timer_clear
unfolding layout sp804
clear_slot = refl

registers_apart_example :
    ((0x10011000 + timer_load.start + size_of timer_load.member ≤ 0x10011000 + timer_clear.start)
      ⊎ (0x10011000 + timer_clear.start + size_of timer_clear.member
          ≤ 0x10011000 + timer_load.start))
    ⊎ ((◌≡◌ {A = ℕ} 8 8) × (◌≡◌ {A = ℕ} 0 3) × IsUnion timer_load.member)
unfolding registers_of
registers_apart_example =
    registers_apart 8 8 0 3 0 0 timer0 timer0 load_slot clear_slot refl refl
      (inr (inl (omega arith)))

clear_aligned :
    ((0x10011000 + timer_clear.start) % align_of timer_clear.member ≡ 0)
    × (timer_clear.start + size_of timer_clear.member ≤ 4096)
clear_aligned = registers_aligned 8 3 timer0 clear_slot

driven_timer0 : get_elem? driven 8 ≡ some (device "TIMER0" 0x10011000 sp804)
unfolding driven sp804
driven_timer0 = refl

registers_documented_example : IsExact timer_clear
registers_documented_example = registers_documented 8 3 driven_timer0 clear_slot

-- The comment says 0x0760.
reserved_moved :
    get_elem? (layout 0 gicd) 26
    ≡ some (record { member = rsvd 0x0860 0x0BFC 0x0760; start = 0x0860 })
unfolding layout gicd
reserved_moved = refl

-- The comment says 0x0FE0.
lcd_id_moved :
    get_elem? (layout 0 pl111) 31
    ≡ some (record { member = word "PeriphID0" 0x0FE0; start = 0x0ED4 })
unfolding layout pl111
lcd_id_moved = refl

-- The comment says 0x0200: an array of half words is aligned to two bytes only.
palette_moved :
    get_elem? (layout 0 pl111) 14
    ≡ some (record { member = halves "LCDPalette" 256 0x0200; start = 0x01FE })
unfolding layout pl111
palette_moved = refl

-- The comment says 0x009A.
oscillator_moved :
    get_elem? (layout 0 sysconf) 38
    ≡ some (record { member = word "OSCRESET4" 0x009A; start = 0x009C })
unfolding layout sysconf
oscillator_moved = refl

-- The comment on its end says 0x00FF.
keyboard_extent : extent 0 pl050 ≡ 0x0FBC
unfolding extent pl050
keyboard_extent = refl
