-- ===== src/Uart/Flags.antt =====
-- The tests of device/PL011.c on the flag register, and the waits of `PL011_putc` and `PL011_getc`.
use armcortex_a7os.Base.{ℕ, ◌≡◌, refl, true, false, Bool, List, [], ◌∷◌, Option, none, some}
use armcortex_a7os.Uart.{Port, pl011_can_getc, pl011_getc}

-- Whether a call returns.
abbrev returns : {A : Type 0} → Option A → Bool
returns none = false
returns (some a) = true

-- `PL011_getc` returns at once exactly where `PL011_can_getc` says so.
pub pl011_can_getc-getc :
    {P : Type 0} (bs : List ℕ) (p : P)
    → let d : Port P = record { input = bs; peer = p } in pl011_can_getc d ≡ returns (pl011_getc d)
unfolding pl011_can_getc pl011_getc
pl011_can_getc-getc [] p = refl
pl011_can_getc-getc (b ∷ bs) p = refl
