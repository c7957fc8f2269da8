-- ===== src/Registers/Offsets.antt =====
-- The comments beside the members of the structures in device/*.h.
use armcortex_a7os.Base.{
  refl, subst, some_inj, ℕ, zero, suc, ◌≡◌, Bool, true, ◌&&◌, ◌||◌, ◌⊎◌, List, [], ◌∷◌, ◌++◌, some,
  get_elem?, ◌==◌, arith,
}
use armcortex_a7os.Registers.{Slot, documented, layout}
use armcortex_a7os.Registers.Map.{Device, gic_devices, timer_devices, uart_devices}

-- The devices that the kernel drives: the interrupt controllers, the timers and the serial ports.
unfoldable pub driven : List Device
unfolding gic_devices timer_devices uart_devices
driven = gic_devices ++ (timer_devices ++ uart_devices)

-- A member at the offset in its comment, or at 0x0860 with the comment 0x0760.
exact : Slot → Bool
unfolding documented
exact s = s.start == documented s.member || (s.start == 0x0860 && documented s.member == 0x0760)

abbrev pub IsExact : Slot → Type 0
IsExact s = (s.start ≡ documented s.member) ⊎ ((s.start ≡ 0x0860) × (documented s.member ≡ 0x0760))

exact-IsExact : (s : Slot) → exact s ≡ true → IsExact s
unfolding exact
exact-IsExact s h = one_of s.start (documented s.member) h
  where
    one_of :
        (n d : ℕ)
        → (n == d || (n == 0x0860 && d == 0x0760)) ≡ true
        → (n ≡ d) ⊎ ((n ≡ 0x0860) × (d ≡ 0x0760))
    one_of n d h = ground arith

all_exact : List Slot → Bool
unfolding exact
all_exact [] = true
all_exact (s ∷ ss) = exact s && all_exact ss

devices_exact : List Device → Bool
unfolding all_exact
devices_exact [] = true
devices_exact (d ∷ ds) = all_exact (layout 0 d.members) && devices_exact ds

all_exact-at :
    (ss : List Slot) (p : ℕ) {s : Slot} → all_exact ss ≡ true → get_elem? ss p ≡ some s → IsExact s
unfolding all_exact
all_exact-at [] p t h = absurd (cc h)
all_exact-at (s ∷ ss) zero t h = subst IsExact (some_inj h) (exact-IsExact s (ground (arith, t)))
all_exact-at (s ∷ ss) (suc p) t h = all_exact-at ss p (ground (arith, t)) h

devices_exact-at :
    (ds : List Device) (i : ℕ) {d : Device}
    → devices_exact ds ≡ true
    → get_elem? ds i ≡ some d
    → all_exact (layout 0 d.members) ≡ true
unfolding devices_exact
devices_exact-at [] i t h = absurd (cc h)
devices_exact-at (d ∷ ds) zero t h =
    subst (λ (x : Device). all_exact (layout 0 x.members) ≡ true) (some_inj h) (ground (arith, t))
devices_exact-at (d ∷ ds) (suc i) t h = devices_exact-at ds i (ground (arith, t)) h

driven_exact : devices_exact driven ≡ true
unfolding devices_exact layout documented driven
driven_exact = refl

-- Every member of the structures of the interrupt controllers, the timers and the serial ports stands
-- at the offset that its comment gives, but for one at 0x0860 whose comment says 0x0760.
pub registers_documented :
    (i p : ℕ) {d : Device} {s : Slot}
    → get_elem? driven i ≡ some d
    → get_elem? (layout 0 d.members) p ≡ some s
    → IsExact s
registers_documented i p {d} h u =
    all_exact-at (layout 0 d.members) p (devices_exact-at driven i driven_exact h) u
