-- ===== src/Registers/Apart.antt =====
-- Registers at their addresses: those of device/*.h behind the pointers of device/*.c.
use armcortex_a7os.Base.{
  some_inj, lt_of_get_elem?, ℕ, zero, suc, ◌+◌, ◌%◌, ◌≤◌, ◌<◌, ◌≡◌, ◌≢◌, refl, sym, ap, subst, ◌∙◌,
  ◌⊎◌, inl, inr, Bool, true, false, ◌&&◌, ◌||◌, List, [], ◌∷◌, some, get_elem?, leb, ◌==◌, ==_ne,
  ℕ_discrete, all_below, all_below_at, arith, get_or, get_or-of_get_elem?,
}
use native.Mathlib.Decide.{dec_lt}
use armcortex_a7os.Registers.{
  Member, word, words, halves, overlay, rsvd, Slot, size_of, align_of, aligned, layout, extent,
}
use armcortex_a7os.Registers.Map.{Device, devices}

aligned-ge :
    (o : ℕ) (m : Member) → (o ≤ aligned o (align_of m)) × (aligned o (align_of m) % align_of m ≡ 0)
unfolding aligned align_of
aligned-ge o (word name doc) = omega arith
aligned-ge o (words name n doc) = omega arith
aligned-ge o (halves name n doc) = omega arith
aligned-ge o (overlay name other doc) = omega arith
aligned-ge o (rsvd y z doc) = omega arith

extent-ge : (o : ℕ) (ms : List Member) → o ≤ extent o ms
unfolding extent
extent-ge o [] = omega arith
extent-ge o (m ∷ ms) =
    omega (arith, extent-ge (aligned o (align_of m) + size_of m) ms, (aligned-ge o m).0)

-- A member stands at its alignment, behind `o`, and ends within the structure.
record Fits (o : ℕ) (ms : List Member) (s : Slot) : Type 0 where
  behind : o ≤ s.start
  within : s.start + size_of s.member ≤ extent o ms
  whole : s.start % align_of s.member ≡ 0

layout-Fits :
    (o : ℕ) (ms : List Member) (p : ℕ) (s : Slot) → get_elem? (layout o ms) p ≡ some s → Fits o ms s
unfolding layout extent
layout-Fits o [] p s h = absurd (cc h)
layout-Fits o (m ∷ ms) zero s h =
    let end = extent-ge (aligned o (align_of m) + size_of m) ms in
    let (ge, whole) = aligned-ge o m in
    subst (Fits o (m ∷ ms)) (some_inj h) (record { behind = ge; within = end; whole = whole })
layout-Fits o (m ∷ ms) (suc p) s h =
    let f = layout-Fits (aligned o (align_of m) + size_of m) ms p s h in
    record {
      behind = omega (arith, (aligned-ge o m).0, f.behind);
      within = f.within;
      whole = f.whole;
    }

-- Members stand in order and do not overlap.
layout-Ordered :
    (o : ℕ) (ms : List Member) (p q : ℕ) (a b : Slot)
    → get_elem? (layout o ms) p ≡ some a
    → get_elem? (layout o ms) q ≡ some b
    → p < q
    → a.start + size_of a.member ≤ b.start
unfolding layout
layout-Ordered o [] p q a b h k l = absurd (cc h)
layout-Ordered o (m ∷ ms) zero (suc q) a b h k l =
    let f = layout-Fits (aligned o (align_of m) + size_of m) ms q b k in
    subst (λ (t : Slot). t.start + size_of t.member ≤ b.start) (some_inj h) f.behind
layout-Ordered o (m ∷ ms) p zero a b h k l = absurd (omega arith)
layout-Ordered o (m ∷ ms) (suc p) (suc q) a b h k l =
    layout-Ordered (aligned o (align_of m) + size_of m) ms p q a b h k (omega arith)

abbrev device_at : ℕ → Device
device_at i = get_or devices i (record { name = "NULL"; base = 0; members = [] })

-- The structure of one ends before the other begins.
before : Device → Device → Bool
before c d = leb (c.base + extent 0 c.members) d.base

no_overlap : ℕ → ℕ → Bool
unfolding before
no_overlap i j =
    i == j || (before (device_at i) (device_at j) || before (device_at j) (device_at i))

table : all_below 22 (λ i. all_below 22 (no_overlap i)) ≡ true
unfolding all_below no_overlap extent devices
table = refl

on_page : ℕ → Bool
on_page i = (device_at i).base % 4096 == 0 && leb (extent 0 (device_at i).members) 4096

on_pages : all_below 22 on_page ≡ true
unfolding all_below extent devices on_page
on_pages = refl

device_of : (i : ℕ) {c : Device} → get_elem? devices i ≡ some c → (device_at i ≡ c) × (i < 22)
unfolding devices
device_of i h = (get_or-of_get_elem? devices i _ h, lt_of_get_elem? devices i h)

unequal : (i j : ℕ) → i ≢ j → (i == j) ≡ false
unequal i j ne = ==_ne i j ne

devices_apart :
    (i j : ℕ) {c d : Device}
    → get_elem? devices i ≡ some c
    → get_elem? devices j ≡ some d
    → i ≢ j
    → (c.base + extent 0 c.members ≤ d.base) ⊎ (d.base + extent 0 d.members ≤ c.base)
unfolding no_overlap before
devices_apart i j {c} {d} h k ne =
    let (e, l) = device_of i h in
    let (f, m) = device_of j k in
    let t =
      all_below_at 22 (no_overlap i) j
        (all_below_at 22 (λ n. all_below 22 (no_overlap n)) i table l) m in
    rw (← e, ← f) (ground (arith, t))

-- Of two different members of the structures behind the pointers, or of the same member behind two
-- pointers, one ends before the other begins. A union is one member.
pub members_apart :
    (i j p q : ℕ) {c d : Device} {a b : Slot}
    → get_elem? devices i ≡ some c
    → get_elem? devices j ≡ some d
    → get_elem? (layout 0 c.members) p ≡ some a
    → get_elem? (layout 0 d.members) q ≡ some b
    → (i ≢ j) ⊎ (p ≢ q)
    → (c.base + a.start + size_of a.member ≤ d.base + b.start)
      ⊎ (d.base + b.start + size_of b.member ≤ c.base + a.start)
members_apart i j p q {c} {d} {a} {b} h k u v ne = elim (ℕ_discrete i j) [
  | no other ↦
      let fa = layout-Fits 0 c.members p a u in
      let fb = layout-Fits 0 d.members q b v in
      elim (devices_apart i j h k other) [
        | inl l ↦ inl (omega (arith, l, fa.within))
        | inr l ↦ inr (omega (arith, l, fb.within))
      ]
  | yes e ↦
      let same : c ≡ d = some_inj (sym h ∙ ap (get_elem? devices) e ∙ k) in
      let v' : get_elem? (layout 0 c.members) q ≡ some b =
        subst (λ (x : Device). get_elem? (layout 0 x.members) q ≡ some b) (sym same) v in
      subst
        (λ (x : Device).
          (c.base + a.start + size_of a.member ≤ x.base + b.start)
          ⊎ (x.base + b.start + size_of b.member ≤ c.base + a.start))
        same
        (elim (dec_lt p q) [
          | yes l ↦ inl (omega (arith, layout-Ordered 0 c.members p q a b u v' l))
          | no l ↦
              let differ : p ≢ q = elim ne [ inl n ↦ absurd (n e) | inr n ↦ n ] in
              inr
                (omega (arith, layout-Ordered 0 c.members q p b a v' u (omega (arith, l, differ))))
        ])
]

whole_sum : (m : Member) (b s : ℕ) → b % 4096 ≡ 0 → s % align_of m ≡ 0 → (b + s) % align_of m ≡ 0
unfolding align_of
whole_sum (word name doc) b s h k = omega arith
whole_sum (words name n doc) b s h k = omega arith
whole_sum (halves name n doc) b s h k = omega arith
whole_sum (overlay name other doc) b s h k = omega arith
whole_sum (rsvd y z doc) b s h k = omega arith

device_page :
    (i : ℕ) {c : Device}
    → get_elem? devices i ≡ some c
    → (c.base % 4096 ≡ 0) × (extent 0 c.members ≤ 4096)
unfolding on_page
device_page i {c} h =
    let (e, l) = device_of i h in
    let t = all_below_at 22 on_page i on_pages l in rw (← e) (ground (arith, t))

-- Every register stands at an address that its alignment divides, within the 4 KB page of its device.
pub registers_aligned :
    (i p : ℕ) {c : Device} {a : Slot}
    → get_elem? devices i ≡ some c
    → get_elem? (layout 0 c.members) p ≡ some a
    → ((c.base + a.start) % align_of a.member ≡ 0) × (a.start + size_of a.member ≤ 4096)
registers_aligned i p {c} {a} h u =
    let f = layout-Fits 0 c.members p a u in
    let (whole, small) = device_page i h in
    (whole_sum a.member c.base a.start whole f.whole, omega (arith, f.within, small))
