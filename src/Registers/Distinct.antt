-- ===== src/Registers/Distinct.antt =====
-- Which registers of device/*.h share their bytes: the two of a union.
use armcortex_a7os.Base.{
  ℕ, zero, suc, ◌+◌, ◌≤◌, ◌≡◌, ◌≢◌, ◌⊎◌, inl, inr, refl, String, some, get_elem?, ℕ_discrete,
  some_inj, sym, ap, ◌∙◌,
}
use armcortex_a7os.Registers.{
  Member, word, words, halves, overlay, rsvd, Slot, size_of, layout, registers_of,
}
use armcortex_a7os.Registers.Map.{Device, devices}
use armcortex_a7os.Registers.Apart.{members_apart}

-- The member is a union of two registers.
abbrev pub IsUnion : Member → Type 0
IsUnion m = (name other : String) × (doc : ℕ) × (m ≡ overlay name other doc)

-- Only a union is two registers.
two_of-IsUnion :
    (m : Member) (x y : ℕ) {r t : String}
    → get_elem? (registers_of m) x ≡ some r
    → get_elem? (registers_of m) y ≡ some t
    → x ≢ y
    → IsUnion m
unfolding registers_of
two_of-IsUnion (word name doc) zero zero h k ne = absurd (ne refl)
two_of-IsUnion (word name doc) zero (suc y) h k ne = absurd (cc k)
two_of-IsUnion (word name doc) (suc x) y h k ne = absurd (cc h)
two_of-IsUnion (words name n doc) zero zero h k ne = absurd (ne refl)
two_of-IsUnion (words name n doc) zero (suc y) h k ne = absurd (cc k)
two_of-IsUnion (words name n doc) (suc x) y h k ne = absurd (cc h)
two_of-IsUnion (halves name n doc) zero zero h k ne = absurd (ne refl)
two_of-IsUnion (halves name n doc) zero (suc y) h k ne = absurd (cc k)
two_of-IsUnion (halves name n doc) (suc x) y h k ne = absurd (cc h)
two_of-IsUnion (overlay name other doc) x y h k ne = (name, other, doc, refl)
two_of-IsUnion (rsvd a z doc) x y h k ne = absurd (cc h)

-- Two registers, or arrays of registers, of the memory map share a byte only as the two of one union:
-- let the register `x` of the member `p` behind the pointer `i` be another than the register `y` of the
-- member `q` behind the pointer `j`. Then one ends before the other begins, or both are of the same
-- member behind the same pointer, and it is a union.
pub registers_apart :
    (i j p q x y : ℕ) {c d : Device} {a b : Slot} {r t : String}
    → get_elem? devices i ≡ some c
    → get_elem? devices j ≡ some d
    → get_elem? (layout 0 c.members) p ≡ some a
    → get_elem? (layout 0 d.members) q ≡ some b
    → get_elem? (registers_of a.member) x ≡ some r
    → get_elem? (registers_of b.member) y ≡ some t
    → (i ≢ j) ⊎ ((p ≢ q) ⊎ (x ≢ y))
    → ((c.base + a.start + size_of a.member ≤ d.base + b.start)
        ⊎ (d.base + b.start + size_of b.member ≤ c.base + a.start))
      ⊎ ((i ≡ j) × (p ≡ q) × IsUnion a.member)
registers_apart i j p q x y {c} {d} {a} {b} {r} {t} h k u v m n ne = elim (ℕ_discrete i j) [
  | no other ↦ inl (members_apart i j p q h k u v (inl other))
  | yes e ↦ elim (ℕ_discrete p q) [
    | no other ↦ inl (members_apart i j p q h k u v (inr other))
    | yes f ↦
        let same : c ≡ d = some_inj (sym h ∙ ap (get_elem? devices) e ∙ k) in
        let alike : a ≡ b = some_inj (
          sym u
          ∙ ap (get_elem? (layout 0 c.members)) f
          ∙ ap (λ (z : Device). get_elem? (layout 0 z.members) q) same
          ∙ v) in
        let n' : get_elem? (registers_of a.member) y ≡ some t =
          ap (λ (z : Slot). get_elem? (registers_of z.member) y) alike ∙ n in
        let differ : x ≢ y = elim ne [
          | inl o ↦ absurd (o e)
          | inr rest ↦ elim rest [ inl o ↦ absurd (o f) | inr o ↦ o ]
        ] in
        inr (e, f, two_of-IsUnion a.member x y m n' differ)
  ]
]
