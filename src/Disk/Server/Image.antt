-- ===== src/Disk/Server/Image.antt =====
-- The file behind device/disk.py: bytes written at an offset, and read.
use armcortex_a7os.Base.{
  ℕ, zero, suc, ◌+◌, ◌*◌, ◌<◌, ◌≤◌, ◌≡◌, ◌≢◌, ◌⊎◌, inl, inr, refl, ◌∙◌, ap, List, [], ◌∷◌, length,
  ◌==◌, ==_ne, ==_self, if◌then◌else◌, arith,
}
use native.Mathlib.Decide.{dec_lt}
use armcortex_a7os.Disk.Server.{read_bytes, write_bytes}

pub length-read_bytes : (n at : ℕ) (m : ℕ → ℕ) → length (read_bytes n at m) ≡ n
unfolding read_bytes
length-read_bytes zero at m = refl
length-read_bytes (suc n) at m = ap suc (length-read_bytes n (at + 1) m)

-- A write leaves the bytes outside of it.
write_bytes-outside :
    (at : ℕ) (bs : List ℕ) (m : ℕ → ℕ) (i : ℕ)
    → (i < at) ⊎ (at + length bs ≤ i)
    → write_bytes at bs m i ≡ m i
unfolding write_bytes
write_bytes-outside at [] m i h = refl
write_bytes-outside at (b ∷ bs) m i h =
    let apart : i ≢ at = elim h [ inl l ↦ omega arith | inr l ↦ omega arith ] in
    write_bytes-outside (at + 1) bs (λ j. if j == at then b else m j) i
      (elim h [ inl l ↦ inl (omega arith) | inr l ↦ inr (omega arith) ])
    ∙ rw (==_ne i at apart) refl

-- A read outside of a write gives what was there.
pub read-write_outside :
    (n from at : ℕ) (bs : List ℕ) (m : ℕ → ℕ)
    → (from + n ≤ at) ⊎ (at + length bs ≤ from)
    → read_bytes n from (write_bytes at bs m) ≡ read_bytes n from m
unfolding read_bytes
read-write_outside zero from at bs m h = refl
read-write_outside (suc n) from at bs m h =
    let this : (from < at) ⊎ (at + length bs ≤ from) = elim h [
      | inl l ↦ inl (omega arith)
      | inr l ↦ inr l
    ] in
    let next : (from + 1 + n ≤ at) ⊎ (at + length bs ≤ from + 1) = elim h [
      | inl l ↦ inl (omega arith)
      | inr l ↦ inr (omega arith)
    ] in
    rw (write_bytes-outside at bs m from this, read-write_outside n (from + 1) at bs m next) refl

-- A read of what was written gives just that.
pub read-write :
    (at : ℕ) (bs : List ℕ) (m : ℕ → ℕ) → read_bytes (length bs) at (write_bytes at bs m) ≡ bs
unfolding read_bytes write_bytes
read-write at [] m = refl
read-write at (b ∷ bs) m =
    let m' : ℕ → ℕ = λ i. if i == at then b else m i in
    let first = write_bytes-outside (at + 1) bs m' at (inl (omega arith)) in
    rw (first, ==_self at, read-write (at + 1) bs m') refl

pub block_below : (a b n : ℕ) → a < b → a * n + n ≤ b * n
block_below a b n l = grind arith

-- Two blocks of the same length do not overlap.
pub blocks_apart : (a b n : ℕ) → a ≢ b → (b * n + n ≤ a * n) ⊎ (a * n + n ≤ b * n)
blocks_apart a b n ne = elim (dec_lt a b) [
  | yes l ↦ inr (block_below a b n l)
  | no l ↦ inl (block_below b a n (omega (arith, l)))
]
