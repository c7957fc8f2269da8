-- ===== src/Registers.antt =====
-- The memory-mapped registers of the board: the structures of the headers in device/, laid out as the
-- compiler does, and the addresses of the pointers to them.
pub mod Headers
pub mod Map
pub mod Apart
pub mod Distinct
pub mod Offsets
mod Tests
use armcortex_a7os.Base.{ℕ, ◌+◌, ◌-◌, ◌*◌, ◌/◌, List, [], ◌∷◌, String}

-- A member of such a structure, with the offset that the comment beside it gives: a register; an
-- array of `n` registers of 32 or of 16 bits; a union of two registers; and the macro
-- `RSVD( x, y, z )`, an array of `z - y + 1` bytes.
pub data Member : Type 0 where
  word : String → ℕ → Member
  words : String → ℕ → ℕ → Member
  halves : String → ℕ → ℕ → Member
  overlay : String → String → ℕ → Member
  rsvd : ℕ → ℕ → ℕ → Member

unfoldable pub size_of : Member → ℕ
size_of (word name doc) = 4
size_of (words name n doc) = 4 * n
size_of (halves name n doc) = 2 * n
size_of (overlay name other doc) = 4
size_of (rsvd y z doc) = z - y + 1

unfoldable pub align_of : Member → ℕ
align_of (word name doc) = 4
align_of (words name n doc) = 4
align_of (halves name n doc) = 2
align_of (overlay name other doc) = 4
align_of (rsvd y z doc) = 1

-- The offset in the comment; of a reserved array, where it begins.
unfoldable pub documented : Member → ℕ
documented (word name doc) = doc
documented (words name n doc) = doc
documented (halves name n doc) = doc
documented (overlay name other doc) = doc
documented (rsvd y z doc) = doc

-- The registers, or the array of registers, that a member is: the two of a union stand at the same
-- place, and a reserved array is none.
unfoldable pub registers_of : Member → List String
registers_of (word name doc) = name ∷ []
registers_of (words name n doc) = name ∷ []
registers_of (halves name n doc) = name ∷ []
registers_of (overlay name other doc) = name ∷ other ∷ []
registers_of (rsvd y z doc) = []

-- A member at its place: the bytes from `start` on, relative to the structure.
pub record Slot : Type 0 where
  pub member : Member
  pub start : ℕ

-- The least multiple of `a` that is not below `o`.
unfoldable pub aligned : ℕ → ℕ → ℕ
aligned o a = (o + a - 1) / a * a

-- The members in order, each at the first place of its alignment after the one before.
unfoldable pub layout : ℕ → List Member → List Slot
unfolding size_of align_of aligned
layout o [] = []
layout o (m ∷ ms) =
    let start = aligned o (align_of m) in
    record { member = m; start = start } ∷ layout (start + size_of m) ms

-- The offset behind the last member.
unfoldable pub extent : ℕ → List Member → ℕ
unfolding size_of align_of aligned
extent o [] = o
extent o (m ∷ ms) = extent (aligned o (align_of m) + size_of m) ms
