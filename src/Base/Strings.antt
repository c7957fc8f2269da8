-- ===== src/Base/Strings.antt =====
-- The C string functions that the program calls. A `char *` argument of a system call is the
-- function from offsets to bytes; an array in a structure is the list of its bytes.
use Prim.Native.Nat.{ℕ, zero, suc, ◌+◌}
use Prim.Native.Char.{code}
use Prim.Native.String.{String}
use mathlib.Core.Bool.{Bool, true, false}
use mathlib.Core.Option.{Option, none, some}
use mathlib.Core.Option
use mathlib.Core.List.{List, [], ◌∷◌, ◌++◌}
use armcortex_a7os.Base.Tests.{◌==◌, if◌then◌else◌}
use armcortex_a7os.Base.Lists.{length, take, drop, replicate}

abbrev pub Bytes : Type 0
Bytes = ℕ → ℕ

-- `p + k`
abbrev pub advance : ℕ → Bytes → Bytes
advance k x i = x (k + i)

-- The position of the first null byte; `none` where the array has none.
abbrev pub strlen : List ℕ → Option ℕ
strlen [] = none
strlen (c ∷ cs) = let rest = Option.map suc (strlen cs) in if c == 0 then some 0 else rest

-- The `n` bytes that `strncpy( dst, x, n )` writes.
abbrev pub strncpy : ℕ → Bytes → List ℕ
strncpy zero x = []
strncpy (suc n) x =
    let rest = strncpy n (λ i. x (suc i)) in if x 0 == 0 then replicate (suc n) 0 else x 0 ∷ rest

-- `strcmp( a, x ) == 0`; false where the array `a` ends with no null byte.
abbrev pub str_equal : List ℕ → Bytes → Bool
str_equal [] x = false
str_equal (c ∷ cs) x =
    let rest = str_equal cs (λ i. x (suc i)) in
    if c == x 0 then if c == 0 then true else rest else false

-- At most `n` bytes of the string in `cs`: what `strncat` appends.
abbrev pub str_prefix : ℕ → List ℕ → List ℕ
str_prefix zero cs = []
str_prefix (suc n) [] = []
str_prefix (suc n) (c ∷ cs) = let rest = c ∷ str_prefix n cs in if c == 0 then [] else rest

-- The bytes of the destination after `strcat( dst, src )`, where its string has length `k`.
abbrev pub strcat_at : ℕ → List ℕ → List ℕ → List ℕ
strcat_at k dst src = take k dst ++ (src ++ 0 ∷ drop (k + length src + 1) dst)

-- The bytes of a string literal of the source, without the null byte.
abbrev pub codes : String → List ℕ
codes String.[] = []
codes (String.◌∷◌ c s) = code c ∷ codes s
