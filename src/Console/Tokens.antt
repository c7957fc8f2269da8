-- ===== src/Console/Tokens.antt =====
-- `strtok` on lines of words.
use armcortex_a7os.Base.{ℕ, ◌≡◌, ◌≢◌, refl, ap, List, [], ◌∷◌, ◌++◌, Bool, some, ==_ne}
use armcortex_a7os.Console.{skip, split, strtok, space, nothing}
use armcortex_a7os.Console.Line.{Without}

split_word : (t rest : List ℕ) → Without b' ' t → split space (t ++ b' ' ∷ rest) ≡ (t, rest)
unfolding split
split_word [] rest h = refl
split_word (c ∷ cs) rest h = rw (==_ne c b' ' h.0, split_word cs rest h.1)

split_last : (t : List ℕ) → Without b' ' t → split space t ≡ (t, [])
unfolding split
split_last [] h = refl
split_last (c ∷ cs) h = rw (==_ne c b' ' h.0, split_last cs h.1)

split_all : (t : List ℕ) → split nothing t ≡ (t, [])
unfolding split
split_all [] = refl
split_all (c ∷ cs) = rw (split_all cs)

skip_word : (c : ℕ) (cs : List ℕ) → c ≢ b' ' → skip space (c ∷ cs) ≡ c ∷ cs
unfolding skip
skip_word c cs h = rw (==_ne c b' ' h)

skip_none : (c : ℕ) (cs : List ℕ) → skip nothing (c ∷ cs) ≡ c ∷ cs
unfolding skip
skip_none c cs = refl

strtok_at :
    (d : ℕ → Bool) (s : List ℕ) (c : ℕ) (cs : List ℕ) {p : List ℕ × List ℕ}
    → skip d s ≡ c ∷ cs
    → split d (c ∷ cs) ≡ p
    → strtok d s ≡ some p
unfolding strtok
strtok_at d s c cs e q = rw (e, strtok) (ap some q)

-- A word that a space follows is a token, and so is the last word.
pub strtok_word :
    (c : ℕ) (cs rest : List ℕ)
    → Without b' ' (c ∷ cs)
    → strtok space ((c ∷ cs) ++ b' ' ∷ rest) ≡ some (c ∷ cs, rest)
strtok_word c cs rest h =
    strtok_at space ((c ∷ cs) ++ b' ' ∷ rest) c (cs ++ b' ' ∷ rest)
      (skip_word c (cs ++ b' ' ∷ rest) h.0) (split_word (c ∷ cs) rest h)

pub strtok_last :
    (c : ℕ) (cs : List ℕ) → Without b' ' (c ∷ cs) → strtok space (c ∷ cs) ≡ some (c ∷ cs, [])
strtok_last c cs h = strtok_at space (c ∷ cs) c cs (skip_word c cs h.0) (split_last (c ∷ cs) h)

-- With no delimiter the token is all that is left.
pub strtok_all : (c : ℕ) (cs : List ℕ) → strtok nothing (c ∷ cs) ≡ some (c ∷ cs, [])
strtok_all c cs = strtok_at nothing (c ∷ cs) c cs (skip_none c cs) (split_all (c ∷ cs))
