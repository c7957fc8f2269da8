-- ===== src/P7/Safe.antt =====
-- A philosopher of user/P7.c stays within its array, and what it prints.
use armcortex_a7os.Base.{
  ℕ, zero, suc, ◌+◌, ◌/◌, ◌%◌, ◌<◌, ◌≤◌, ◌≡◌, refl, sym, subst, ap, ap₂, ◌∙◌, List, [], ◌∷◌, true,
  false, some, length, get_or, strlen, take, codes, ◌==◌, ==_ne, ltb, if◌then◌else◌, arith, iterate,
}
use armcortex_a7os.Libc.Sys.{Sys}
use armcortex_a7os.Libc.Numbers.{itoa}
use armcortex_a7os.Libc.Numbers.Decimal.{HasDigits, Shows}
use armcortex_a7os.Libc.Numbers.RoundTrip.{has_digits}
use armcortex_a7os.Libc.Numbers.Itoa.{itoa-Shows}
use armcortex_a7os.P7.{Philosopher, reply, speak, round, rounds}

-- The decimal digits of a number below 100.
abbrev pub decimal : ℕ → List ℕ
decimal n = if ltb n 10 then (48 + n) ∷ [] else (48 + n / 10) ∷ (48 + n % 10) ∷ []

-- What is said in answer to each number that a waiter may send, or to no message, the bit pattern of -1.
abbrev pub phrases : List (ℕ × List ℕ)
phrases =
    (2, codes ": READY\n")
    ∷ (3, codes ": EATING\n")
    ∷ (4, codes ": THINKING\n")
    ∷ (4294967295, codes ": WAITING FOR COMMAND\n")
    ∷ []

abbrev pub said : ℕ → List (ℕ × List ℕ) → List ℕ
said b [] = codes ": UNSUPPORTED SIGNAL\n"
said b ((n, phrase) ∷ rest) = let other = said b rest in if b == n then phrase else other

reply-said : (b : ℕ) → reply b ≡ said b phrases
unfolding reply
reply-said b = refl

-- An array of three bytes that shows a number of `k` digits.
three : (r : List ℕ) → length r ≡ 3 → (x y z : ℕ) × (r ≡ x ∷ y ∷ z ∷ [])
three [] l = absurd (omega (arith, l))
three (x ∷ []) l = absurd (omega (arith, l))
three (x ∷ y ∷ []) l = absurd (omega (arith, l))
three (x ∷ y ∷ z ∷ []) l = (x, y, z, refl)
three (x ∷ y ∷ z ∷ w ∷ r) l = absurd (omega (arith, l))

string_shown :
    (k n x y w : ℕ)
    → n < 100
    → 0 < n
    → k ≤ 2
    → HasDigits k n
    → Shows (x ∷ y ∷ w ∷ []) 0 k n
    → get_or (x ∷ y ∷ w ∷ []) (0 + k) 0 ≡ 0
    → (m : ℕ) × (strlen (x ∷ y ∷ w ∷ []) ≡ some m) × (take m (x ∷ y ∷ w ∷ []) ≡ decimal n)
string_shown zero n x y w b pos two d s z = absurd (omega (arith, d))
string_shown (suc zero) n x y w b pos two d s z =
    let c : (x == 0) ≡ false = ==_ne x 0 (omega (arith, s.0)) in
    let small : ltb n 10 ≡ true = ground (arith, d.1) in
    (1, rw (c, z) refl, rw small (ap (λ (v : ℕ). v ∷ []) (omega (arith, s.0, d.1))))
string_shown (suc (suc zero)) n x y w b pos two d s z =
    let c₁ : (x == 0) ≡ false = ==_ne x 0 (omega (arith, s.1.0)) in
    let c₂ : (y == 0) ≡ false = ==_ne y 0 (omega (arith, s.0)) in
    let large : ltb n 10 ≡ false = ground (arith, d.1.0) in
    (
      2,
      rw (c₁, c₂, z) refl,
      rw large (ap₂ (λ (u v : ℕ). u ∷ v ∷ []) (omega (arith, s.1.0, b)) (omega (arith, s.0))),
    )
string_shown (suc (suc (suc k))) n x y w b pos two d s z = absurd (omega arith)

-- Writing the pid leaves the digits of the pid in an array of three bytes.
writes_pid :
    (pid : ℕ) (r : List ℕ)
    → 0 < pid
    → pid < 100
    → length r ≡ 3
    → (r' : List ℕ) × (m : ℕ) × (itoa r pid ≡ some r')
      × (length r' ≡ 3)
      × (strlen r' ≡ some m)
      × (take m r' ≡ decimal pid)
writes_pid pid r pos b l =
    let (k, two, d) = has_digits 2 pid b in
    let (r', e, shown, ended, len) =
      itoa-Shows k pid r pos (omega arith) (omega arith) d (omega arith) in
    let (x, y, z, q) = three r' (len ∙ l) in
    let (m, n, t) =
      string_shown k pid x y z b pos two d (subst (λ (a : List ℕ). Shows a 0 k pid) q shown)
        (ap (λ (a : List ℕ). get_or a (0 + k) 0) (sym q) ∙ ended) in
    (r', m, e, len ∙ l, ap strlen q ∙ n, ap (take m) q ∙ t)

module _ {W : Type 0} (sys : Sys W) where
  -- A round in full: it receives a signal, prints who it is and what is said to the signal, and yields.
  abbrev pub after_round : Philosopher → W → W
  after_round p w =
      let (buffer, w1) = sys.mreceive (p.pipe) (p.pid_child) w in
      sys.yield (
        sys.print (said buffer phrases)
          (sys.print (decimal (p.pid_child)) (sys.print (codes "Philosopher ") w1)))

  round_at :
      (p : Philosopher) (w : W) (id : List ℕ) (n : ℕ)
      → itoa p.id p.pid_child ≡ some id
      → strlen id ≡ some n
      → take n id ≡ decimal p.pid_child
      → round sys p w ≡ some (record p { id = id }, after_round p w)
  unfolding round speak
  round_at p w id n e q t =
      rw (e, round, q, speak, t, reply-said (sys.mreceive p.pipe p.pid_child w).0) refl

  -- A philosopher with the pid and the pipe of another, and an array of three bytes.
  record IsSame (p q : Philosopher) : Type 0 where
    pid : q.pid_child ≡ p.pid_child
    pipe : q.pipe ≡ p.pipe
    size : length q.id ≡ 3

  round_lem :
      (p : Philosopher) (w : W)
      → 0 < p.pid_child
      → p.pid_child < 100
      → length p.id ≡ 3
      → (p' : Philosopher) × (round sys p w ≡ some (p', after_round p w)) × IsSame p p'
  round_lem p w pos b l =
      let (id, m, e, l', q, t) = writes_pid (p.pid_child) (p.id) pos b l in
      (record p { id = id }, round_at p w id m e q t, record { pid = refl; pipe = refl; size = l' })

  rounds_next :
      (n : ℕ) (p p1 : Philosopher) (w w1 : W)
      → round sys p w ≡ some (p1, w1)
      → rounds sys (suc n) p w ≡ rounds sys n p1 w1
  unfolding rounds
  rounds_next n p p1 w w1 e = rw (e, rounds)

  rounds_none : (p : Philosopher) (w : W) → rounds sys 0 p w ≡ some (p, w)
  unfolding rounds
  rounds_none p w = refl

  same_world : (p q : Philosopher) (w : W) → IsSame p q → after_round q w ≡ after_round p w
  same_world p q w e = rw (e.pid, e.pipe) refl

  -- With a pid from 1 to 99 and an array of three bytes, a philosopher never writes outside of the
  -- array, however many rounds it runs; and what `n` rounds do is that many times this: it receives a
  -- signal from its pipe and prints "Philosopher ", the decimal digits of its pid, and what is said to
  -- the signal: ": READY" to 2, ": EATING" to 3, ": THINKING" to 4, ": WAITING FOR COMMAND" to -1, and
  -- ": UNSUPPORTED SIGNAL" to any other; and it yields.
  pub rounds_print_replies :
      (n : ℕ) (p : Philosopher) (w : W)
      → 0 < p.pid_child
      → p.pid_child < 100
      → length p.id ≡ 3
      → (q : Philosopher) × (rounds sys n p w ≡ some (q, iterate n (after_round p) w))
  rounds_print_replies zero p w pos b l = (p, rounds_none p w)
  rounds_print_replies (suc n) p w pos b l =
      let (p1, e, s) = round_lem p w pos b l in
      let (q, run) =
        rounds_print_replies n p1 (after_round p w) (omega (arith, s.pid, pos))
          (omega (arith, s.pid, b)) s.size in
      (
        q,
        rounds_next n p p1 w (after_round p w) e
            ∙ run
            ∙ ap (λ (f : W → W). some (q, iterate n f (after_round p w)))
                (λ i v. same_world p p1 v s i),
      )
