-- ===== src/P6/Start.antt =====
-- How the waiter of user/P6.c begins.
use armcortex_a7os.Base.{
  ℕ, zero, suc, ◌+◌, ◌<◌, ◌≡◌, ◌⊎◌, inl, inr, refl, subst, ◌∙◌, ap, List, true, replicate, length,
  set, get_or, get_or-set_self, get_or-set_ne, length-set, list_ext, ◌==◌, arith, Bool-cases,
  minus_one, all_below, all_below_at, ==_iff,
}
use armcortex_a7os.Libc.Sys.{Sys}
use armcortex_a7os.P6.{Waiter, Flow, waiter, child, initialise_from, initialise, init}
use armcortex_a7os.P6.Rounds.{IsReady}

-- The chopsticks below `i` are laid out.
record IsLaid (i : ℕ) (c : List ℕ) : Type 0 where
  size : length c ≡ 16
  ones : (j : ℕ) → j < i → get_or c j 0 ≡ 1

lay : (i : ℕ) (c : List ℕ) → i < 16 → IsLaid i c → IsLaid (i + 1) (set c i 1)
lay i c h l = record {
  size = length-set c i 1 ∙ l.size;
  ones = λ j p. elim (last j p) [
    | inl e ↦ ap (λ n. get_or (set c i 1) n 0) e ∙ get_or-set_self c i 1 0 (omega (arith, l.size))
    | inr lt ↦ get_or-set_ne c i j 1 0 (λ e. omega arith) ∙ l.ones j lt
  ];
}
  where
    last : (j : ℕ) → j < i + 1 → (j ≡ i) ⊎ (j < i)
    last j p = omega arith

ones_table : all_below 16 (λ i. 1 == get_or (replicate 16 1) i 0) ≡ true
unfolding all_below
ones_table = refl

whole : (c : List ℕ) → IsLaid 16 c → c ≡ replicate 16 1
whole c l = list_ext c (replicate 16 1) 0 (l.size) (λ i p.
    let below : i < 16 = omega (arith, l.size) in
    l.ones i below ∙ (==_iff _ _).0 (all_below_at 16 _ i ones_table below))

-- If it is the waiter that goes on, it is ready.
abbrev pub StartsReady : {W : Type 0} → ℕ → ℕ → Flow W → Type 0
StartsReady pid first (waiter t v) = IsReady t × (t.first_index ≡ first) × (t.pid_parent ≡ pid)
StartsReady pid first (child v) = Unit {0}

module _ {W : Type 0} (sys : Sys W) (main_p7 : ℕ) where
  initialise_from-StartsReady :
      (n i : ℕ) (s : Waiter) (w : W)
      → n + i ≡ 16
      → s.first_index < 16
      → IsLaid i (s.chopstick)
      → StartsReady (s.pid_parent) (s.first_index) (initialise_from sys main_p7 n i s w)
  unfolding initialise_from
  initialise_from-StartsReady zero i s w e h l =
      let e' : i ≡ 16 = omega arith in
      (
        record {
          laid_out = whole (s.chopstick) (subst (λ n. IsLaid n (s.chopstick)) e' l);
          at_table = h;
        },
        refl,
        refl,
      )
  initialise_from-StartsReady (suc n) i s w e h l =
      let (res, w1) = sys.fork w in
      let (pipe, w2) = sys.make_pipe (s.pid_parent) res w1 in
      let w3 = (sys.msend pipe (s.pid_parent) res init w2).1 in
      let l' = lay i (s.chopstick) (omega arith) l in
      let failed =
        initialise_from-StartsReady n (i + 1) (record s { chopstick = set (s.chopstick) i 1 }) w1
          (omega arith) h l' in
      let made =
        initialise_from-StartsReady n (i + 1)
          (record s {
            chopstick = set (s.chopstick) i 1;
            child_id = set (s.child_id) i res;
            child_pipe = set (s.child_pipe) i pipe;
          })
          w3 (omega arith) h l' in
      elim (Bool-cases (res == 0)) [
        | inl z ↦ rw z tt
        | inr nz ↦ elim (Bool-cases (res == minus_one)) [
          | inl f ↦ rw (nz, f) failed
          | inr ok ↦ rw (nz, ok) made
        ]
      ]

  -- With sixteen chopsticks and the index 0 at first, where initialise returns as the waiter, whatever
  -- the calls of the kernel give, the waiter is ready, its first philosopher is 0, and it knows its own
  -- pid.
  pub initialise-IsReady :
      (s t : Waiter) (w v : W)
      → length s.chopstick ≡ 16
      → s.first_index ≡ 0
      → initialise sys main_p7 s w ≡ waiter t v
      → IsReady t × (t.first_index ≡ 0) × (t.pid_parent ≡ sys.get_pid w)
  unfolding initialise
  initialise-IsReady s t w v size z e =
      let l : IsLaid 0 (s.chopstick) = record { size = size; ones = λ j p. absurd (omega arith) } in
      let (ready, first, pid) = subst (StartsReady (sys.get_pid w) (s.first_index)) e (
        initialise_from-StartsReady 16 0 (record s { pid_parent = sys.get_pid w }) w refl
          (omega arith) l) in
      (ready, first ∙ z, pid)
