-- ===== src/P7.antt =====
-- A philosopher, user/P7.c: a child process of the waiter, which prints what it is told.
pub mod Safe
mod Tests
use armcortex_a7os.Base.{
  ℕ, zero, suc, List, [], ◌∷◌, Option, none, some, replicate, take, strlen, ◌==◌, if◌then◌else◌,
  minus_one, codes,
}
use armcortex_a7os.Libc.Sys.{Sys}
use armcortex_a7os.Libc.Numbers.{itoa, memset}
use armcortex_a7os.P6.{init, eat, think}

-- The `switch` on `buffer`.
unfoldable pub reply : ℕ → List ℕ
reply buffer =
    if buffer == init
    then codes ": READY\n"
    else if buffer == eat
    then codes ": EATING\n"
    else if buffer == think
    then codes ": THINKING\n"
    else if buffer == minus_one
    then codes ": WAITING FOR COMMAND\n"
    else codes ": UNSUPPORTED SIGNAL\n"

-- The variables of `main_P7`: the array `id` has three bytes.
pub record Philosopher : Type 0 where
  pub pid_child : ℕ
  pub pid_parent : ℕ
  pub pipe : ℕ
  pub id : List ℕ

module _ {W : Type 0} (sys : Sys W) where
  -- Up to the loop; `id` holds anything before.
  unfoldable pub begin : List ℕ → W → Option (Philosopher × W)
  begin id w =
      let pid_child = sys.get_pid w in
      let pid_parent = sys.get_parent_pid w in
      let (pipe, w') = sys.make_pipe pid_parent pid_child w in
      elim (memset id 0 3) [
        | none ↦ none
        | some id' ↦
            some
              (record { pid_child = pid_child; pid_parent = pid_parent; pipe = pipe; id = id' }, w')
      ]

  -- One round of the loop, once `id` is written.
  unfoldable pub speak : Philosopher → W → Option (Philosopher × W)
  unfolding reply
  speak p w =
      let (buffer, w1) = sys.mreceive (p.pipe) (p.pid_child) w in
      elim (strlen (p.id)) [
        | none ↦ none
        | some n ↦ some (
          p,
          sys.yield (
              sys.print (reply buffer)
                (sys.print (take n (p.id)) (sys.print (codes "Philosopher ") w1))),
        )
      ]

  -- One round of the loop; `none` where `id` is too small for the number.
  unfoldable pub round : Philosopher → W → Option (Philosopher × W)
  round p w = elim (itoa (p.id) (p.pid_child)) [
    | none ↦ none
    | some id ↦ speak (record p { id = id }) w
  ]

  unfoldable pub rounds : ℕ → Philosopher → W → Option (Philosopher × W)
  rounds zero p w = some (p, w)
  rounds (suc n) p w = elim (round p w) [ none ↦ none | some (p', w') ↦ rounds n p' w' ]
