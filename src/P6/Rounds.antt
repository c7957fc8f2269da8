-- ===== src/P6/Rounds.antt =====
-- What the waiter of user/P6.c tells the philosophers.
use armcortex_a7os.Base.{ℕ, zero, suc, ◌+◌, ◌%◌, ◌<◌, ◌≡◌, replicate, if◌then◌else◌, codes}
use armcortex_a7os.Libc.Sys.{Sys}
use armcortex_a7os.P6.{eat, think, Waiter, tell}
use armcortex_a7os.P6.Table.{even}

-- What the philosopher `id` is told in the round `n`.
abbrev pub plate : ℕ → ℕ → ℕ
plate n id = if even (id + n) then eat else think

-- All chopsticks lie on the table, and the round begins with a philosopher of the table.
pub record IsReady (s : Waiter) : Type 0 where
  pub laid_out : s.chopstick ≡ replicate 16 1
  pub at_table : s.first_index < 16

module _ {W : Type 0} (sys : Sys W) where
  -- `m` philosophers, from `i` on, are each told their plate of the round `n`.
  pub tells : ℕ → ℕ → ℕ → Waiter → W → W
  tells n zero i s w = w
  tells n (suc m) i s w = tells n m (i + 1) s (tell sys s (i % 16) (plate n (i % 16)) w)

  -- What a round does: all sixteen philosophers are told their plates.
  abbrev pub after_round : ℕ → Waiter → W → Waiter × W
  after_round n s w = (
    record s { first_index = (s.first_index + 1) % 16 },
    sys.yield (sys.print (codes "Waiter       : SWITCH BOYS\n") (tells n 16 (s.first_index) s w)),
  )
