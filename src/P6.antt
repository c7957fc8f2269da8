-- ===== src/P6.antt =====
-- The waiter of the dining philosophers, user/P6.c: the parent process of sixteen philosophers, whom
-- it tells over pipes to eat or to think.
pub mod Table
pub mod Rounds
pub mod Start
mod Tests
use armcortex_a7os.Base.{
  ℕ, zero, suc, ◌+◌, ◌%◌, List, Bool, not, ◌&&◌, get_or, set, ◌==◌, if◌then◌else◌, minus_one, codes,
}
use armcortex_a7os.Libc.Sys.{Sys}

abbrev pub no_of_philosophers : ℕ
no_of_philosophers = 16

abbrev pub init : ℕ
init = 2

abbrev pub eat : ℕ
eat = 3

abbrev pub think : ℕ
think = 4

pub record Waiter : Type 0 where
  pub child_pipe : List ℕ
  pub chopstick : List ℕ
  pub child_id : List ℕ
  pub pid_parent : ℕ
  pub first_index : ℕ

-- `first_index = update_first_index()`
unfoldable pub update_first_index : Waiter → Waiter
update_first_index s = record s { first_index = (s.first_index + 1) % no_of_philosophers }

unfoldable pub chopsticks_available : ℕ → List ℕ → Bool
chopsticks_available i chopstick =
    not (get_or chopstick i 0 == 0) && not (get_or chopstick ((i + 1) % no_of_philosophers) 0 == 0)

unfoldable pub chopsticks_remove : ℕ → List ℕ → List ℕ
chopsticks_remove i chopstick = set (set chopstick i 0) ((i + 1) % no_of_philosophers) 0

-- The loop of `chopsticks_return` with `n` rounds left.
unfoldable pub return_from : ℕ → ℕ → List ℕ → List ℕ
return_from zero i chopstick = chopstick
return_from (suc n) i chopstick = return_from n (i + 1) (set chopstick i 1)

unfoldable pub chopsticks_return : List ℕ → List ℕ
unfolding return_from
chopsticks_return chopstick = return_from no_of_philosophers 0 chopstick

-- Where the program goes on: as the waiter, or in a child that runs another program.
pub data Flow (W : Type 0) : Type 0 where
  waiter : Waiter → W → Flow W
  child : W → Flow W

module _ {W : Type 0} (sys : Sys W) (main_p7 : ℕ) where
  -- The loop of `initialise` with `n` rounds left.
  unfoldable pub initialise_from : ℕ → ℕ → Waiter → W → Flow W
  initialise_from zero i s w = waiter s (sys.yield w)
  initialise_from (suc n) i s w =
      let chopstick = set (s.chopstick) i 1 in
      let (res, w1) = sys.fork w in
      let (pipe, w2) = sys.make_pipe (s.pid_parent) res w1 in
      let (r, w3) = sys.msend pipe (s.pid_parent) res init w2 in
      let failed = initialise_from n (i + 1) (record s { chopstick = chopstick }) w1 in
      let made =
        initialise_from n (i + 1)
          (record s {
            chopstick = chopstick;
            child_id = set (s.child_id) i res;
            child_pipe = set (s.child_pipe) i pipe;
          })
          w3 in
      if res == 0 then child (sys.exec main_p7 2 w1) else if res == minus_one then failed else made

  unfoldable pub initialise : Waiter → W → Flow W
  initialise s w = initialise_from no_of_philosophers 0 (record s { pid_parent = sys.get_pid w }) w

module _ {W : Type 0} (sys : Sys W) where
  -- `msend( child_pipe[ id ], pid_parent, child_id[ id ], x )`
  unfoldable pub tell : Waiter → ℕ → ℕ → W → W
  tell s id x w =
      let (r, w') =
        sys.msend (get_or (s.child_pipe) id 0) (s.pid_parent) (get_or (s.child_id) id 0) x w in
      w'

  -- The inner loop of `main_P6` with `n` rounds left.
  unfoldable pub serve_from : ℕ → ℕ → Waiter → W → Waiter × W
  unfolding chopsticks_available chopsticks_remove tell
  serve_from zero i s w = (s, w)
  serve_from (suc n) i s w =
      let id = i % no_of_philosophers in
      let fed =
        serve_from n (i + 1) (record s { chopstick = chopsticks_remove id (s.chopstick) })
          (tell s id eat w) in
      let unfed = serve_from n (i + 1) s (tell s id think w) in
      if chopsticks_available id (s.chopstick) then fed else unfed

  -- One round of the outer loop of `main_P6`.
  unfoldable pub round : Waiter → W → Waiter × W
  unfolding update_first_index
  round s w =
      let (s1, w1) = serve_from no_of_philosophers (s.first_index) s w in
      let s2 = update_first_index s1 in
      let s3 = record s2 { chopstick = chopsticks_return (s2.chopstick) } in
      (s3, sys.yield (sys.print (codes "Waiter       : SWITCH BOYS\n") w1))

  -- The outer loop, `n` times.
  unfoldable pub rounds : ℕ → Waiter → W → Waiter × W
  rounds zero s w = (s, w)
  rounds (suc n) s w = let (s', w') = round s w in rounds n s' w'
