-- ===== src/Ipc.antt =====
-- Pipes between processes: kernel/ipc.h and kernel/ipc.c.
-- A `buffer_t *` into a pipe names one of its two buffers, and is `none` for the null pointer that
-- `find_buffer` returns. `none` for the outcome of a call is undefined behaviour: an index outside
-- of `pipe`, or a read through that null pointer.
pub mod Inv
pub mod Init
pub mod Open
pub mod Ends
pub mod Message
pub mod Mailbox
pub mod Keep
mod Tests
use armcortex_a7os.Base.{
  ℕ, zero, suc, ◌+◌, Bool, true, false, not, ◌&&◌, ◌||◌, List, [], ◌∷◌, String, Option, none, some,
  get_elem?, get_or, set, ◌==◌, if◌then◌else◌, minus_one,
}

abbrev pub no_of_pipes : ℕ
no_of_pipes = 105

abbrev pub ipc_failure : ℕ
ipc_failure = 0

abbrev pub ipc_success : ℕ
ipc_success = 1

abbrev pub ipc_empty : ℕ
ipc_empty = minus_one

-- `buffer_t`
pub record Buffer : Type 0 where
  pub pid : ℕ
  pub signal : ℕ

-- `pipe_t`
pub record Pipe : Type 0 where
  pub pipe_id : ℕ
  pub buff_1 : Buffer
  pub buff_2 : Buffer
  pub active : Bool

-- What `memset( &pipe[ i ], 0, sizeof( pipe_t ) )` leaves.
abbrev pub zero_pipe : Pipe
zero_pipe = record {
  pipe_id = 0;
  buff_1 = record { pid = 0; signal = 0 };
  buff_2 = record { pid = 0; signal = 0 };
  active = false;
}

-- The static variable, and the messages printed on UART0, newest first.
pub record Ipc : Type 0 where
  pub pipe : List Pipe
  pub out : List String

abbrev pub at : List Pipe → ℕ → Pipe
at t i = get_or t i zero_pipe

abbrev pub say : String → Ipc → Ipc
say m s = record s { out = m ∷ s.out }

-- The loop of `ipc_initialise`: `n` rounds from index `i` on. Each clears the entry 0.
unfoldable pub initialise_from : ℕ → ℕ → List Pipe → List Pipe
initialise_from zero i t = t
initialise_from (suc n) i t =
    let t' = set t 0 zero_pipe in
    initialise_from n (i + 1) (set t' i (record (at t' i) { pipe_id = i }))

unfoldable pub ipc_initialise : Ipc → Ipc
unfolding initialise_from
ipc_initialise s = record s { pipe = initialise_from no_of_pipes 0 s.pipe }

unfoldable pub new_pipe_id : List Pipe → ℕ
new_pipe_id [] = ipc_failure
new_pipe_id (p ∷ ps) = let rest = new_pipe_id ps in if not p.active then p.pipe_id else rest

unfoldable pub buffer_initialise : Buffer → ℕ → Buffer
buffer_initialise b pid = record b { pid = pid; signal = ipc_empty }

-- The outcome is the pipe's id and the new state; `none` where that id is no index of `pipe`.
unfoldable pub new_pipe : ℕ → ℕ → Ipc → Option (ℕ × Ipc)
new_pipe pid_1 pid_2 s =
    let id = new_pipe_id s.pipe in
    if not (id == minus_one)
    then elim (get_elem? s.pipe id) [
      | none ↦ none
      | some p ↦ some (
        id,
        record s {
          pipe = set s.pipe id (record p {
            buff_1 = buffer_initialise p.buff_1 pid_1;
            buff_2 = buffer_initialise p.buff_2 pid_2;
            active = true;
          });
        },
      )
    ]
    else some (ipc_failure, say "IPC(ipc_new_pipe): All pipes busy.\n" s)

-- Whether the pipe joins the two processes, in either order.
unfoldable pub joins : ℕ → ℕ → Pipe → Bool
joins pid_1 pid_2 p =
    p.buff_1.pid == pid_1 && p.buff_2.pid == pid_2 || p.buff_1.pid == pid_2 && p.buff_2.pid == pid_1

-- The loop of `ipc_pipe`: the id of the first active pipe between the two.
unfoldable pub find_pipe : ℕ → ℕ → List Pipe → Option ℕ
find_pipe pid_1 pid_2 [] = none
find_pipe pid_1 pid_2 (p ∷ ps) =
    let rest = find_pipe pid_1 pid_2 ps in
    if p.active && joins pid_1 pid_2 p then some p.pipe_id else rest

unfoldable pub ipc_pipe : ℕ → ℕ → Ipc → Option (ℕ × Ipc)
ipc_pipe pid_1 pid_2 s = elim (find_pipe pid_1 pid_2 s.pipe) [
  | some id ↦ some (id, s)
  | none ↦ new_pipe pid_1 pid_2 s
]

-- One of the two buffers of a pipe.
pub data Side : Type 0 where
  first second : Side

abbrev pub signal_of : Side → Pipe → ℕ
signal_of first p = p.buff_1.signal
signal_of second p = p.buff_2.signal

abbrev pub set_signal : Side → ℕ → Pipe → Pipe
set_signal first v p = record p { buff_1 = record (p.buff_1) { signal = v } }
set_signal second v p = record p { buff_2 = record (p.buff_2) { signal = v } }

unfoldable pub find_buffer : ℕ → Pipe → Ipc → Option Side × Ipc
find_buffer pid p s =
    if p.buff_1.pid == pid
    then (some first, s)
    else if p.buff_2.pid == pid
    then (some second, s)
    else (none, say "IPC(ipc_find_buffer): Wrong pipe selected\n" s)

-- `ipc_send_message` once its pipe and its two pointers are known.
unfoldable pub send_along : ℕ → Pipe → Option Side → Option Side → ℕ → Ipc → Option (ℕ × Ipc)
send_along id p src des sig s =
    if not p.active
    then some (ipc_failure, say "IPC(ipc_send_message): Selected pipe inactive\n" s)
    else elim src [
      | none ↦ none
      | some a ↦
          if not (signal_of a p == ipc_empty)
          then some (ipc_failure, say "IPC(ipc_send_message): Sender's buffer is full\n" s)
          else elim des [
            | none ↦ none
            | some b ↦
                if not (signal_of b p == ipc_empty)
                then some (ipc_failure, say "IPC(ipc_send_message): Receiver's buffer is full\n" s)
                else some (ipc_success, record s { pipe = set s.pipe id (set_signal b sig p) })
          ]
    ]

unfoldable pub ipc_send_message : ℕ → ℕ → ℕ → ℕ → Ipc → Option (ℕ × Ipc)
ipc_send_message pipe_id pid_src pid_des sig s = elim (get_elem? s.pipe pipe_id) [
  | none ↦ none
  | some p ↦
      let (src, s₁) = find_buffer pid_src p s in
      let (des, s₂) = find_buffer pid_des p s₁ in send_along pipe_id p src des sig s₂
]

-- `ipc_receive_message` once its pipe and its pointer are known.
unfoldable pub receive_from : ℕ → Pipe → Option Side → Ipc → Option (ℕ × Ipc)
receive_from id p none s = none
receive_from id p (some b) s =
    if signal_of b p == ipc_empty
    then some (ipc_empty, say "IPC(ipc_receive_message): Nothing to receive. Buffer empty\n" s)
    else some (signal_of b p, record s { pipe = set s.pipe id (set_signal b ipc_empty p) })

unfoldable pub ipc_receive_message : ℕ → ℕ → Ipc → Option (ℕ × Ipc)
ipc_receive_message pipe_id pid_des s = elim (get_elem? s.pipe pipe_id) [
  | none ↦ none
  | some p ↦ let (des, s') = find_buffer pid_des p s in receive_from pipe_id p des s'
]
