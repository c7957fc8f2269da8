-- ===== src/Fs/OnServer/Tests.antt =====
-- A disk with one file, behind the server of device/disk.py, and a write to it.
use armcortex_a7os.Base.{
  ℕ, zero, suc, ◌<◌, ◌≡◌, ◌≢◌, refl, sym, subst, true, ◌||◌, List, [], ◌∷◌, ◌++◌, some, replicate,
  set, get_or, Bytes, ◌==◌, if◌then◌else◌, ℕ_discrete, arith, all_below, all_below_at,
}
use armcortex_a7os.Uart.{Port}
use armcortex_a7os.Disk.Protocol.{AllBytes}
use armcortex_a7os.Disk.Server.{Server, read_bytes}
use armcortex_a7os.Disk.Server.Stores.{ready}
use armcortex_a7os.Fs.{
  File, Data, Fs, ◌>>◌, zero_file, zero_data, zero_header, file_success, get_data_block_id, file_of,
  data_of, rounds, get_data_block_address,
}
use armcortex_a7os.Fs.Files.{file_setup, file_disk_load}
use armcortex_a7os.Fs.Rw.{file_write, file_read}
use armcortex_a7os.Fs.Text.{last}
use armcortex_a7os.Fs.Store.{Store, data_on}
use armcortex_a7os.Fs.Loading.{entry_on}
use armcortex_a7os.Fs.LoadData.{EntryInRange}
use armcortex_a7os.Fs.Reset.{Loadable}
use armcortex_a7os.Fs.Durable.{OpenFile, file_write-file_disk_load}
use armcortex_a7os.Fs.OnServer.{driver, Attached, server_store}

-- The first entry, the file `a` of one block at the address 96, and that block, with the text `hi`.
abbrev formatted : ℕ → ℕ
formatted i =
    if i == 32
    then 1
    else if i == 36
    then b'a'
    else if i == 52
    then 1
    else if i == 56
    then 1
    else if i == 60
    then 96
    else if i == 3072
    then b'h'
    else if i == 3073
    then b'i'
    else 0

abbrev line : Port Server
line = ready (record {
  block_num = 200;
  block_len = 32;
  image = formatted;
  size = 6400;
  line = [];
  alive = true;
})

formatted_small : (i : ℕ) → formatted i < 256
formatted_small i = ground arith

read_bytes-AllBytes : (n at : ℕ) → AllBytes (read_bytes n at formatted)
unfolding read_bytes
read_bytes-AllBytes zero at = tt
read_bytes-AllBytes (suc n) at = (formatted_small at, read_bytes-AllBytes n _)

line-Attached : Attached 200 line
line-Attached = record {
  idle = refl;
  whole = record { full = omega arith; bytes = λ a l. read_bytes-AllBytes 32 _ };
  size = refl;
  number = refl;
}

abbrev entry : File
entry = record {
  descriptor = 1;
  name = b'a' ∷ replicate 15 0;
  no_of_blocks = 1;
  active = 1;
  address = 96;
}

abbrev hi : Data
hi = record zero_data { content = b'h' ∷ b'i' ∷ replicate 22 0 }

abbrev mounted : Fs (Port Server)
mounted = record {
  file = set (replicate 95 zero_file) 0 entry;
  data_blocks = set (replicate 8 zero_data) 0 hi;
  header = record zero_header { new_data_block = 97 };
  disk = line;
  out = [];
}

abbrev store : Store driver
store = server_store 200 (omega arith)

only_first : all_below 95 (λ j. j == 0 || (entry_on store line j).active == 0) ≡ true
unfolding all_below entry_on file_of read_bytes
only_first = refl

other_zero : (a b : ℕ) → (a == 0 || b == 0) ≡ true → a ≢ 0 → b ≡ 0
other_zero a b h ne = ground arith

first_in_range : EntryInRange store line 8 (entry_on store line 0)
unfolding entry_on file_of read_bytes rounds get_data_block_id
first_in_range live = (omega arith, tt)

in_range : (j : ℕ) → j < 95 → EntryInRange store line 8 (entry_on store line j)
in_range j l live = elim (ℕ_discrete j 0) [
  | yes e ↦
      subst (λ i. EntryInRange store line 8 (entry_on store line i)) (sym e) first_in_range live
  | no ne ↦ absurd (
      live (
        other_zero j ((entry_on store line j).active)
          (all_below_at 95 (λ i. i == 0 || (entry_on store line i).active == 0) j only_first l) ne))
]

mounted-Loadable : Loadable store 8 line
mounted-Loadable = record { up = line-Attached; room = omega arith; chains = in_range }

entry-OpenFile : OpenFile store mounted 0 0 entry (b'h' ∷ b'i' ∷ [])
unfolding entry_on data_on file_of data_of read_bytes get_data_block_id get_data_block_address
entry-OpenFile = record {
  low = omega arith;
  at_fd = refl;
  entry = refl;
  live = omega arith;
  text =
      last hi (b'h' ∷ b'i' ∷ []) (replicate 21 0) (refl, refl) refl refl (omega arith)
        (record { size = refl; filled = omega arith; next = omega arith });
  counted = omega arith;
  small = omega arith;
}

abbrev marks : List ℕ
marks = b'!' ∷ b'?' ∷ []

abbrev text_of : List ℕ → Bytes
text_of xs i = get_or xs i 0

file_write-file_disk_load_example :
    (s' m' : Fs (Port Server)) × (file_write driver 0 (text_of marks) 2 mounted
      ≡ some (file_success, s'))
    × ((file_setup driver >> file_disk_load driver) (record s' {
      file = replicate 95 zero_file;
      data_blocks = replicate 8 zero_data;
      header = zero_header;
      out = [];
    })
        ≡ some (tt, m'))
    × (m'.header.new_data_block ≡ 96)
    × (file_read 0 30 m' ≡ some ((30, (b'h' ∷ b'i' ∷ []) ++ marks), m'))
file_write-file_disk_load_example =
    file_write-file_disk_load store mounted mounted-Loadable entry-OpenFile (text_of marks) b'!'
      (b'?' ∷ []) 30 (λ i l. refl) (omega arith) (omega arith) (omega arith) (omega arith)
      (omega arith) (replicate 95 zero_file) (replicate 8 zero_data) zero_header [] refl refl
