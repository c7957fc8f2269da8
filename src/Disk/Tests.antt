-- ===== src/Disk/Tests.antt =====
-- The driver against a device that refuses some requests, and its theorems at concrete inputs.
use armcortex_a7os.Base.{ℕ, zero, suc, ◌≡◌, refl, [], ◌∷◌, ◌++◌, some, ◌==◌, if◌then◌else◌, arith}
use armcortex_a7os.Uart.{Peer, Port, xtoi, itox, pl011_putc, pl011_puth, pl011_getc, pl011_geth}
use armcortex_a7os.Uart.Hex.{hex, with_input, feed}
use armcortex_a7os.Disk.{data_geth, disk_wr, disk_rd, addr_puth, data_puth}
use armcortex_a7os.Disk.Reading.{RdOutcome, served, declined, disk_rd_lem}
use armcortex_a7os.Disk.Protocol.{
  WrOutcome, accepted, refused, data_geth-Spells, hex-Spells, disk_wr_lem,
}

-- At each end of line it answers `01`, as often as its state says, and then `00`.
abbrev refuse_first : Peer ℕ
refuse_first b zero = if b == b'\n' then (b'0' ∷ b'0' ∷ b'\n' ∷ [], 0) else ([], 0)
refuse_first b (suc n) = if b == b'\n' then (b'0' ∷ b'1' ∷ b'\n' ∷ [], n) else ([], suc n)

abbrev line : ℕ → Port ℕ
line n = record { input = []; peer = n }

writes_second_time : disk_wr refuse_first 96 (7 ∷ 200 ∷ []) (line 1) ≡ some (0, line 0)
unfolding disk_wr addr_puth data_puth pl011_puth pl011_putc pl011_getc pl011_geth
writes_second_time = refl

second : WrOutcome refuse_first 96 (7 ∷ 200 ∷ []) 3 (line 1) 0 (line 0)
unfolding feed itox xtoi
second = refused 0 (b'0', b'1', b'\n', refl, refl) (accepted (b'0', b'0', b'\n', refl, refl))

disk_wr_lem_example : disk_wr refuse_first 96 (7 ∷ 200 ∷ []) (line 1) ≡ some (0, line 0)
disk_wr_lem_example = disk_wr_lem refuse_first second

reads_digits :
    data_geth 2 (with_input (hex (7 ∷ 200 ∷ []) ++ (b'\n' ∷ [])) (line 0))
    ≡ some (7 ∷ 200 ∷ [], with_input (b'\n' ∷ []) (line 0))
reads_digits =
    data_geth-Spells (hex (7 ∷ 200 ∷ [])) (7 ∷ 200 ∷ []) (b'\n' ∷ []) (line 0)
      (hex-Spells (7 ∷ 200 ∷ []) (omega arith))

-- The same, with the bytes 7 and 200 as the block that it serves.
abbrev serve_second : Peer ℕ
serve_second b zero =
    if b == b'\n' then (b'0' ∷ b'0' ∷ b' ' ∷ (hex (7 ∷ 200 ∷ []) ++ (b'\n' ∷ [])), 0) else ([], 0)
serve_second b (suc n) = if b == b'\n' then (b'0' ∷ b'1' ∷ b'\n' ∷ [], n) else ([], suc n)

served_second :
    RdOutcome serve_second 96 (0 ∷ 0 ∷ []) (7 ∷ 200 ∷ []) 3 (line 1) (0, 7 ∷ 200 ∷ []) (line 0)
unfolding feed itox xtoi
served_second =
    declined 0 (b'0', b'1', b'\n', refl, refl)
      (served b'0' b'0' b' ' b'\n' (hex (7 ∷ 200 ∷ [])) refl
        (hex-Spells (7 ∷ 200 ∷ []) (omega arith)) refl)

disk_rd_lem_example :
    disk_rd serve_second 96 2 (0 ∷ 0 ∷ []) (line 1) ≡ some ((0, 7 ∷ 200 ∷ []), line 0)
disk_rd_lem_example =
    disk_rd_lem serve_second 96 (0 ∷ 0 ∷ []) (7 ∷ 200 ∷ []) (0, 7 ∷ 200 ∷ []) (line 1) (line 0)
      served_second
