-- ===== src/Disk/Server/Tests.antt =====
-- The driver and the server at concrete disks.
use armcortex_a7os.Base.{
  ◌≡◌, refl, [], ◌∷◌, ◌++◌, inl, some, none, ◌==◌, if◌then◌else◌, arith, minus_one, true,
}
use armcortex_a7os.Uart.{pl011_putc, pl011_puth, pl011_getc, pl011_geth}
use armcortex_a7os.Disk.{
  disk_wr, disk_rd, data_geth, addr_puth, disk_get_block_num, disk_get_block_len,
}
use armcortex_a7os.Uart.Hex.{hex, feed}
use armcortex_a7os.Disk.Protocol.{wr_request}
use armcortex_a7os.Disk.Server.{Server, serve, read_bytes, is_space}
use armcortex_a7os.Disk.Server.Geometry.{
  ended, disk_geometry, disk_geometry_raises, disk_wr-negative,
}
use armcortex_a7os.Disk.Server.Stores.{ready, block, IsWhole, disk_wr-disk_rd, disk_wr-refused}

-- Two blocks of two bytes.
abbrev small : Server
small = record { block_num = 2; block_len = 2; image = λ i. 7; size = 4; line = []; alive = true }

small-IsWhole : IsWhole small
unfolding read_bytes
small-IsWhole = record { full = omega arith; bytes = λ a l. omega arith }

disk_wr-disk_rd_example :
    (t : Server) × (disk_wr serve 1 (200 ∷ 9 ∷ []) (ready small) ≡ some (0, ready t))
    × IsWhole t
    × (disk_rd serve 0 2 (0 ∷ 0 ∷ []) (ready t)
        ≡ some ((0, if 1 == 0 then 200 ∷ 9 ∷ [] else block 0 small), ready t))
disk_wr-disk_rd_example =
    disk_wr-disk_rd 1 0 200 (9 ∷ []) (0 ∷ 0 ∷ []) small small-IsWhole
      (record { below = omega arith; positive = omega arith })
      (record { below = omega arith; positive = omega arith }) refl (omega arith)

disk_wr-refused_example :
    disk_wr serve 2 (200 ∷ 9 ∷ []) (ready small) ≡ some (minus_one, ready small)
disk_wr-refused_example =
    disk_wr-refused 2 200 (9 ∷ []) small (omega arith) (omega arith) (omega arith)

disk_wr-negative_example :
    (feed serve (wr_request serve 4294967295 (200 ∷ 9 ∷ []) ++ (b'0' ∷ b'\n' ∷ [])) (ready small)
      ≡ ended small)
    × (disk_wr serve 4294967295 (200 ∷ 9 ∷ []) (ready small) ≡ none)
disk_wr-negative_example =
    disk_wr-negative 4294967295 200 (9 ∷ []) (b'0' ∷ b'\n' ∷ []) small (omega arith) (omega arith)
      refl (omega arith)

disk_geometry_example :
    (disk_get_block_num serve (ready small) ≡ some (2, ready small))
    × (disk_get_block_len serve (ready small) ≡ some (2, ready small))
disk_geometry_example = disk_geometry small (omega arith) (omega arith)

-- A disk that is too large for a signed number of blocks.
abbrev large : Server
large = record small { block_num = 2147483648 }

disk_geometry_raises_example :
    (feed serve ((hex (0x00 ∷ []) ++ (b'\n' ∷ [])) ++ (b'0' ∷ [])) (ready large) ≡ ended large)
    × (disk_get_block_num serve (ready large) ≡ none)
    × (disk_get_block_len serve (ready large) ≡ none)
disk_geometry_raises_example = disk_geometry_raises large (b'0' ∷ []) (inl (omega arith))

runs : disk_rd serve 1 2 (0 ∷ 0 ∷ []) (ready small) ≡ some ((0, 7 ∷ 7 ∷ []), ready small)
unfolding disk_rd addr_puth pl011_puth pl011_putc pl011_getc pl011_geth serve is_space read_bytes
    data_geth
runs = refl
