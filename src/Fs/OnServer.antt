-- ===== src/Fs/OnServer.antt =====
-- The disk that kernel/mem.c has: the driver of device/disk.c on a line to the server of
-- device/disk.py.
mod Tests
use armcortex_a7os.Base.{
  ℕ, ◌+◌, ◌*◌, ◌^◌, ◌<◌, ◌≤◌, ◌≡◌, refl, sym, ◌∙◌, ap, List, [], ◌∷◌, some, length, ◌==◌,
  if◌then◌else◌, arith,
}
use armcortex_a7os.Uart.{Port}
use armcortex_a7os.Disk.{disk_wr, disk_rd}
use armcortex_a7os.Disk.Protocol.{AllBytes}
use armcortex_a7os.Disk.Server.{Server, serve}
use armcortex_a7os.Disk.Server.Image.{block_below}
use armcortex_a7os.Disk.Server.Stores.{
  ready, block, store, InDisk, IsWhole, disk_wr-store, disk_rd-block, block-store, store-IsWhole,
}
use armcortex_a7os.Fs.{Blocks, block_size}
use armcortex_a7os.Fs.Store.{Store}

abbrev pub driver : Blocks (Port Server)
driver = record { wr = disk_wr serve; rd = disk_rd serve }

-- The line is ready, and the image holds `n` blocks of the size that kernel/mem.h has.
pub record Attached (n : ℕ) (p : Port Server) : Type 0 where
  pub idle : ready p.peer ≡ p
  pub whole : IsWhole p.peer
  pub size : p.peer.block_len ≡ block_size
  pub number : p.peer.block_num ≡ n

module _ (n : ℕ) (small : n ≤ 2 ^ 31) where
  pub in_disk : (a : ℕ) (p : Port Server) → Attached n p → a < n → InDisk a p.peer
  in_disk a p h l = record {
    below = omega (arith, h.number, l);
    positive = omega (arith, small, l);
  }

  pub served :
      (a : ℕ) (x : List ℕ) (p : Port Server)
      → Attached n p
      → a < n
      → disk_rd serve a block_size x p ≡ some ((0, block a p.peer), p)
  served a x p h l =
      ap (disk_rd serve a block_size x) (sym h.idle)
      ∙ disk_rd-block a block_size x p.peer (in_disk a p h l)
          (omega (
            arith,
            h.whole.full,
            block_below a p.peer.block_num p.peer.block_len (omega (arith, h.number, l)),
          ))
          (sym h.size) (h.whole.bytes a (omega (arith, h.number, l)))
      ∙ ap (λ (q : Port Server). some ((0, block a p.peer), q)) h.idle

  pub stored :
      (a : ℕ) (x : List ℕ) (p : Port Server)
      → Attached n p
      → a < n
      → length x ≡ block_size
      → AllBytes x
      → (q : Port Server) × (disk_wr serve a x p ≡ some (0, q))
        × Attached n q
        × ((c : ℕ) → c < n → block c q.peer ≡ (if a == c then x else block c p.peer))
  stored a [] p h l e k = absurd (omega (arith, e))
  stored a (b ∷ bs) p h l e k =
      let fit : length (b ∷ bs) ≡ p.peer.block_len = e ∙ sym h.size in
      let kept = store-IsWhole a (b ∷ bs) p.peer fit k h.whole in
      (
        ready (store a (b ∷ bs) p.peer),
        ap (disk_wr serve a (b ∷ bs)) (sym h.idle)
            ∙ disk_wr-store a b bs p.peer (in_disk a p h l) fit k,
        record {
          idle = refl;
          whole = record { full = kept.full; bytes = kept.bytes };
          size = h.size;
          number = h.number;
        },
        λ c m. block-store a c (b ∷ bs) p.peer fit,
      )

  -- It is an array of `n` blocks.
  abbrev pub server_store : Store driver
  server_store = record {
    Up = Attached n;
    at = λ a p. block a p.peer;
    limit = n;
    small = small;
    bytes = λ a p h l. h.whole.bytes a (omega (arith, h.number, l));
    read = served;
    write = stored;
  }
