-- ===== src/Fs/StoreBytes.antt =====
-- What kernel/mem.c writes to the disk are bytes.
use armcortex_a7os.Base.{
  ℕ, zero, suc, ◌≡◌, ◌∙◌, ap, subst, List, [], ◌∷◌, ◌++◌, length, take, drop, le32, arith,
}
use armcortex_a7os.Fs.{Data, data_bytes, data_of}
use armcortex_a7os.Fs.Longer.{longer}
use armcortex_a7os.Disk.Protocol.{AllBytes}

AllBytes-append : (xs ys : List ℕ) → AllBytes xs → AllBytes ys → AllBytes (xs ++ ys)
AllBytes-append [] ys h k = k
AllBytes-append (x ∷ xs) ys h k = (h.0, AllBytes-append xs ys h.1 k)

AllBytes-split : (xs ys : List ℕ) → AllBytes (xs ++ ys) → AllBytes xs × AllBytes ys
AllBytes-split [] ys h = (tt, h)
AllBytes-split (x ∷ xs) ys h = let (a, b) = AllBytes-split xs ys h.1 in ((h.0, a), b)

AllBytes-take : (n : ℕ) (xs : List ℕ) → AllBytes xs → AllBytes (take n xs)
AllBytes-take zero xs h = tt
AllBytes-take (suc n) [] h = tt
AllBytes-take (suc n) (x ∷ xs) h = (h.0, AllBytes-take n xs h.1)

AllBytes-drop : (n : ℕ) (xs : List ℕ) → AllBytes xs → AllBytes (drop n xs)
AllBytes-drop zero xs h = h
AllBytes-drop (suc n) [] h = tt
AllBytes-drop (suc n) (x ∷ xs) h = AllBytes-drop n xs h.1

le32-AllBytes : (w : ℕ) → AllBytes (le32 w)
le32-AllBytes w = (omega arith, (omega arith, (omega arith, (omega arith, tt))))

content-AllBytes : (bs : List ℕ) → AllBytes bs → AllBytes ((data_of bs).content)
unfolding data_of
content-AllBytes bs h = AllBytes-take 24 bs h

-- A block that was read from bytes, with bytes appended to its text.
pub longer-AllBytes :
    (bs : List ℕ) (d : Data) (t xs pad : List ℕ)
    → AllBytes bs
    → data_of bs ≡ d
    → d.content ≡ t ++ (0 ∷ pad)
    → AllBytes xs
    → AllBytes (data_bytes (longer d t xs pad))
unfolding data_bytes
longer-AllBytes bs d t xs pad h e c k =
    let (old, (z, rest)) =
      AllBytes-split t (0 ∷ pad)
        (subst AllBytes (ap (λ (b : Data). b.content) e ∙ c) (content-AllBytes bs h)) in
    AllBytes-append ((t ++ xs) ++ (0 ∷ drop (length xs) pad))
      (le32 d.full ++ le32 d.next_data_block)
      (AllBytes-append (t ++ xs) (0 ∷ drop (length xs) pad) (AllBytes-append t xs old k)
        (z, AllBytes-drop (length xs) pad rest))
      (AllBytes-append (le32 d.full) (le32 d.next_data_block) (le32-AllBytes d.full)
        (le32-AllBytes d.next_data_block))
