-- ===== src/Fwd/Command/Blocks.antt =====
-- What phHbci_PutCommand writes to the device: the blocks of the image.
use mathlib.Core.List.{append-nil}
use device_xiaomi_odin.Prelude.{
  ℕ, zero, suc, ◌+◌, ◌-◌, ◌*◌, ◌/◌, ◌≤◌, ◌<◌, ◌≡◌, refl, sym, ap, subst, ◌∙◌, inl, inr, Bool, true,
  false, List, [], ◌∷◌, ◌++◌, arith, leb, leb→le, leb→lt, ◌==◌, Bool-cases, Bytes, length, take,
  drop, take-drop,
}
use device_xiaomi_odin.Fwd.Apdu.{Chip, Link, max_len_data_mosi, seg_flag}
use device_xiaomi_odin.Fwd.Apdu.Log.{writes, Writes, bind-Writes, ok-Writes, IsMosi}
use device_xiaomi_odin.Fwd.Command.{payload_size, put_segment, put_segments, put_command}
use device_xiaomi_odin.Fwd.Command.Packets.{
  header_of, framed, packets, AreBlocks, concat, round_packets, segment, IsCommand,
  put_segment-Writes,
}

-- More blocks behind one that is full.
packets-more :
    (c i : ℕ) (b : Bytes) (bs : List Bytes)
    → AreBlocks bs
    → packets c i (b ∷ bs) ≡ framed c i seg_flag b ++ packets c i bs
packets-more c i b [] h = absurd h
packets-more c i b (b' ∷ bs) h = refl

AreBlocks-more :
    (b : Bytes) (bs : List Bytes) → length b ≡ max_len_data_mosi → AreBlocks bs → AreBlocks (b ∷ bs)
AreBlocks-more b [] e h = absurd h
AreBlocks-more b (b' ∷ bs) e h = (e, h)

pub length-take-of_le : (n : ℕ) (xs : Bytes) → n ≤ length xs → length (take n xs) ≡ n
length-take-of_le zero xs h = refl
length-take-of_le (suc n) [] h = omega arith
length-take-of_le (suc n) (x ∷ xs) h = ap suc (length-take-of_le n xs (omega arith))

pub length-drop : (n : ℕ) (xs : Bytes) → length (drop n xs) ≡ length xs - n
length-drop zero xs = omega arith
length-drop (suc n) [] = omega arith
length-drop (suc n) (x ∷ xs) = omega (arith, length-drop n xs)

pub take-all : (n : ℕ) (xs : Bytes) → length xs ≤ n → take n xs ≡ xs
take-all zero [] h = refl
take-all zero (x ∷ xs) h = absurd (omega arith)
take-all (suc n) [] h = refl
take-all (suc n) (x ∷ xs) h = ap (◌∷◌ x) (take-all n xs (omega arith))

round_packets-eq :
    (c i m n : ℕ) (empty : Bool) (block block' : Bytes)
    → m ≡ n
    → empty ≡ false
    → block ≡ block'
    → round_packets c i m empty block ≡ framed c i n block'
round_packets-eq c i m n empty block block' e f g =
    ap (λ t. round_packets c i t empty block) e
    ∙ ap (λ t. round_packets c i n t block) f
    ∙ ap (λ t. round_packets c i n false t) g

payload_size-last :
    (img : Bytes)
    → 1 ≤ length img
    → length img ≤ max_len_data_mosi
    → payload_size img ≡ length img + 1
payload_size-last img h k = ground arith

payload_size-more : (img : Bytes) → max_len_data_mosi < length img → payload_size img ≡ seg_flag
payload_size-more img h = ground arith

pub nonempty : (img : Bytes) → 1 ≤ length img → (length img == 0) ≡ false
nonempty img h = ground arith

segment-last :
    (c i : ℕ) (img : Bytes)
    → 1 ≤ length img
    → length img ≤ max_len_data_mosi
    → segment c i img ≡ framed c i (length img + 1) img
segment-last c i img h k =
    round_packets-eq c i (payload_size img) (length img + 1) (length img == 0)
      (take max_len_data_mosi img) img (payload_size-last img h k) (nonempty img h)
      (take-all max_len_data_mosi img k)

segment-more :
    (c i : ℕ) (img : Bytes)
    → max_len_data_mosi < length img
    → segment c i img ≡ framed c i seg_flag (take max_len_data_mosi img)
segment-more c i img h =
    let block : Bytes = take max_len_data_mosi img in
    round_packets-eq c i (payload_size img) seg_flag (length img == 0) block block
      (payload_size-more img h) (nonempty img (omega arith)) refl

-- The image is cut into blocks, and the loop writes their packets, unless it fails on its way.
Sends : ℕ → ℕ → ℕ → Chip → Bytes → Type 0
Sends c i n chip img =
    (bs : List Bytes) × (concat bs ≡ img)
    × AreBlocks bs
    × ((s : Link)
        → IsCommand c i s
        → Writes (writes s.log) (packets c i bs) (IsCommand c i) (put_segments n chip img s))

last-Sends :
    (c i n : ℕ) (chip : Chip) (img : Bytes)
    → 1 ≤ length img
    → length img ≤ max_len_data_mosi
    → Sends c i (suc n) chip img
unfolding put_segments Sends
last-Sends c i n chip img l k =
    let rest : Bytes = drop max_len_data_mosi img in
    let done : (length rest == 0) ≡ true = ground (arith, length-drop max_len_data_mosi img) in
    (
      img ∷ [],
      append-nil img,
      (l, k),
      λ s h.
          subst (λ ps. Writes (writes s.log) ps (IsCommand c i) (put_segments (suc n) chip img s))
            (append-nil (segment c i img) ∙ segment-last c i img l k)
            (bind-Writes (IsMosi c i (payload_size img)) (IsCommand c i) (writes s.log)
              (segment c i img) [] (put_segment chip img s) _ (put_segment-Writes c i chip img s h)
              λ s' h'. rw done (ok-Writes (IsCommand c i) s' (h'.0, h'.1))),
    )

more-Sends :
    (c i n : ℕ) (chip : Chip) (img : Bytes)
    → max_len_data_mosi < length img
    → Sends c i n chip (drop max_len_data_mosi img)
    → Sends c i (suc n) chip img
unfolding put_segments Sends
more-Sends c i n chip img l (bs, whole, are, all) =
    let block : Bytes = take max_len_data_mosi img in
    let rest : Bytes = drop max_len_data_mosi img in
    let d : length rest ≡ length img - max_len_data_mosi = length-drop max_len_data_mosi img in
    let more : (length rest == 0) ≡ false = nonempty rest (omega arith) in
    let full : length block ≡ max_len_data_mosi =
      length-take-of_le max_len_data_mosi img (omega arith) in
    (
      block ∷ bs,
      ap (λ t. block ++ t) whole ∙ take-drop max_len_data_mosi img,
      AreBlocks-more block bs full are,
      λ s h.
          subst (λ ps. Writes (writes s.log) ps (IsCommand c i) (put_segments (suc n) chip img s))
            (ap (λ t. t ++ packets c i bs) (segment-more c i img l)
              ∙ sym (packets-more c i block bs are))
            (bind-Writes (IsMosi c i (payload_size img)) (IsCommand c i) (writes s.log)
              (segment c i img) (packets c i bs) (put_segment chip img s) _
              (put_segment-Writes c i chip img s h) λ s' h'. rw more (all s' (h'.0, h'.1))),
    )

put_segments-Sends :
    (c i n : ℕ) (chip : Chip) (img : Bytes)
    → 1 ≤ length img
    → length img ≤ max_len_data_mosi * n
    → Sends c i n chip img
put_segments-Sends c i zero chip img h k = absurd (omega arith)
put_segments-Sends c i (suc n) chip img h k =
    elim (Bool-cases (leb (length img) max_len_data_mosi)) [
      | inl e ↦ last-Sends c i n chip img h (leb→le (length img) max_len_data_mosi e)
      | inr e ↦
          let l : max_len_data_mosi < length img = leb→lt (length img) max_len_data_mosi e in
          let d : length (drop max_len_data_mosi img) ≡ length img - max_len_data_mosi =
            length-drop max_len_data_mosi img in
          more-Sends c i n chip img l
            (put_segments-Sends c i n chip (drop max_len_data_mosi img) (omega arith) (omega arith))
    ]

-- Whatever the device does: an image that is not empty is cut into blocks of 2048 bytes, of which
-- only the last one may be shorter, and phHbci_PutCommand writes for each block the header, whose
-- length is the flag, or for the last block the number of its bytes and of the LRC, and the block
-- with the LRC over both. It writes all of this if it succeeds, and a part from the beginning if it
-- fails; it always returns.
pub put_command-packets :
    (c i : ℕ) (chip : Chip) (img : Bytes)
    → 1 ≤ length img
    → (bs : List Bytes) × (concat bs ≡ img)
      × AreBlocks bs
      × ((s : Link)
          → IsCommand c i s
          → Writes (writes s.log) (packets c i bs) (IsCommand c i) (put_command chip img s))
unfolding put_command Sends
put_command-packets c i chip img h =
    put_segments-Sends c i (length img / max_len_data_mosi + 1) chip img h (omega arith)

-- A command without data is its header.
pub put_command-empty :
    (c i : ℕ) (chip : Chip) (s : Link)
    → IsCommand c i s
    → Writes (writes s.log) (header_of c i 0 ∷ []) (IsCommand c i) (put_command chip [] s)
unfolding put_command put_segments
put_command-empty c i chip s h =
    bind-Writes (IsMosi c i 0) (IsCommand c i) (writes s.log) (header_of c i 0 ∷ []) []
      (put_segment chip [] s) _ (put_segment-Writes c i chip [] s h)
      λ s' h'. ok-Writes (IsCommand c i) s' (h'.0, h'.1)
