-- ===== src/Fwd/Command/Packets.antt =====
-- What a round of phHbci_PutCommand writes to the device.
use device_xiaomi_odin.Prelude.{
  ℕ, ◌+◌, ◌/◌, ◌%◌, ◌≤◌, ◌≡◌, refl, subst, Bool, true, false, List, [], ◌∷◌, ◌++◌, not, ◌||◌, ◌==◌,
  if◌then◌else◌, Bytes, length, take,
}
use device_xiaomi_odin.Fwd.Apdu.{
  Chip, Link, ok, max_len_data_mosi, seg_flag, header, calc_lrc, put_apdu, put_header, get_header,
  miso_cls, miso_ins,
}
use device_xiaomi_odin.Fwd.Apdu.Log.{
  writes, Writes, bind-Writes, ok-Writes, IsMosi, put_apdu-Writes, get_header-Writes, test-Writes,
}
use device_xiaomi_odin.Fwd.Command.{
  ack_cls, ack_ins, check_ack, payload_size, get_ack, put_data, put_segment,
}

-- A header with a length, and the data behind it with their LRC.
abbrev pub header_of : ℕ → ℕ → ℕ → Bytes
header_of c i n = c ∷ i ∷ n % 256 ∷ n / 256 % 256 ∷ []

abbrev pub framed : ℕ → ℕ → ℕ → Bytes → List Bytes
framed c i n block = header_of c i n ∷ (block ++ calc_lrc (header_of c i n ++ block) ∷ []) ∷ []

-- The segments of an image that is cut into blocks: the flag says that there are more, and the
-- length of the last one counts its LRC.
abbrev pub packets : ℕ → ℕ → List Bytes → List Bytes
packets c i [] = []
packets c i (b ∷ []) = framed c i (length b + 1) b
packets c i (b ∷ b' ∷ bs) = framed c i seg_flag b ++ packets c i (b' ∷ bs)

-- All blocks but the last one are full, and none is empty.
abbrev pub AreBlocks : List Bytes → Type 0
AreBlocks [] = ⊥
AreBlocks (b ∷ []) = (1 ≤ length b) × (length b ≤ max_len_data_mosi)
AreBlocks (b ∷ b' ∷ bs) = (length b ≡ max_len_data_mosi) × AreBlocks (b' ∷ bs)

abbrev pub concat : List Bytes → Bytes
concat [] = []
concat (b ∷ bs) = b ++ concat bs

check_ack-Writes : (P : Link → Type 0) (s : Link) → P s → Writes (writes s.log) [] P (check_ack s)
unfolding check_ack
check_ack-Writes P s h =
    test-Writes P (not (miso_cls s == ack_cls) || not (miso_ins s == ack_ins)) s h

-- The answer is read and looked at.
pub get_ack-Writes :
    (c i n : ℕ) (chip : Chip) (s : Link)
    → IsMosi c i n s
    → Writes (writes s.log) [] (IsMosi c i n) (get_ack chip s)
unfolding get_ack
get_ack-Writes c i n chip s h =
    bind-Writes (IsMosi c i n) (IsMosi c i n) (writes s.log) [] [] (get_header chip s) check_ack
      (get_header-Writes c i n chip s h) λ s' h'. check_ack-Writes (IsMosi c i n) s' h'

header-of : (c i n : ℕ) (s : Link) → IsMosi c i n s → header s ≡ header_of c i n
header-of c i n s (e, f, g) = rw (e, f, g) refl

put_data-Writes :
    (c i n : ℕ) (chip : Chip) (block : Bytes) (s : Link)
    → IsMosi c i n s
    → Writes
        (writes s.log)
        ((block ++ calc_lrc (header_of c i n ++ block) ∷ []) ∷ [])
        (IsMosi c i n)
        (put_data chip block s)
unfolding put_data
put_data-Writes c i n chip block s h =
    let p : Bytes = block ++ calc_lrc (header s ++ block) ∷ [] in
    subst
      (λ t.
        Writes (writes s.log) ((block ++ calc_lrc (t ++ block) ∷ []) ∷ []) (IsMosi c i n)
          (put_data chip block s))
      (header-of c i n s h)
      (bind-Writes (IsMosi c i n) (IsMosi c i n) (writes s.log) (p ∷ []) [] (put_apdu chip p s) _
        (put_apdu-Writes c i n chip p s h) λ s' h'. get_ack-Writes c i n chip s' h')

-- The packets of a round: a header, and the data if there are any.
abbrev pub data_packets : ℕ → ℕ → ℕ → Bool → Bytes → List Bytes
data_packets c i n true block = []
data_packets c i n false block = (block ++ calc_lrc (header_of c i n ++ block) ∷ []) ∷ []

abbrev pub round_packets : ℕ → ℕ → ℕ → Bool → Bytes → List Bytes
round_packets c i n empty block = header_of c i n ∷ data_packets c i n empty block

abbrev pub segment : ℕ → ℕ → Bytes → List Bytes
segment c i img =
    round_packets c i (payload_size img) (length img == 0) (take max_len_data_mosi img)

put_block-Writes :
    (c i n : ℕ) (chip : Chip) (empty : Bool) (block : Bytes) (s : Link)
    → IsMosi c i n s
    → Writes
        (writes s.log)
        (data_packets c i n empty block)
        (IsMosi c i n)
        (if empty then ok s else put_data chip block s)
put_block-Writes c i n chip true block s h = ok-Writes (IsMosi c i n) s h
put_block-Writes c i n chip false block s h = put_data-Writes c i n chip block s h

abbrev pub IsCommand : ℕ → ℕ → Link → Type 0
IsCommand c i s = (s.mosi_cls ≡ c) × (s.mosi_ins ≡ i)

pub put_header-Writes :
    (c i n : ℕ) (chip : Chip) (s : Link)
    → IsMosi c i n s
    → Writes (writes s.log) (header_of c i n ∷ []) (IsMosi c i n) (put_header chip s)
unfolding put_header
put_header-Writes c i n chip s h =
    subst (λ t. Writes (writes s.log) (t ∷ []) (IsMosi c i n) (put_header chip s))
      (header-of c i n s h) (put_apdu-Writes c i n chip (header s) s h)

pub put_segment-Writes :
    (c i : ℕ) (chip : Chip) (img : Bytes) (s : Link)
    → IsCommand c i s
    → Writes
        (writes s.log)
        (segment c i img)
        (IsMosi c i (payload_size img))
        (put_segment chip img s)
unfolding put_segment
put_segment-Writes c i chip img s (e, f) =
    let n : ℕ = payload_size img in
    let s₀ : Link = record s { mosi_len = n } in
    bind-Writes (IsMosi c i n) (IsMosi c i n) (writes s.log) (header_of c i n ∷ [])
      (data_packets c i n (length img == 0) (take max_len_data_mosi img)) (put_header chip s₀) _
      (put_header-Writes c i n chip s₀ (e, f, refl))
      λ s₁ h₁.
        bind-Writes (IsMosi c i n) (IsMosi c i n) (writes s₁.log) []
          (data_packets c i n (length img == 0) (take max_len_data_mosi img)) (get_ack chip s₁) _
          (get_ack-Writes c i n chip s₁ h₁)
          λ s₂ h₂. put_block-Writes c i n chip (length img == 0) (take max_len_data_mosi img) s₂ h₂
