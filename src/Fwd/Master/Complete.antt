-- ===== src/Fwd/Master/Complete.antt =====
-- The download to a boot ROM that answers as the protocol says is complete, and is done once.
use device_xiaomi_odin.Prelude.{
  ℕ, zero, suc, ◌+◌, ◌*◌, ◌/◌, ◌≤◌, ◌≡◌, refl, ap, ◌∙◌, List, [], ◌∷◌, ◌++◌, arith, Bytes, length,
  length-append,
}
use mathlib.Core.List.{append-nil}
use device_xiaomi_odin.Fwd.Apdu.{Chip, Link, Run, ok, stop, out_of_fuel}
use device_xiaomi_odin.Fwd.Apdu.Log.{writes}
use device_xiaomi_odin.Fwd.Command.Packets.{packets, AreBlocks, concat}
use device_xiaomi_odin.Fwd.Master.{Mode, class_of, master}
use device_xiaomi_odin.Fwd.Master.Rounds.{repeat, Transfers}
use device_xiaomi_odin.Fwd.Master.Transfer.{opening, image_round, master-Transfers}
use device_xiaomi_odin.Fwd.Master.Served.{IsBootRom, Succeeds}
use device_xiaomi_odin.Fwd.Master.Once.{master-Succeeds}

-- The number of the packets of an image.
abbrev pub packet_count : Bytes → ℕ
packet_count img = 2 * ((length img + 2047) / 2048)

length-packets :
    (c i : ℕ) (bs : List Bytes) → AreBlocks bs → length (packets c i bs) ≡ 2 * length bs
length-packets c i [] a = refl
length-packets c i (b ∷ []) a = refl
length-packets c i (b ∷ b' ∷ bs) a = omega (arith, length-packets c i (b' ∷ bs) a.1)

length-concat :
    (bs : List Bytes)
    → AreBlocks bs
    → (length (concat bs) ≤ 2048 * length bs) × (2048 * length bs ≤ length (concat bs) + 2047)
length-concat [] a = absurd a
length-concat (b ∷ []) a = omega (arith, length-append b [])
length-concat (b ∷ b' ∷ bs) a =
    omega (arith, length-append b (concat (b' ∷ bs)), length-concat (b' ∷ bs) a.1)

length-packets_of :
    (c i : ℕ) (bs : List Bytes) (img : Bytes)
    → AreBlocks bs
    → concat bs ≡ img
    → length (packets c i bs) ≡ packet_count img
length-packets_of c i bs img a e =
    let l : length (concat bs) ≡ length img = ap length e in
    omega (arith, length-packets c i bs a, length-concat bs a)

-- A number of rounds that are as long as one round are one.
one_round :
    (k : ℕ) (round : List Bytes)
    → 1 ≤ length round
    → length (repeat k round) ≡ length round
    → repeat k round ≡ round
one_round zero round h e = absurd (omega arith)
one_round (suc zero) round h e = append-nil round
one_round (suc (suc k)) round h e = absurd (
    omega
      (arith, length-append round (round ++ repeat k round), length-append round (repeat k round)))

-- A run that succeeds with as many packets as one round has does one round.
served_once :
    (mode : Mode) (start before round : List Bytes) (m : ℕ) (r : Run)
    → length before ≡ 3
    → length round ≡ m + 1
    → Transfers mode start before round r
    → Succeeds (λ s. length (writes s.log) ≡ length start + (4 + m)) r
    → (s : Link) × (r ≡ ok s) × (writes s.log ≡ start ++ (before ++ round))
unfolding Transfers Succeeds
served_once mode start before round m (ok s) three l (k, e, cls, ins) c =
    let rounds : List Bytes = repeat k round in
    let total : length (writes s.log) ≡ length start + (length before + length rounds) =
      ap length e
      ∙ (length-append start (before ++ rounds)
          ∙ ap (λ t. length start + t) (length-append before rounds)) in
    let one : rounds ≡ round = one_round k round (omega arith) (omega arith) in
    (s, refl, e ∙ ap (λ t. start ++ (before ++ t)) one)
served_once mode start before round m (stop n s) three l t c = absurd c
served_once mode start before round m out_of_fuel three l t c = absurd c

-- A boot ROM that takes what it is sent, and answers that it is ready, acknowledges the mode, is ready
-- in the mode, acknowledges the two packets of each block, and has the image, gets the opening, the
-- blocks of the image once and the query for its status, and the download succeeds; two rounds of the
-- loop are enough.
pub master-served :
    (mode : Mode) (chip : Chip) (img : Bytes) (n : ℕ) (s : Link)
    → 1 ≤ length img
    → IsBootRom mode (packet_count img) (length (writes s.log)) chip
    → (bs : List Bytes) × (s' : Link) × (concat bs ≡ img)
      × AreBlocks bs
      × (master (suc (suc n)) chip mode img s ≡ ok s')
      × (writes s'.log ≡ writes s.log ++ (opening mode ++ image_round mode bs))
master-served mode chip img n s l rom =
    let (bs, whole, are, all) = master-Transfers mode chip img l in
    let (s', e, sent) =
      served_once mode (writes s.log) (opening mode) (image_round mode bs) (packet_count img)
        (master (suc (suc n)) chip mode img s) refl
        (length-append (packets (class_of mode + 3) 0x01 bs) _
          ∙ ap (λ t. t + 1) (length-packets_of (class_of mode + 3) 0x01 bs img are whole))
        (all (suc (suc n)) s)
        (master-Succeeds mode (packet_count img) (length (writes s.log)) chip rom n img s l refl
          refl) in
    (bs, s', whole, are, e, sent)
