-- ===== src/Fwd/Master/Served.antt =====
-- The download to a boot ROM that answers as the protocol says.
use mathlib.Core.List.{append-nil}
use device_xiaomi_odin.Prelude.{
  ℕ, suc, ◌+◌, take, ◌<◌, ◌≤◌, ◌≡◌, refl, ap, ◌∙◌, Bool, true, false, some, List, [], ◌∷◌, ◌++◌,
  arith, ltb, ◌==◌, if◌then◌else◌, ==-refl, Bytes, length, length-append,
}
use device_xiaomi_odin.Fwd.Apdu.{
  max_len_data_mosi, calc_lrc, Call, wrote, asked, Chip, Link, Run, ok, stop, out_of_fuel, ◌>>=◌,
  miso_cls, miso_ins, put_apdu, put_header, get_header, header,
}
use device_xiaomi_odin.Uci.Packet.{byte}
use device_xiaomi_odin.Fwd.Apdu.Log.{writes, writes-append, get_header-some}
use device_xiaomi_odin.Fwd.Command.{payload_size, check_ack, get_ack, put_data, put_segment}
use device_xiaomi_odin.Fwd.Command.Blocks.{nonempty}
use device_xiaomi_odin.Fwd.Master.{Mode, command_of, class_of, is_ready, is_general, image_status}

-- The answers to the messages of a download with `m` packets of the image, in their order: ready, the
-- mode acknowledged, the mode ready, each packet acknowledged, and the image complete.
abbrev pub reply : Mode → ℕ → ℕ → Bytes
reply mode m k =
    if k == 0
    then 0x02 ∷ 0x21 ∷ 0 ∷ 0 ∷ []
    else if k == 1
    then 0x04 ∷ 0x01 ∷ 0 ∷ 0 ∷ []
    else if k == 2
    then 0x02 ∷ command_of mode ∷ 0 ∷ 0 ∷ []
    else if ltb k (m + 3)
    then 0x04 ∷ 0x01 ∷ 0 ∷ 0 ∷ []
    else (class_of mode + 2) ∷ 0x01 ∷ 0 ∷ 0 ∷ []

-- The device takes what is written, and behind message `k`, counted from `at` on, a read of a header
-- gives the answer to it.
pub record IsBootRom (mode : Mode) (m at : ℕ) (chip : Chip) : Type 0 where
  pub takes : (l : List Call) (p : Bytes) → chip.accepts l p ≡ true
  pub replies :
      (l : List Call) (k : ℕ)
      → length (writes l) ≡ at + suc k
      → chip.answers l 4 ≡ some (reply mode m k)

-- The call succeeds with a state of the property.
unfoldable pub Succeeds : (Link → Type 0) → Run → Type 0
Succeeds P (ok s) = P s
Succeeds P (stop n s) = ⊥
Succeeds P out_of_fuel = ⊥

pub bind-Succeeds :
    (P Q : Link → Type 0) (r : Run) (f : Link → Run)
    → Succeeds P r
    → ((s : Link) → P s → Succeeds Q (f s))
    → Succeeds Q (r >>= f)
unfolding Succeeds
bind-Succeeds P Q (ok s) f h k = k s h
bind-Succeeds P Q (stop n s) f h k = absurd h
bind-Succeeds P Q out_of_fuel f h k = absurd h

pub nonzero-le : (n : ℕ) → (n == 0) ≡ false → 1 ≤ n
nonzero-le n e = ground arith

-- The number of the messages that have been written.
abbrev pub HasSent : ℕ → Link → Type 0
HasSent n s = length (writes s.log) ≡ n

abbrev pub HasAnswer : ℕ → ℕ → ℕ → Link → Type 0
HasAnswer n cls ins s = (length (writes s.log) ≡ n) × (byte s.miso 0 ≡ cls) × (byte s.miso 1 ≡ ins)

pub is_ready-command :
    (mode : Mode) (s : Link)
    → miso_cls s ≡ 0x02
    → miso_ins s ≡ command_of mode
    → is_ready (command_of mode) s ≡ true
unfolding is_ready
is_ready-command Mode.patch_rom s c i = rw (c, i) refl
is_ready-command Mode.hif_image s c i = rw (c, i) refl

pub is_general-image :
    (mode : Mode) (s : Link) → miso_cls s ≡ class_of mode + 2 → is_general s ≡ false
is_general-image Mode.patch_rom s c = rw c refl
is_general-image Mode.hif_image s c = rw c refl

pub image_status-ok :
    (mode : Mode) (s : Link)
    → miso_cls s ≡ class_of mode + 2
    → miso_ins s ≡ 0x01
    → image_status mode s ≡ ok s
unfolding image_status
image_status-ok mode s c i = rw (c, i, ==-refl (class_of mode + 2)) refl

module _ (mode : Mode) (m at : ℕ) (chip : Chip) (rom : IsBootRom mode m at chip) where
  pub put_apdu-Succeeds :
      (p : Bytes) (n : ℕ) (s : Link) → HasSent n s → Succeeds (HasSent (n + 1)) (put_apdu chip p s)
  unfolding put_apdu Succeeds
  put_apdu-Succeeds p n s e =
      let l : length (writes (s.log ++ wrote p ∷ [])) ≡ length (writes s.log) + 1 =
        ap length (writes-append s.log (wrote p ∷ [])) ∙ length-append (writes s.log) (p ∷ []) in
      rw (rom.takes s.log p) (omega arith)

  pub get_header-Succeeds :
      (k cls ins : ℕ) (s : Link)
      → reply mode m k ≡ cls ∷ ins ∷ 0 ∷ 0 ∷ []
      → HasSent (at + suc k) s
      → Succeeds (HasAnswer (at + suc k) cls ins) (get_header chip s)
  unfolding Succeeds
  get_header-Succeeds k cls ins s r e =
      let a : chip.answers s.log 4 ≡ some (cls ∷ ins ∷ 0 ∷ 0 ∷ []) =
        rom.replies s.log k e ∙ ap some r in
      rw (get_header-some chip s (cls ∷ ins ∷ 0 ∷ 0 ∷ []) a)
        (ap length (writes-append s.log (asked 4 ∷ []) ∙ append-nil (writes s.log)) ∙ e, refl, refl)

  pub reply-ack : (k : ℕ) → 3 ≤ k → k < m + 3 → reply mode m k ≡ 0x04 ∷ 0x01 ∷ 0 ∷ 0 ∷ []
  reply-ack k h l =
      let a : (k == 0) ≡ false = ground arith in
      let b : (k == 1) ≡ false = ground arith in
      let c : (k == 2) ≡ false = ground arith in
      let d : ltb k (m + 3) ≡ true = ground arith in rw (a, b, c, d) refl

  pub reply-last : reply mode m (3 + m) ≡ (class_of mode + 2) ∷ 0x01 ∷ 0 ∷ 0 ∷ []
  reply-last =
      let a : ((3 + m) == 0) ≡ false = ground arith in
      let b : ((3 + m) == 1) ≡ false = ground arith in
      let c : ((3 + m) == 2) ≡ false = ground arith in
      let d : ltb (3 + m) (m + 3) ≡ false = ground arith in rw (a, b, c, d) refl

  -- A message that is acknowledged.
  pub get_ack-Succeeds :
      (k : ℕ) (s : Link)
      → reply mode m k ≡ 0x04 ∷ 0x01 ∷ 0 ∷ 0 ∷ []
      → HasSent (at + suc k) s
      → Succeeds (HasSent (at + suc k)) (get_ack chip s)
  unfolding get_ack check_ack Succeeds
  get_ack-Succeeds k s r e =
      bind-Succeeds (HasAnswer (at + suc k) 0x04 0x01) (HasSent (at + suc k)) (get_header chip s)
        check_ack (get_header-Succeeds k 0x04 0x01 s r e) λ s' (n, c, i). rw (c, i) n

  -- A packet and its acknowledgement.
  pub acked-Succeeds :
      (k : ℕ) (p : Bytes) (s : Link)
      → reply mode m k ≡ 0x04 ∷ 0x01 ∷ 0 ∷ 0 ∷ []
      → HasSent (at + k) s
      → Succeeds (HasSent (at + suc k)) (put_apdu chip p s >>= get_ack chip)
  acked-Succeeds k p s r e =
      bind-Succeeds (HasSent (at + k + 1)) (HasSent (at + suc k)) (put_apdu chip p s) (get_ack chip)
        (put_apdu-Succeeds p (at + k) s e) λ s' e'. get_ack-Succeeds k s' r (omega arith)

  pub put_block-Succeeds :
      (k : ℕ) (block : Bytes) (empty : Bool) (s : Link)
      → empty ≡ false
      → reply mode m k ≡ 0x04 ∷ 0x01 ∷ 0 ∷ 0 ∷ []
      → HasSent (at + k) s
      → Succeeds (HasSent (at + suc k)) (if empty then ok s else put_data chip block s)
  unfolding put_data
  put_block-Succeeds k block empty s e r h =
      rw e (acked-Succeeds k (block ++ calc_lrc (header s ++ block) ∷ []) s r h)

  pub put_segment-Succeeds :
      (k : ℕ) (img : Bytes) (s : Link)
      → 1 ≤ length img
      → reply mode m k ≡ 0x04 ∷ 0x01 ∷ 0 ∷ 0 ∷ []
      → reply mode m (suc k) ≡ 0x04 ∷ 0x01 ∷ 0 ∷ 0 ∷ []
      → HasSent (at + k) s
      → Succeeds (HasSent (at + suc (suc k))) (put_segment chip img s)
  unfolding put_segment put_header
  put_segment-Succeeds k img s l r r' e =
      let s₀ : Link = record s { mosi_len = payload_size img } in
      bind-Succeeds (HasSent (at + k + 1)) (HasSent (at + suc (suc k)))
        (put_apdu chip (header s₀) s₀) _ (put_apdu-Succeeds (header s₀) (at + k) s₀ e)
        λ s₁ e₁.
          bind-Succeeds (HasSent (at + suc k)) (HasSent (at + suc (suc k))) (get_ack chip s₁) _
            (get_ack-Succeeds k s₁ r (omega arith))
            λ s₂ e₂.
              put_block-Succeeds (suc k) (take max_len_data_mosi img) (length img == 0) s₂
                (nonempty img l) r' e₂
