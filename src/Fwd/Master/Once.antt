-- ===== src/Fwd/Master/Once.antt =====
-- The download to a boot ROM that answers as the protocol says succeeds.
use device_xiaomi_odin.Prelude.{
  ℕ, zero, suc, ◌+◌, ◌-◌, ◌*◌, ◌/◌, drop, ◌≤◌, ◌≡◌, refl, sym, subst, true, [], ◌∷◌, arith, ◌==◌,
  if-both, ==→≡, Bytes, length,
}
use device_xiaomi_odin.Fwd.Apdu.{
  max_len_data_mosi, Chip, Link, ok, miso_cls, miso_ins, put_apdu, put_header, get_status, header,
}
use device_xiaomi_odin.Fwd.Command.{get_ack, put_segment, put_segments, put_command}
use device_xiaomi_odin.Fwd.Command.Blocks.{length-drop}
use device_xiaomi_odin.Fwd.Master.{
  Mode, command_of, class_of, is_ready, general_status, status_query, is_general, send_image,
  image_status, transfer, master,
}
use device_xiaomi_odin.Fwd.Master.Served.{
  reply, IsBootRom, Succeeds, bind-Succeeds, nonzero-le, is_ready-command, is_general-image,
  image_status-ok, HasSent, HasAnswer, put_apdu-Succeeds, get_header-Succeeds, reply-ack,
  reply-last, get_ack-Succeeds, put_segment-Succeeds,
}

module _ (mode : Mode) (m at : ℕ) (chip : Chip) (rom : IsBootRom mode m at chip) where
  -- The number of the packets of an image.
  put_segments-Succeeds :
      (n k : ℕ) (img : Bytes) (s : Link)
      → 1 ≤ length img
      → length img ≤ max_len_data_mosi * n
      → 3 ≤ k
      → k + 2 * ((length img + 2047) / 2048) ≤ m + 3
      → HasSent (at + k) s
      → Succeeds (HasSent (at + (k + 2 * ((length img + 2047) / 2048)))) (put_segments n chip img s)
  unfolding put_segments Succeeds
  put_segments-Succeeds zero k img s l f h b e = absurd (omega arith)
  put_segments-Succeeds (suc n) k img s l f h b e =
      let rest : Bytes = drop max_len_data_mosi img in
      let d : length rest ≡ length img - max_len_data_mosi = length-drop max_len_data_mosi img in
      let end : ℕ = at + (k + 2 * ((length img + 2047) / 2048)) in
      bind-Succeeds (HasSent (at + suc (suc k))) (HasSent end) (put_segment chip img s) _
        (put_segment-Succeeds mode m at chip rom k img s l
          (reply-ack mode m at chip rom k h (omega arith))
          (reply-ack mode m at chip rom (suc k) (omega arith) (omega arith)) e)
        λ s' e'.
          if-both (Succeeds (HasSent end)) (length rest == 0) (ok s') (put_segments n chip rest s')
            (λ z.
              let z' : length rest ≡ 0 = ==→≡ (length rest) 0 z in
              let q : length img ≤ max_len_data_mosi = omega arith in omega arith)
            λ z.
              let more : 1 ≤ length rest = nonzero-le (length rest) z in
              let count : suc (suc k) + 2 * ((length rest + 2047) / 2048)
                  ≡ k + 2 * ((length img + 2047) / 2048) =
                omega arith in
              subst (λ t. Succeeds (HasSent (at + t)) (put_segments n chip rest s')) count
                (put_segments-Succeeds n (suc (suc k)) rest s' more (omega arith) (omega arith)
                  (omega arith) e')

  get_status-Succeeds :
      (k cls ins : ℕ) (s : Link)
      → reply mode m k ≡ cls ∷ ins ∷ 0 ∷ 0 ∷ []
      → HasSent (at + k) s
      → Succeeds (HasAnswer (at + suc k) cls ins) (get_status chip s)
  unfolding get_status put_header
  get_status-Succeeds k cls ins s r e =
      let s₀ : Link = record s { mosi_len = 0 } in
      bind-Succeeds (HasSent (at + k + 1)) (HasAnswer (at + suc k) cls ins)
        (put_apdu chip (header s₀) s₀) _
        (put_apdu-Succeeds mode m at chip rom (header s₀) (at + k) s₀ e)
        λ s₁ e₁. get_header-Succeeds mode m at chip rom k cls ins s₁ r (omega arith)

  -- A command without data.
  put_command-Succeeds :
      (k : ℕ) (s : Link)
      → reply mode m k ≡ 0x04 ∷ 0x01 ∷ 0 ∷ 0 ∷ []
      → HasSent (at + k) s
      → Succeeds (HasSent (at + suc k)) (put_command chip [] s)
  unfolding put_command put_segments put_segment put_header Succeeds
  put_command-Succeeds k s r e =
      let s₀ : Link = record s { mosi_len = 0 } in
      bind-Succeeds (HasSent (at + suc k)) (HasSent (at + suc k)) (put_segment chip [] s) _
        (bind-Succeeds (HasSent (at + k + 1)) (HasSent (at + suc k)) (put_apdu chip (header s₀) s₀)
          _ (put_apdu-Succeeds mode m at chip rom (header s₀) (at + k) s₀ e)
          λ s₁ e₁.
            bind-Succeeds (HasSent (at + suc k)) (HasSent (at + suc k)) (get_ack chip s₁) _
              (get_ack-Succeeds mode m at chip rom k s₁ r (omega arith)) λ s₂ e₂. e₂)
        λ s' e'. e'

  -- The image is complete.
  finish-Succeeds :
      (n : ℕ) (img : Bytes) (s : Link)
      → HasSent (at + (3 + m)) s
      → Succeeds (HasSent (at + (4 + m))) (transfer (suc n) chip mode img s)
  unfolding transfer image_status Succeeds
  finish-Succeeds n img s e =
      bind-Succeeds (HasAnswer (at + suc (3 + m)) (class_of mode + 2) 0x01) (HasSent (at + (4 + m)))
        (get_status chip s) _
        (get_status-Succeeds (3 + m) (class_of mode + 2) 0x01 s (reply-last mode m at chip rom) e)
        λ s₁ (l, c, i). rw (is_general-image mode s₁ c, image_status-ok mode s₁ c i) (omega arith)

  send_image-Succeeds :
      (img : Bytes) (s : Link)
      → 1 ≤ length img
      → m ≡ 2 * ((length img + 2047) / 2048)
      → miso_cls s ≡ 0x02
      → miso_ins s ≡ command_of mode
      → HasSent (at + 3) s
      → Succeeds (HasSent (at + (3 + m))) (send_image chip mode img s)
  unfolding send_image general_status put_command Succeeds
  send_image-Succeeds img s l e c i h =
      let n : ℕ = length img / max_len_data_mosi + 1 in
      let s' : Link = record s { mosi_cls = class_of mode + 3; mosi_ins = 0x01 } in
      rw (is_ready-command mode s c i) (
        bind-Succeeds (HasSent (at + (3 + m))) (HasSent (at + (3 + m))) (put_segments n chip img s')
          _
          (subst (λ t. Succeeds (HasSent (at + (3 + t))) (put_segments n chip img s')) (sym e)
            (put_segments-Succeeds n 3 img s' l (omega arith) (omega arith) (omega arith) h))
          λ s₂ h₂. h₂)

  transfer-Succeeds :
      (n : ℕ) (img : Bytes) (s : Link)
      → 1 ≤ length img
      → m ≡ 2 * ((length img + 2047) / 2048)
      → HasSent (at + 2) s
      → Succeeds (HasSent (at + (4 + m))) (transfer (suc (suc n)) chip mode img s)
  unfolding transfer
  transfer-Succeeds n img s l e h =
      bind-Succeeds (HasAnswer (at + 3) 0x02 (command_of mode)) (HasSent (at + (4 + m)))
        (get_status chip s) _ (get_status-Succeeds 2 0x02 (command_of mode) s refl h)
        λ s₁ (h₁, c, i).
          let general : is_general s₁ ≡ true = rw c refl in
          rw general (
            bind-Succeeds (HasSent (at + (3 + m))) (HasSent (at + (4 + m)))
              (send_image chip mode img s₁) (λ s₂. transfer (suc n) chip mode img s₂)
              (send_image-Succeeds img s₁ l e c i h₁) λ s₂ h₂. finish-Succeeds n img s₂ h₂)

  pub master-Succeeds :
      (n : ℕ) (img : Bytes) (s : Link)
      → 1 ≤ length img
      → m ≡ 2 * ((length img + 2047) / 2048)
      → HasSent at s
      → Succeeds (HasSent (at + (4 + m))) (master (suc (suc n)) chip mode img s)
  unfolding master general_status is_ready
  master-Succeeds n img s l e h =
      bind-Succeeds (HasAnswer (at + 1) 0x02 0x21) (HasSent (at + (4 + m)))
        (get_status chip (status_query s)) _
        (get_status-Succeeds 0 0x02 0x21 (status_query s) refl (omega arith))
        λ s₁ (h₁, c, i).
          let ready : general_status 0 s₁ ≡ ok s₁ = rw (c, i) refl in
          let s₁' : Link = record s₁ { mosi_cls = 0x03; mosi_ins = command_of mode } in
          rw ready (
            bind-Succeeds (HasSent (at + 2)) (HasSent (at + (4 + m))) (put_command chip [] s₁') _
              (put_command-Succeeds 1 s₁' refl h₁)
              λ s₂ h₂. transfer-Succeeds n img (status_query s₂) l e h₂)
