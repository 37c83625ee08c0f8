-- ===== src/Tml/Spi/Reset.antt =====
-- A read that gives no packet: outside a reset, and while phTmlUwb_Spi_Reset waits.
use device_xiaomi_odin.Prelude.{
  ap₂, ℕ, ◌+◌, ◌-◌, ◌≤◌, ◌≡◌, ◌⊎◌, inl, inr, refl, ap, ◌∙◌, Bool, true, false, Option, none, some,
  [], ◌∷◌, arith, Bytes, ◌&&◌, if-both, if◌then◌else◌,
}
use device_xiaomi_odin.Tml.{abort_read_pending, read_abort}
use device_xiaomi_odin.Tml.Threads.{System, receive}
use device_xiaomi_odin.Uci.Packet.{byte}
use device_xiaomi_odin.Tml.Spi.{
  spi_ioctl, reset_chip, srxxx_set_pwr, pwr_disable, pwr_enable, is_spurious, spi_read, finish_read,
  reset_spi,
}

-- The read fails, or is empty, or it is a packet that the chip has not sent behind a download.
abbrev pub IsNoPacket : Bool → Option (ℕ × Bytes) → Type 0
IsNoPacket fwd raw =
    (raw ≡ none)
    ⊎ (n : ℕ) × (p : Bytes) × (raw ≡ some (n, p))
      × ((n ≡ 0) ⊎ ((fwd ≡ true) × (is_spurious p ≡ true)))

-- What the reader is told of it.
IsIgnored : Option (ℕ × ℕ) → Type 0
IsIgnored r = (r ≡ none) ⊎ (b : ℕ) × (r ≡ some (0, b))

spi_read-IsIgnored :
    (fwd : Bool) (raw : Option (ℕ × Bytes)) → IsNoPacket fwd raw → IsIgnored (spi_read true fwd raw)
unfolding IsIgnored spi_read
spi_read-IsIgnored fwd raw (inl e) = rw e (inl refl)
spi_read-IsIgnored fwd raw (inr (n, p, e, inl z)) = rw e (
    if-both IsIgnored (fwd && is_spurious p) _ _ (λ f. inr (byte p 0, refl))
      λ f. inr (byte p 0, ap (λ t. some (t, byte p 0)) z))
spi_read-IsIgnored fwd raw (inr (n, p, e, inr (on, spurious))) =
    rw (e, on, spurious) (inr (byte p 0, refl))

-- The reader takes its semaphore, and posts it again unless the read is aborted.
receive-ignored :
    (r : Option (ℕ × ℕ)) (s : System)
    → IsIgnored r
    → receive r s ≡ record s {
      tml =
          if s.tml.is_read_abort
          then record (s.tml) { rx_semaphore = s.tml.rx_semaphore - 1; is_read_abort = false }
          else record (s.tml) { rx_semaphore = s.tml.rx_semaphore - 1 + 1 };
    }
unfolding IsIgnored receive
receive-ignored r s (inl e) = rw e refl
receive-ignored r s (inr (b, e)) = rw e refl

-- The reader goes back to its semaphore.
retried : (n : ℕ) → 1 ≤ n → n - 1 + 1 ≡ n
retried n h = omega arith

finish_read-again :
    (fwd : Bool) (raw : Option (ℕ × Bytes)) (s : System)
    → s.tml.has_device ≡ true
    → s.tml.is_read_abort ≡ false
    → 1 ≤ s.tml.rx_semaphore
    → IsNoPacket fwd raw
    → finish_read fwd raw s ≡ s
unfolding finish_read
finish_read-again fwd raw s d a h i =
    ap (λ t. receive (spi_read t fwd raw) s) d
    ∙ receive-ignored (spi_read true fwd raw) s (spi_read-IsIgnored fwd raw i)
    ∙ ap
        (λ t. record s {
          tml =
              if t
              then record (s.tml) { rx_semaphore = s.tml.rx_semaphore - 1; is_read_abort = false }
              else record (s.tml) { rx_semaphore = s.tml.rx_semaphore - 1 + 1 };
        })
        a
    ∙ ap (λ t. record s { tml = record (s.tml) { rx_semaphore = t } })
        (retried s.tml.rx_semaphore h)

-- The layer while the reset waits.
abbrev waits : System → System
waits s = record s { tml = record (read_abort s.tml) { is_read_abort = true } }

abbrev ended_reset : System → System
ended_reset s = record s { tml = read_abort (record (s.tml) { is_read_abort = false }) }

abbrev aborted_read : System → System
aborted_read s = record s {
  tml = record (read_abort s.tml) { rx_semaphore = s.tml.rx_semaphore - 1; is_read_abort = false };
}

finish_read-waits :
    (fwd : Bool) (raw : Option (ℕ × Bytes)) (s : System)
    → s.tml.has_device ≡ true
    → IsNoPacket fwd raw
    → finish_read fwd raw (waits s) ≡ aborted_read s
unfolding finish_read read_abort
finish_read-waits fwd raw s d i =
    ap (λ t. receive (spi_read t fwd raw) (waits s)) d
    ∙ receive-ignored (spi_read true fwd raw) (waits s) (spi_read-IsIgnored fwd raw i)

reset_spi-eq :
    (fwd : Bool) (raw : Option (ℕ × Bytes)) (s : System)
    → s.tml.has_device ≡ true
    → IsNoPacket fwd raw
    → reset_spi fwd (some raw) s ≡ (
      ended_reset (aborted_read s),
      srxxx_set_pwr abort_read_pending ∷ srxxx_set_pwr pwr_disable ∷ srxxx_set_pwr pwr_enable ∷ [],
    )
unfolding reset_spi spi_ioctl reset_chip
reset_spi-eq fwd raw s d i =
    ap₂ (λ t u. (t, u)) (ap ended_reset (finish_read-waits fwd raw s d i)) (rw d refl)

-- A read that gives no packet, because it fails, is empty, or is a spurious packet behind a download,
-- is made again if no reset waits: the layer is as it was, with nothing for the HAL. While
-- phTmlUwb_Spi_Reset waits it is not: the reader stays at its semaphore, which is not posted, and
-- reading is off. The device file has been told to abort the read, and to switch the chip off and on.
pub reset_spi-finish_read :
    (fwd : Bool) (raw : Option (ℕ × Bytes)) (s : System)
    → s.tml.has_device ≡ true
    → s.tml.is_read_abort ≡ false
    → 1 ≤ s.tml.rx_semaphore
    → IsNoPacket fwd raw
    → (finish_read fwd raw s ≡ s)
      × (s' : System) × (reset_spi fwd (some raw) s ≡ (
        s',
        srxxx_set_pwr abort_read_pending
            ∷ srxxx_set_pwr pwr_disable
            ∷ srxxx_set_pwr pwr_enable
            ∷ [],
      ))
      × (s'.reader ≡ s.reader)
      × (s'.tml.rx_semaphore ≡ s.tml.rx_semaphore - 1)
      × (s'.tml.read_info.enable ≡ false)
      × (s'.tml.is_read_abort ≡ false)
unfolding read_abort
reset_spi-finish_read fwd raw s d a h i = (
  finish_read-again fwd raw s d a h i,
  ended_reset (aborted_read s),
  reset_spi-eq fwd raw s d i,
  refl,
  refl,
  refl,
  refl,
)
