-- ===== src/Tml/Api.antt =====
-- phTmlUwb_Init, phTmlUwb_Shutdown and the requests of phTmlUwb_Write and phTmlUwb_Read.
use device_xiaomi_odin.Prelude.{
  ℕ, ◌≡◌, ◌≢◌, ◌↔◌, refl, ◌⊎◌, inl, inr, true, Option, none, some, [], ◌∷◌, arith, ◌==◌, Bool-cases,
}
use device_xiaomi_odin.Status.{success, pending, already_initialised, busy, cid_tml, ph_uwb_st_val}
use device_xiaomi_odin.Tml.State.{Context, fresh}
use device_xiaomi_odin.Tml.{
  Environment, set_power, spi_close, init, prepare, start_up, start_thread, clean_up, write,
  write_deferred_cb,
}

-- What phTmlUwb_Init asks of its environment.
abbrev pub AllSucceed : Environment → Type 0
AllSucceed env =
    (env.allocated ≡ true)
    × (env.spi_open ≡ 0)
    × (env.rx_sem_init ≡ 0)
    × (env.tx_sem_init ≡ 0)
    × (env.wait_read_init ≡ 0)
    × (env.read_abort_init ≡ 0)
    × (env.post_sem_init ≡ 0)
    × (env.reader_create ≡ 0)
    × (env.writer_create ≡ 0)

start_up_lem :
    (env : Environment)
    → ((env.rx_sem_init ≡ 0)
        × (env.tx_sem_init ≡ 0)
        × (env.wait_read_init ≡ 0)
        × (env.read_abort_init ≡ 0)
        × (env.post_sem_init ≡ 0)
        × (env.reader_create ≡ 0)
        × (env.writer_create ≡ 0))
      ↔ (start_up env ≡ success)
unfolding start_up start_thread
start_up_lem env = ground arith

-- Started without a context, phTmlUwb_Init gives success exactly if it was told a thread and
-- every call that it makes succeeds, and the context is then a fresh one for that thread; in every
-- other case no context is left.
pub init_lem :
    (env : Environment) (thread : ℕ)
    → ((AllSucceed env × (thread ≢ 0))
        × (init env (some thread) none ≡ (success, some (fresh thread), [])))
      ⊎ (¬ (AllSucceed env × (thread ≢ 0))
          × ((init env (some thread) none).0 ≢ success)
          × ((init env (some thread) none).1 ≡ none))
unfolding init prepare clean_up
init_lem env thread = elim (Bool-cases (thread == 0)) [
  | inl z ↦ inr (ground arith, rw z (ground arith), rw z refl)
  | inr t ↦ elim (Bool-cases env.allocated) [
    | inr a ↦ inr (ground arith, rw (t, a) (ground arith), rw (t, a) refl)
    | inl a ↦ elim (Bool-cases (env.spi_open == success)) [
      | inr o ↦ inr (ground arith, rw (t, a, o) (ground arith), rw (t, a, o) refl)
      | inl o ↦ elim (Bool-cases (start_up env == success)) [
        | inr u ↦ inr (
          ground (arith, start_up_lem env),
          rw (t, a, o) (rw u (ground arith)),
          rw (t, a, o) (rw u refl),
        )
        | inl u ↦ inl (ground (arith, start_up_lem env), rw (t, a, o) (rw u (ground arith)))
      ]
    ]
  ]
]

-- A second phTmlUwb_Init reports that the layer is initialised, and yet closes the device and frees
-- the context of the first one.
pub init_twice :
    (env : Environment) (config : Option ℕ) (c : Context)
    → c.has_device ≡ true
    → init env config (some c)
      ≡ (ph_uwb_st_val cid_tml already_initialised, none, set_power 0 ∷ spi_close ∷ [])
unfolding init prepare clean_up
init_twice env config c h = rw h refl

-- A write that is accepted is the only one until its callback: a second one is refused and changes
-- nothing; the callback that then runs is the one that was given, and the layer accepts the next.
pub write-busy :
    (b n f x b' n' f' x' : ℕ) (c c' : Context)
    → write b n f x (some c) ≡ (pending, some c')
    → (b' ≢ 0) × (n' ≢ 0) × (f' ≢ 0)
    → (write b' n' f' x' (some c') ≡ (ph_uwb_st_val cid_tml busy, some c'))
      × ((write_deferred_cb c').1 ≡ f)
      × ((write_deferred_cb c').2 ≡ x)
      × ((write b' n' f' x' (some (write_deferred_cb c').0)).0 ≡ pending)
unfolding write write_deferred_cb
write-busy b n f x b' n' f' x' c c' e k = ground arith
