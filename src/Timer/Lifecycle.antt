-- ===== src/Timer/Lifecycle.antt =====
-- What a timer id stands for from phOsalUwb_Timer_Create to phOsalUwb_Timer_Delete.
use device_xiaomi_odin.Prelude.{
  ℕ, zero, suc, ◌+◌, ◌*◌, ◌<◌, ◌≡◌, ◌≢◌, refl, ap, ap₂, ◌∙◌, ◌⊎◌, inl, inr, Bool, true, false, none,
  some, [], ◌∷◌, not, ◌&&◌, length, get_or, set, arith, leb, ◌==◌, All, take, Bool-cases, ==→≡,
}
use device_xiaomi_odin.Status.{success}
use device_xiaomi_odin.Timer.{max_timer, create, create_at, delete, it_value, index_of, id_invalid}
use device_xiaomi_odin.Timer.Slots.{idle, Timer, blank, Table, available, presence}
use device_xiaomi_odin.Timer.Invariant.{IsValid}

pub get_or-set : (t : Table) (i : ℕ) (v : Timer) → i < length t → get_or blank (set t i v) i ≡ v
get_or-set [] i v h = absurd (omega arith)
get_or-set (x ∷ t) zero v h = refl
get_or-set (x ∷ t) (suc i) v h = get_or-set t i v (omega arith)

pub set-set : (t : Table) (i : ℕ) (v w : Timer) → set (set t i v) i w ≡ set t i w
set-set [] i v w = refl
set-set (x ∷ t) zero v w = refl
set-set (x ∷ t) (suc i) v w = ap (◌∷◌ x) (set-set t i v w)

pub length-set : (t : Table) (i : ℕ) (v : Timer) → length (set t i v) ≡ length t
length-set [] i v = refl
length-set (x ∷ t) zero v = refl
length-set (x ∷ t) (suc i) v = omega (arith, length-set t i v)

-- A slot that is in use is inside the table.
pub used-lt : (t : Table) (i : ℕ) → (get_or blank t i).timer_id ≢ 0 → i < length t
used-lt [] i h = absurd (h refl)
used-lt (x ∷ t) zero h = omega arith
used-lt (x ∷ t) (suc i) h = omega (arith, used-lt t i h)

pub presence-used :
    (t : Table) (j i : ℕ) → (get_or blank t i).timer_id ≢ 0 → presence j (j + i) t ≡ success
unfolding presence
presence-used [] j i h = absurd (h refl)
presence-used (x ∷ t) j zero h = ground arith
presence-used (x ∷ t) j (suc i) h =
    ground (arith, ap (λ k. presence (j + 1) k t) eq, presence-used t (j + 1) i h)
  where
    eq : j + suc i ≡ j + 1 + i
    eq = omega arith

-- Slot `i` is free, and every slot before it is in use.
pub record FirstFree (t : Table) (i : ℕ) : Type 0 where
  pub inside : i < length t
  pub free : (get_or blank t i).timer_id ≡ 0
  pub before : All (λ s. s.timer_id ≢ 0) (take i t)

abbrev pub IsFull : Table → Type 0
IsFull t = All (λ s. s.timer_id ≢ 0) t

FirstFree-cons :
    (x : Timer) (t : Table) (i : ℕ) → x.timer_id ≢ 0 → FirstFree t i → FirstFree (x ∷ t) (suc i)
FirstFree-cons x t i h f = record {
  inside = omega (arith, f.inside);
  free = f.free;
  before = (h, f.before);
}

-- What the search finds, from any position of the loop.
available_cases :
    (t : Table) (j : ℕ)
    → (IsFull t × (available j t ≡ 0)) ⊎ ((i : ℕ) × FirstFree t i × (available j t ≡ suc (j + i)))
unfolding available
available_cases [] j = inl (tt, refl)
available_cases (x ∷ t) j = elim (Bool-cases (x.timer_id == 0)) [
  | inl free ↦ inr (
    0,
    record { inside = omega arith; free = ==→≡ x.timer_id 0 free; before = tt },
    rw free (omega arith),
  )
  | inr used ↦ elim (available_cases t (j + 1)) [
    | inl (f, e) ↦ inl ((ground arith, f), rw used e)
    | inr (i, f, e) ↦ inr (suc i, FirstFree-cons x t i (ground arith) f, rw used (omega (arith, e)))
  ]
]

-- The slot that phOsalUwb_Timer_Create writes.
abbrev pub fresh : Table → ℕ → ℕ → Timer
fresh t i h = record (get_or blank t i) { handle = h; state = idle; timer_id = i + 101 }

create_found :
    (h : ℕ) (t : Table) (i : ℕ)
    → available 0 t ≡ suc i
    → i < 5
    → (create (some h) t).result ≡ i + 101 × ((create (some h) t).table ≡ set t i (fresh t i h))
unfolding create create_at
create_found h t i e l =
    rw (e, create)
      (rw (leb_max, nonzero)
        ((
          omega arith,
          ap₂
              (λ k id.
                set t k (record (get_or blank t k) { handle = h; state = idle; timer_id = id }))
              (omega arith) (omega arith),
        )))
  where
    leb_max : leb (suc i) 5 ≡ true
    leb_max = ground arith

    nonzero : (suc i == 0) ≡ false
    nonzero = ground arith

create-refused : (t : Table) → ((create none t).result ≡ id_invalid) × ((create none t).table ≡ t)
unfolding create create_at
create-refused t =
    let test : Bool = not (available 0 t == 0) && leb (available 0 t) max_timer in
    elim (Bool-cases test) [ inl e ↦ (rw e refl, rw e refl) | inr e ↦ (rw e refl, rw e refl) ]

-- On a valid table: if every slot is in use, phOsalUwb_Timer_Create returns
-- PH_UWB_TIMER_ID_INVALID and changes nothing; otherwise, if timer_create succeeds, it takes the
-- first free slot, returns 101 plus its index, and changes that slot alone, which is then idle. If
-- timer_create fails, it returns PH_UWB_TIMER_ID_INVALID and changes nothing either.
pub create_lem :
    (h : ℕ) (t : Table)
    → IsValid t
    → ((IsFull t × ((create (some h) t).result ≡ id_invalid) × ((create (some h) t).table ≡ t))
        ⊎ ((i : ℕ) × FirstFree t i
            × ((create (some h) t).result ≡ i + 101)
            × ((create (some h) t).table ≡ set t i (fresh t i h))))
      × ((create none t).result ≡ id_invalid)
      × ((create none t).table ≡ t)
unfolding create
create_lem h t w =
    let (result, table) = create-refused t in
    (
      elim (available_cases t 0) [
        | inl (f, e) ↦ inl (f, ground arith, ground arith)
        | inr (i, f, e) ↦
            let (r, c) = create_found h t i (omega (arith, e)) (omega (arith, f.inside, w.five)) in
            inr (i, f, r, c)
      ],
      result,
      table,
    )

-- The nanoseconds that a timer is armed with are those of its milliseconds, but 1 for 0, which
-- would disarm it; the `tv_nsec` field is one that timer_settime accepts.
pub it_value_lem :
    (ms : ℕ)
    → ((it_value ms).1 < 1000000000)
      × (((ms ≡ 0) × ((it_value ms).0 * 1000000000 + (it_value ms).1 ≡ 1))
          ⊎ ((ms ≢ 0) × ((it_value ms).0 * 1000000000 + (it_value ms).1 ≡ ms * 1000000)))
unfolding it_value
it_value_lem zero = ground arith
it_value_lem (suc n) = (ground arith, inr (ground arith, ground arith))

pub index_of_id : (i : ℕ) → i < 5 → index_of (i + 101) ≡ i
index_of_id i l = omega arith

-- What a delete of a slot in use does.
pub delete_used :
    (t : Table) (i : ℕ) (ok : Bool)
    → i < 5
    → (get_or blank t i).timer_id ≢ 0
    → ((delete (i + 101) ok t).table ≡ set t i blank) × ((delete (i + 101) true t).result ≡ success)
unfolding delete
delete_used t i ok l u = rw (index_of_id i l) (ground (arith, presence-used t 0 i u))

-- A timer that was created can be deleted: the call succeeds if the system's does, and the table is
-- the one before the creation, with the slot cleared. So its id can be given out again.
pub delete-create :
    (h : ℕ) (t : Table) (id : ℕ)
    → IsValid t
    → (create (some h) t).result ≡ id
    → id ≢ id_invalid
    → (i : ℕ) × FirstFree t i
      × (id ≡ i + 101)
      × ((delete id true (create (some h) t).table).result ≡ success)
      × ((delete id true (create (some h) t).table).table ≡ set t i blank)
delete-create h t id w e n = elim ((create_lem h t w).0) [
  | inl (f, r, same) ↦ absurd (n (omega (arith, e, r)))
  | inr (i, f, r, same) ↦
      let l : i < 5 = omega (arith, f.inside, w.five) in
      let slot = get_or-set t i (fresh t i h) f.inside in
      let u : (get_or blank (set t i (fresh t i h)) i).timer_id ≢ 0 = rw slot (omega arith) in
      let d = delete_used (set t i (fresh t i h)) i true l u in
      let here : id ≡ i + 101 = omega (arith, e, r) in
      (i, f, here, rw (here, same) d.1, rw (here, same) (d.0 ∙ set-set t i _ blank))
]
