-- ===== src/Timer/Invariant.antt =====
-- What every operation of the timer module keeps.
use device_xiaomi_odin.Prelude.{
  ℕ, zero, suc, ◌+◌, ◌-◌, ◌≡◌, refl, ◌⊎◌, inl, inr, Bool, true, false, Option, none, some, List, [],
  ◌∷◌, length, get_or, set, arith,
}
use device_xiaomi_odin.Timer.{
  create, create_at, arm, stop_in, start, stop, delete, cleanup, cleanup_from, cleanup_slot,
  expired, index_of,
}
use device_xiaomi_odin.Timer.Slots.{
  TimerState, idle, running, stopped, Timer, blank, Table, available,
}

-- Slot `i` is free, or carries the id 101 + i.
abbrev pub SlotsFrom : ℕ → Table → Type 0
SlotsFrom i [] = Unit
SlotsFrom i (t ∷ ts) = ((t.timer_id ≡ 0) ⊎ (t.timer_id ≡ i + 101)) × SlotsFrom (i + 1) ts

pub record IsValid (t : Table) : Type 0 where
  pub five : length t ≡ 5
  pub slots : SlotsFrom 0 t

length-set : (t : Table) (i : ℕ) (v : Timer) → length (set t i v) ≡ length t
length-set [] i v = refl
length-set (x ∷ t) zero v = refl
length-set (x ∷ t) (suc i) v = omega (arith, length-set t i v)

SlotsFrom-set :
    (t : Table) (j i : ℕ) (v : Timer)
    → (v.timer_id ≡ 0) ⊎ (v.timer_id ≡ j + i + 101)
    → SlotsFrom j t
    → SlotsFrom j (set t i v)
SlotsFrom-set [] j i v h s = tt
SlotsFrom-set (x ∷ t) j zero v h s = (omega arith, s.1)
SlotsFrom-set (x ∷ t) j (suc i) v h s = (s.0, SlotsFrom-set t (j + 1) i v (omega arith) s.1)

-- A slot's id in a valid table.
pub SlotsFrom-get_or :
    (t : Table) (j i : ℕ)
    → SlotsFrom j t
    → ((get_or blank t i).timer_id ≡ 0) ⊎ ((get_or blank t i).timer_id ≡ j + i + 101)
SlotsFrom-get_or [] j i s = inl refl
SlotsFrom-get_or (x ∷ t) j zero s = omega arith
SlotsFrom-get_or (x ∷ t) j (suc i) s = omega (arith, SlotsFrom-get_or t (j + 1) i s.1)

pub set-IsValid :
    (t : Table) (i : ℕ) (v : Timer)
    → (v.timer_id ≡ 0) ⊎ (v.timer_id ≡ i + 101)
    → IsValid t
    → IsValid (set t i v)
set-IsValid t i v h w = record {
  five = omega (arith, length-set t i v);
  slots = SlotsFrom-set t 0 i v (omega arith) w.slots;
}

-- A write that keeps the slot's id.
keep-IsValid :
    (t : Table) (i : ℕ) (v : Timer)
    → v.timer_id ≡ (get_or blank t i).timer_id
    → IsValid t
    → IsValid (set t i v)
keep-IsValid t i v e w = set-IsValid t i v (omega (arith, SlotsFrom-get_or t 0 i w.slots)) w

create_at-IsValid :
    (os : Option ℕ) (i id : ℕ) (t : Table)
    → id ≡ i + 101
    → IsValid t
    → IsValid (create_at os i id t).table
unfolding create_at
create_at-IsValid none i id t e w = w
create_at-IsValid (some h) i id t e w = set-IsValid t i _ (inr e) w

create-IsValid : (os : Option ℕ) (t : Table) → IsValid t → IsValid (create os t).table
unfolding create
create-IsValid os t w =
    grind (arith, create_at-IsValid os (available 0 t - 1) (available 0 t + 100) t)

arm-IsValid :
    (i ms f context : ℕ) (ok : Bool) (t : Table)
    → IsValid t
    → IsValid (arm i ms f context ok t).table
unfolding arm
arm-IsValid i ms f context ok t w = keep-IsValid t i _ refl w

start-IsValid :
    (id ms : ℕ) (f : Option ℕ) (context : ℕ) (ok : Bool) (t : Table)
    → IsValid t
    → IsValid (start id ms f context ok t).table
unfolding start
start-IsValid id ms none context ok t w = w
start-IsValid id ms (some f) context ok t w =
    ground (arith, arm-IsValid (index_of id) ms f context ok t)

stop_in-IsValid :
    (s : TimerState) (i : ℕ) (ok : Bool) (t : Table) → IsValid t → IsValid (stop_in s i ok t).table
unfolding stop_in
stop_in-IsValid idle i ok t w = w
stop_in-IsValid stopped i ok t w = w
stop_in-IsValid running i true t w = keep-IsValid t i _ refl w
stop_in-IsValid running i false t w = w

stop-IsValid : (id : ℕ) (ok : Bool) (t : Table) → IsValid t → IsValid (stop id ok t).table
unfolding stop
stop-IsValid id ok t w =
    ground (arith, stop_in-IsValid (get_or blank t (index_of id)).state (index_of id) ok t)

clear-IsValid : (i : ℕ) (t : Table) → IsValid t → IsValid (set t i blank)
clear-IsValid i t w = set-IsValid t i blank (inl refl) w

delete-IsValid : (id : ℕ) (ok : Bool) (t : Table) → IsValid t → IsValid (delete id ok t).table
unfolding delete
delete-IsValid id ok t w = ground (arith, clear-IsValid (index_of id) t w)

cleanup_slot-IsValid : (i : ℕ) (t : Table) → IsValid t → IsValid (cleanup_slot i t).0
unfolding cleanup_slot
cleanup_slot-IsValid i t w = ground (arith, clear-IsValid i t w)

cleanup_from-IsValid : (n i : ℕ) (t : Table) → IsValid t → IsValid (cleanup_from n i t).0
unfolding cleanup_from
cleanup_from-IsValid zero i t w = w
cleanup_from-IsValid (suc n) i t w =
    cleanup_from-IsValid n (i + 1) (cleanup_slot i t).0 (cleanup_slot-IsValid i t w)

expired-IsValid : (id : ℕ) (t : Table) → IsValid t → IsValid (expired id t).0
unfolding expired
expired-IsValid id t w = keep-IsValid t (index_of id) _ refl w

-- The operations of the module, with what the system calls of each return.
pub data Op : Type 0 where
  creates : Option ℕ → Op
  starts : ℕ → ℕ → Option ℕ → ℕ → Bool → Op
  stops : ℕ → Bool → Op
  deletes : ℕ → Bool → Op
  cleans : Op
  expires : ℕ → Op

pub step : Table → Op → Table
step t (creates os) = (create os t).table
step t (starts id ms f context ok) = (start id ms f context ok t).table
step t (stops id ok) = (stop id ok t).table
step t (deletes id ok) = (delete id ok t).table
step t cleans = (cleanup t).0
step t (expires id) = (expired id t).0

pub run : Table → List Op → Table
run t [] = t
run t (o ∷ os) = run (step t o) os

pub step-IsValid : (o : Op) (t : Table) → IsValid t → IsValid (step t o)
unfolding step cleanup
step-IsValid (creates os) t w = create-IsValid os t w
step-IsValid (starts id ms f context ok) t w = start-IsValid id ms f context ok t w
step-IsValid (stops id ok) t w = stop-IsValid id ok t w
step-IsValid (deletes id ok) t w = delete-IsValid id ok t w
step-IsValid cleans t w = cleanup_from-IsValid 5 0 t w
step-IsValid (expires id) t w = expired-IsValid id t w

-- From any valid table, such as the empty one, every history of calls leaves five slots, and each
-- slot is free or carries the id 101 + its index.
pub run-IsValid : (os : List Op) (t : Table) → IsValid t → IsValid (run t os)
unfolding run
run-IsValid [] t w = w
run-IsValid (o ∷ os) t w = run-IsValid os (step t o) (step-IsValid o t w)
