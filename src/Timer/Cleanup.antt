-- ===== src/Timer/Cleanup.antt =====
-- phOsalUwb_Timer_Cleanup: the loop over the slots.
use mathlib.Core.List.{append_assoc}
use device_xiaomi_odin.Prelude.{
  ℕ, ◌+◌, ◌≡◌, refl, ap, subst, ◌∙◌, inl, inr, false, List, [], ◌∷◌, ◌++◌, length, get_or, set,
  arith, ◌==◌, if◌then◌else◌, map, Bool-cases, length-append,
}
use device_xiaomi_odin.Status.{success}
use device_xiaomi_odin.Timer.{cleanup, cleanup_from, cleanup_slot, Call, timer_delete}
use device_xiaomi_odin.Timer.Slots.{Timer, blank, Table, presence}
use device_xiaomi_odin.Timer.Lifecycle.{presence-used}

-- The system calls that delete the timers of a table, in the order of the slots.
abbrev pub deletions : Table → List Call
deletions [] = []
deletions (t ∷ ts) = (if t.timer_id == 0 then [] else timer_delete t.handle ∷ []) ++ deletions ts

-- A slot that has been cleared, if it was in use.
abbrev pub cleared : Timer → Timer
cleared t = if t.timer_id == 0 then t else blank

get_or-append : (xs ys : Table) (y : Timer) → get_or blank (xs ++ y ∷ ys) (length xs) ≡ y
get_or-append [] ys y = refl
get_or-append (x ∷ xs) ys y = get_or-append xs ys y

set-append : (xs ys : Table) (y v : Timer) → set (xs ++ y ∷ ys) (length xs) v ≡ xs ++ v ∷ ys
set-append [] ys y v = refl
set-append (x ∷ xs) ys y v = ap (◌∷◌ x) (set-append xs ys y v)

-- The round at slot `length xs`.
cleanup_slot-append :
    (xs ys : Table) (y : Timer)
    → cleanup_slot (length xs) (xs ++ y ∷ ys)
      ≡ (xs ++ cleared y ∷ ys, (if y.timer_id == 0 then [] else timer_delete y.handle ∷ []))
unfolding cleanup_slot
cleanup_slot-append xs ys y = elim (Bool-cases (y.timer_id == 0)) [
  | inl free ↦ rw (get_or-append, free)
  | inr used ↦ rw (get_or-append, used) (rw (present used) (rw set-append))
]
  where
    present : (y.timer_id == 0) ≡ false → presence 0 (length xs) (xs ++ y ∷ ys) ≡ success
    present u =
        let e : length xs ≡ 0 + length xs = omega arith in
        ap (λ k. presence 0 k (xs ++ y ∷ ys)) e
        ∙ presence-used (xs ++ y ∷ ys) 0 (length xs) (rw get_or-append (ground arith))

cleanup_from-append :
    (ys xs : Table) (i : ℕ)
    → i ≡ length xs
    → cleanup_from (length ys) i (xs ++ ys) ≡ (xs ++ map cleared ys, deletions ys)
unfolding cleanup_from
cleanup_from-append [] xs i e = refl
cleanup_from-append (y ∷ ys) xs i e =
    let at : length xs + 1 ≡ length (xs ++ cleared y ∷ []) =
      omega (arith, length-append xs (cleared y ∷ [])) in
    let next = cleanup_from-append ys (xs ++ cleared y ∷ []) (length xs + 1) at in
    rw (e, cleanup_slot-append xs ys y) (rw (rw (append_assoc, append_assoc) at next))

-- On a table of five, whatever the system calls return: every timer in use is deleted, once and in
-- order, its slot is cleared, and no other slot changes.
pub cleanup_lem : (t : Table) → length t ≡ 5 → cleanup t ≡ (map cleared t, deletions t)
unfolding cleanup
cleanup_lem t five =
    subst (λ n. cleanup_from n 0 t ≡ (map cleared t, deletions t)) five
      (cleanup_from-append t [] 0 refl)
