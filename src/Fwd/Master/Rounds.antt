-- ===== src/Fwd/Master/Rounds.antt =====
-- What is written in a number of rounds.
use mathlib.Core.List.{append_assoc, append-nil}
use device_xiaomi_odin.Prelude.{ℕ, zero, suc, ◌+◌, ◌≡◌, sym, ap, ◌∙◌, List, [], ◌++◌, Bytes}
use device_xiaomi_odin.Fwd.Apdu.{
  Link, Run, ok, stop, out_of_fuel, ◌>>=◌, hbci_failure, miso_cls, miso_ins,
}
use device_xiaomi_odin.Fwd.Apdu.Log.{writes, Writes}
use device_xiaomi_odin.Fwd.Master.{Mode, class_of}

abbrev pub repeat : ℕ → List Bytes → List Bytes
repeat zero ps = []
repeat (suc k) ps = ps ++ repeat k ps

-- Behind `start` and `before` a number of rounds is written. A success rests on the boot ROM's answer
-- that it has the image; a failure leaves a part from the beginning. The fuel may be used up.
unfoldable pub Transfers : Mode → List Bytes → List Bytes → List Bytes → Run → Type 0
Transfers mode start before round (ok s) =
    (k : ℕ) × (writes s.log ≡ start ++ (before ++ repeat k round))
    × (miso_cls s ≡ class_of mode + 2)
    × (miso_ins s ≡ 0x01)
Transfers mode start before round (stop n s) =
    (k : ℕ) × (done : List Bytes) × (left : List Bytes) × (n ≡ hbci_failure)
    × (before ++ repeat k round ≡ done ++ left)
    × (writes s.log ≡ start ++ done)
Transfers mode start before round out_of_fuel = Unit

Transfers-behind :
    (mode : Mode) (start mid ps before round : List Bytes) (r : Run)
    → mid ≡ start ++ ps
    → Transfers mode mid before round r
    → Transfers mode start (ps ++ before) round r
unfolding Transfers
Transfers-behind mode start mid ps before round (ok s) e (k, l, cls, ins) =
    let rounds : List Bytes = repeat k round in
    (
      k,
      l
          ∙ (ap (λ t. t ++ (before ++ rounds)) e
              ∙ (append_assoc start ps (before ++ rounds)
                  ∙ ap (λ t. start ++ t) (sym (append_assoc ps before rounds)))),
      cls,
      ins,
    )
Transfers-behind mode start mid ps before round (stop n s) e (k, done, left, f, split, l) = (
  k,
  ps ++ done,
  left,
  f,
  append_assoc ps before (repeat k round)
      ∙ (ap (λ t. ps ++ t) split ∙ sym (append_assoc ps done left)),
  l ∙ (ap (λ t. t ++ done) e ∙ append_assoc start ps done),
)
Transfers-behind mode start mid ps before round out_of_fuel e h = tt

pub bind-Transfers :
    (mode : Mode) (P : Link → Type 0) (start ps before round : List Bytes) (r : Run)
    (f : Link → Run)
    → Writes start ps P r
    → ((s : Link) → P s → Transfers mode (writes s.log) before round (f s))
    → Transfers mode start (ps ++ before) round (r >>= f)
unfolding Writes Transfers
bind-Transfers mode P start ps before round (ok s) f (l, p) k =
    Transfers-behind mode start (writes s.log) ps before round (f s) l (k s p)
bind-Transfers mode P start ps before round (stop n s) f (done, left, e, split, l) k = (
  zero,
  done,
  left ++ before,
  e,
  append-nil (ps ++ before) ∙ (ap (λ t. t ++ before) split ∙ append_assoc done left before),
  l,
)
bind-Transfers mode P start ps before round out_of_fuel f h k = absurd h

-- A round in front of the others is one of them.
pub round-Transfers :
    (mode : Mode) (start round : List Bytes) (r : Run)
    → Transfers mode start round round r
    → Transfers mode start [] round r
unfolding Transfers
round-Transfers mode start round (ok s) (k, l, cls, ins) = (suc k, l, cls, ins)
round-Transfers mode start round (stop n s) (k, done, left, e, split, l) =
    (suc k, done, left, e, split, l)
round-Transfers mode start round out_of_fuel h = tt
