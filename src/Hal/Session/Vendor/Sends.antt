-- ===== src/Hal/Session/Vendor/Sends.antt =====
-- What phNxpUciHal_applyVendorConfig sends.
use mathlib.Core.List.{append_assoc, append-nil}
use device_xiaomi_odin.Prelude.{
  ℕ, ◌<◌, ◌≡◌, ◌⊎◌, refl, ap, sym, subst, ◌∙◌, inl, inr, false, Option, none, some, List, [], ◌∷◌,
  ◌++◌, arith, leb, ◌==◌, Bytes, length, Bool-cases, ==→≡,
}
use device_xiaomi_odin.Status.{success}
use device_xiaomi_odin.Uci.Packet.{uci_max_data_len}
use device_xiaomi_odin.Hal.Session.{Device, Sent, send_ext_cmd}
use device_xiaomi_odin.Hal.Session.Vendor.{Session, Result, then_ok, send_block}

-- Each of the commands is answered with success when it is sent.
unfoldable pub Answered : Device → List Bytes → List Bytes → Type 0
Answered dev sent [] = Unit
Answered dev sent (b ∷ bs) = (dev (sent ++ b ∷ []) ≡ success) × Answered dev (sent ++ b ∷ []) bs

-- All the blocks are sent and answered with success, and then the extra ones are sent; or the last
-- one that is sent is the first that is not answered so, and its status is the result.
unfoldable pub IsAllSent : Device → List Bytes → List Bytes → List Bytes → ℕ → List Bytes → Type 0
IsAllSent dev sent bs extra status sent' =
    (status ≡ success) × (sent' ≡ sent ++ (bs ++ extra)) × Answered dev sent bs

unfoldable pub IsStopped : Device → List Bytes → List Bytes → ℕ → List Bytes → Type 0
IsStopped dev sent bs status sent' =
    (before : List Bytes) × (b : Bytes) × (rest : List Bytes) × ((status == success) ≡ false)
    × (bs ≡ before ++ b ∷ rest)
    × Answered dev sent before
    × (sent' ≡ sent ++ (before ++ b ∷ []))
    × (status ≡ dev sent')

unfoldable pub Sends : Device → Session → List Bytes → List Bytes → Result → Type 0
Sends dev s bs extra r =
    (status : ℕ) × (s' : Session) × (r ≡ some (status, s'))
    × (IsAllSent dev s.sent bs extra status s'.sent ⊎ IsStopped dev s.sent bs status s'.sent)

pub Answered-append :
    (dev : Device) (sent bs cs : List Bytes)
    → Answered dev sent bs
    → Answered dev (sent ++ bs) cs
    → Answered dev sent (bs ++ cs)
unfolding Answered
Answered-append dev sent [] cs h k = subst (λ l. Answered dev l cs) (append-nil sent) k
Answered-append dev sent (b ∷ bs) cs (a, h) k = (
  a,
  Answered-append dev (sent ++ b ∷ []) bs cs h
      (subst (λ l. Answered dev l cs) (sym (append_assoc sent (b ∷ []) bs)) k),
)

-- One block after others.
pub then_ok-Sends :
    (dev : Device) (s : Session) (bs cs extra : List Bytes) (r : Result) (k : Session → Result)
    → Sends dev s bs [] r
    → ((s' : Session) → Sends dev s' cs extra (k s'))
    → Sends dev s (bs ++ cs) extra (then_ok r k)
unfolding Sends IsAllSent IsStopped
then_ok-Sends dev s bs cs extra r k (status, s', e, inl (ok, all₀, answered)) f =
    let (status', s'', e', o) = f s' in
    let all : s'.sent ≡ s.sent ++ bs = all₀ ∙ ap (λ l. s.sent ++ l) (append-nil bs) in
    (
      status',
      s'',
      ap (λ r. then_ok r k) e ∙ (rw ok e'),
      elim o [
        | inl (ok', all', answered') ↦ inl (
          ok',
          all'
              ∙ (ap (λ l. l ++ (cs ++ extra)) all
                  ∙ (append_assoc s.sent bs (cs ++ extra)
                      ∙ ap (λ l. s.sent ++ l) (sym (append_assoc bs cs extra)))),
          Answered-append dev s.sent bs cs answered (subst (λ l. Answered dev l cs) all answered'),
        )
        | inr (before, b, rest, bad, split, answered', last, result) ↦ inr (
          bs ++ before,
          b,
          rest,
          bad,
          ap (λ l. bs ++ l) split ∙ sym (append_assoc bs before (b ∷ rest)),
          Answered-append dev s.sent bs before answered
              (subst (λ l. Answered dev l before) all answered'),
          last
              ∙ (ap (λ l. l ++ (before ++ b ∷ [])) all
                  ∙ (append_assoc s.sent bs (before ++ b ∷ [])
                      ∙ ap (λ l. s.sent ++ l) (sym (append_assoc bs before (b ∷ []))))),
          result,
        )
      ],
    )
then_ok-Sends dev s bs cs extra r k
      (status, s', e, inr (before, b, rest, bad, split, answered, last, result)) f =
    (
      status,
      s',
      ap (λ r. then_ok r k) e ∙ (rw bad refl),
      inr (
        before,
        b,
        rest ++ cs,
        bad,
        ap (λ l. l ++ cs) split ∙ append_assoc before (b ∷ rest) cs,
        answered,
        last,
        result,
      ),
    )

-- The blocks that are there.
abbrev pub present : Option Bytes → List Bytes
present none = []
present (some p) = p ∷ []

unfoldable pub IsSmall : Option Bytes → Type 0
IsSmall none = Unit
IsSmall (some p) = length p < uci_max_data_len

pub send_ext_cmd-small :
    (dev : Device) (p : Bytes) (sent : List Bytes)
    → length p < uci_max_data_len
    → send_ext_cmd dev p sent ≡ (dev (sent ++ p ∷ []), sent ++ p ∷ [])
unfolding send_ext_cmd
send_ext_cmd-small dev p sent l =
    let small : leb uci_max_data_len (length p) ≡ false = ground arith in rw small refl

-- One command, answered with success or not.
pub sent-one :
    (dev : Device) (s s' : Session) (p : Bytes) (r : Result)
    → s'.sent ≡ s.sent ++ p ∷ []
    → r ≡ some (dev (s.sent ++ p ∷ []), s')
    → Sends dev s (p ∷ []) [] r
unfolding Sends IsAllSent IsStopped Answered
sent-one dev s s' p r q e = (
  dev (s.sent ++ p ∷ []),
  s',
  e,
  elim (Bool-cases (dev (s.sent ++ p ∷ []) == success)) [
    | inl ok ↦
        let answered = ==→≡ (dev (s.sent ++ p ∷ [])) success ok in inl (answered, q, (answered, tt))
    | inr bad ↦ inr ([], p, [], bad, refl, tt, q, ap dev (sym q))
  ],
)

pub nothing-Sends : (dev : Device) (s : Session) → Sends dev s [] [] (some (success, s))
unfolding Sends IsAllSent Answered
nothing-Sends dev s = (success, s, refl, inl (refl, sym (append-nil s.sent), tt))

pub send_block-Sends :
    (dev : Device) (o : Option Bytes) (s : Session)
    → IsSmall o
    → Sends dev s (present o) [] (send_block dev o s)
unfolding IsSmall
send_block-Sends dev none s l = nothing-Sends dev s
send_block-Sends dev (some p) s l =
    let s' : Session = record s { sent = s.sent ++ p ∷ [] } in
    sent-one dev s s' p _ refl
      (ap (λ (t : Sent). some (t.0, record s { sent = t.1 })) (send_ext_cmd-small dev p s.sent l))
