-- ===== src/Monitor/Remove.antt =====
-- The removal of a semaphore from the list.
use device_xiaomi_odin.Prelude.{
  ℕ, ◌≤◌, ◌≡◌, inl, inr, refl, ap, sym, subst, ◌∙◌, true, false, none, some, [], ◌∷◌, arith, ◌==◌,
  length, Bool-cases,
}
use device_xiaomi_odin.Monitor.{write, SemList, find_before, unlink, list_remove}
use device_xiaomi_odin.Monitor.Chain.{Entries, IsChain, Holds, IsChain-write, head-nonzero}
use device_xiaomi_odin.Monitor.Search.{remove_first, contains, Search, search}

remove_first-absent : (d : ℕ) (es : Entries) → contains d es ≡ false → remove_first d es ≡ es
remove_first-absent d [] e = refl
remove_first-absent d ((a, c) ∷ es) e =
    let other : (c == d) ≡ false = ground arith in
    let rest : contains d es ≡ false = ground arith in
    rw other (ap (λ t. (a, c) ∷ t) (remove_first-absent d es rest))

unlink-some :
    (p c q d r : ℕ) (l : SemList)
    → l.heap p ≡ some (record { sem = c; next = q })
    → l.heap q ≡ some (record { sem = d; next = r })
    → unlink p l
      ≡ some
          (record l { heap = write (write l.heap p (some (record { sem = c; next = r }))) q none })
unfolding unlink
unlink-some p c q d r l e f = rw (unlink, e) (rw f refl)

remove_head :
    (n d q : ℕ) (l : SemList) (c : ℕ)
    → (l.first == 0) ≡ false
    → l.heap l.first ≡ some (record { sem = c; next = q })
    → (c == d) ≡ true
    → list_remove n d l ≡ some (true, record { heap = write l.heap l.first none; first = q })
unfolding list_remove
remove_head n d q l c z e same = rw (z, e) (rw same refl)

remove_absent :
    (n d q : ℕ) (l : SemList) (c : ℕ)
    → (l.first == 0) ≡ false
    → l.heap l.first ≡ some (record { sem = c; next = q })
    → (c == d) ≡ false
    → find_before n l.heap l.first d ≡ some none
    → list_remove n d l ≡ some (false, l)
unfolding list_remove
remove_absent n d q l c z e other f = rw (z, e) (rw (other, f) refl)

remove_behind :
    (n d q p : ℕ) (l l' : SemList) (c : ℕ)
    → (l.first == 0) ≡ false
    → l.heap l.first ≡ some (record { sem = c; next = q })
    → (c == d) ≡ false
    → find_before n l.heap l.first d ≡ some (some p)
    → unlink p l ≡ some l'
    → list_remove n d l ≡ some (true, l')
unfolding list_remove
remove_behind n d q p l l' c z e other f u = rw (z, e) (rw (other, f) (rw u refl))

-- listRemove on a list of at most as many nodes as the walk has rounds: a semaphore that is in the
-- list loses its first node, with success, and the others keep their order; for one that is not, the
-- list stays as it is, without success.
pub list_remove-Holds :
    (n d : ℕ) (l : SemList) (es : Entries)
    → Holds l es
    → length es ≤ n
    → (l' : SemList) × (list_remove n d l ≡ some (contains d es, l'))
      × Holds l' (remove_first d es)
      × (contains d es ≡ false → l' ≡ l)
unfolding list_remove Search
list_remove-Holds n d l [] k s =
    let empty : (l.first == 0) ≡ true = ground arith in (l, rw empty refl, k, λ e. refl)
list_remove-Holds n d l ((a, c) ∷ es) k s =
    let (q, e, nz, at, rest, apart) = k in
    let used : (l.first == 0) ≡ false = head-nonzero l.heap l.first a c es k in
    let first : l.heap l.first ≡ some (record { sem = c; next = q }) = ap l.heap e ∙ at in
    elim (Bool-cases (c == d)) [
      | inl same ↦ (
        record { heap = write l.heap l.first none; first = q },
        remove_head n d q l c used first same ∙ (rw same refl),
        rw same (
            subst (λ t. IsChain (write l.heap t none) q es) (sym e)
              (IsChain-write es l.heap q a none apart rest)),
        rw same (λ f. absurd (ground arith)),
      )
      | inr other ↦ elim (search n d l.first a c l.heap es k s) [
        | inl (absent, walk) ↦ (
          l,
          remove_absent n d q l c used first other walk ∙ (rw (other, absent) refl),
          rw (other, remove_first-absent d es absent) k,
          λ f. refl,
        )
        | inr (here, f) ↦
            let l' : SemList = record l {
              heap =
                  write (write l.heap f.front (some (record { sem = f.sem; next = f.next }))) f.gone
                    none;
            } in
            (
              l',
              remove_behind n d q f.front l l' c used first other f.walk
                    (unlink-some f.front f.sem f.gone d f.next l f.at_front f.at_gone)
                  ∙ (rw (other, here) refl),
              rw other f.chain,
              rw (other, here) (λ g. absurd (ground arith)),
            )
      ]
    ]
