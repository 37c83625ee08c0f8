-- ===== src/Monitor/Chain.antt =====
-- The nodes of a list, and what is added behind them.
use device_xiaomi_odin.Prelude.{
  ℕ, zero, suc, ◌≤◌, ◌≡◌, ◌≢◌, refl, ap, ◌∙◌, true, false, Option, some, List, [], ◌∷◌, ◌++◌, arith,
  ◌==◌, length, All, All-append, ==-refl,
}
use device_xiaomi_odin.Monitor.{Node, Heap, write, SemList, last_node, link, list_add}

-- The addresses and semaphores of the nodes, from the first on; no address stands twice.
abbrev pub Entries : Type 0
Entries = List (ℕ × ℕ)

abbrev pub Avoids : ℕ → Entries → Type 0
Avoids a es = All (λ e. e.0 ≢ a) es

abbrev pub IsChain : Heap → ℕ → Entries → Type 0
IsChain h p [] = p ≡ 0
IsChain h p ((a, d) ∷ es) =
    (next : ℕ) × (p ≡ a)
    × (a ≢ 0)
    × (h a ≡ some (record { sem = d; next = next }))
    × IsChain h next es
    × Avoids a es

abbrev pub Holds : SemList → Entries → Type 0
Holds l es = IsChain l.heap l.first es

pub IsChain-write :
    (es : Entries) (h : Heap) (p a : ℕ) (v : Option Node)
    → Avoids a es
    → IsChain h p es
    → IsChain (write h a v) p es
IsChain-write [] h p a v k c = c
IsChain-write ((b, d) ∷ es) h p a v k (next, e, z, at, rest, apart) =
    let other : (b == a) ≡ false = ground arith in
    (next, e, z, rw other at, IsChain-write es h next a v k.1 rest, apart)

-- The walk from a chain that is not empty finds a node, behind which the new one makes the chain
-- longer.
record Appended (n a d p : ℕ) (h : Heap) (es : Entries) : Type 0 where
  last : ℕ
  sem : ℕ
  walk : last_node n h p ≡ some last
  at : h last ≡ some (record { sem = sem; next = 0 })
  among : (b : ℕ) → Avoids b es → last ≢ b
  chain :
      IsChain
        (write
          (write h last (some (record { sem = sem; next = a })))
          a
          (some (record { sem = d; next = 0 })))
        p
        (es ++ (a, d) ∷ [])

walk_end :
    (n p c : ℕ) (h : Heap)
    → h p ≡ some (record { sem = c; next = 0 })
    → last_node (suc n) h p ≡ some p
unfolding last_node
walk_end n p c h e = rw (last_node, e) refl

walk_on :
    (n p c next : ℕ) (h : Heap)
    → h p ≡ some (record { sem = c; next = next })
    → (next == 0) ≡ false
    → last_node (suc n) h p ≡ last_node n h next
unfolding last_node
walk_on n p c next h e f = rw (last_node, e) (rw f refl)

pub head-nonzero :
    (h : Heap) (p a d : ℕ) (es : Entries) → IsChain h p ((a, d) ∷ es) → (p == 0) ≡ false
head-nonzero h p a d es (next, e, z, at, rest, apart) = ground arith

append_chain :
    (n a d p b c : ℕ) (es : Entries) (h : Heap)
    → IsChain h p ((b, c) ∷ es)
    → a ≢ 0
    → Avoids a ((b, c) ∷ es)
    → length ((b, c) ∷ es) ≤ n
    → Appended n a d p h ((b, c) ∷ es)
append_chain zero a d p b c es h k z f s = absurd (omega arith)
append_chain (suc n) a d p b c [] h (next, e, nz, at, end, apart) z f s =
    let at₀ : h b ≡ some (record { sem = c; next = 0 }) =
      at ∙ ap (λ t. some (record { sem = c; next = t })) end in
    let self : (b == b) ≡ true = ==-refl b in
    let other : (b == a) ≡ false = ground arith in
    let new : (a == a) ≡ true = ==-refl a in
    record {
      last = b;
      sem = c;
      walk = walk_end n p c h (ap h e ∙ at₀) ∙ ap some e;
      at = at₀;
      among = λ x y. y.0;
      chain = (
        a,
        e,
        nz,
        rw other (rw self refl),
        (0, refl, z, rw new refl, refl, tt),
        (ground arith, tt),
      );
    }
append_chain (suc n) a d p b c ((b', c') ∷ es) h (next, e, nz, at, rest, apart) z f s =
    let r = append_chain n a d next b' c' es h rest z f.1 (omega arith) in
    let more : (next == 0) ≡ false = head-nonzero h next b' c' es rest in
    let neq : r.last ≢ b = r.among b apart in
    let away : (b == r.last) ≡ false = ground arith in
    let other : (b == a) ≡ false = ground arith in
    record {
      last = r.last;
      sem = r.sem;
      walk = walk_on n p c next h (ap h e ∙ at) more ∙ r.walk;
      at = r.at;
      among = λ x y. r.among x y.1;
      chain = (
        next,
        e,
        nz,
        rw other (rw away at),
        r.chain,
        All-append (λ e. e.0 ≢ b) ((b', c') ∷ es) ((a, d) ∷ []) apart (ground arith, tt),
      );
    }

linked : ℕ → ℕ → ℕ → ℕ → SemList → SemList
linked p c a d l = record l {
  heap =
      write (write l.heap p (some (record { sem = c; next = a }))) a
        (some (record { sem = d; next = 0 }));
}

link-some :
    (p c a d : ℕ) (l : SemList)
    → l.heap p ≡ some (record { sem = c; next = 0 })
    → link p a d l ≡ some (linked p c a d l)
unfolding link linked
link-some p c a d l e = rw (link, e) refl

-- listAdd with a new node from malloc puts the semaphore behind all others, on a walk of as many
-- rounds as there are nodes.
pub list_add-Holds :
    (n a d : ℕ) (l : SemList) (es : Entries)
    → Holds l es
    → a ≢ 0
    → Avoids a es
    → length es ≤ n
    → (l' : SemList) × (list_add n a d l ≡ some (true, l')) × Holds l' (es ++ (a, d) ∷ [])
unfolding list_add linked
list_add-Holds n a d l [] k z f s =
    let fresh : (a == 0) ≡ false = ground arith in
    let empty : (l.first == 0) ≡ true = ground arith in
    let self : (a == a) ≡ true = ==-refl a in
    let l' : SemList = record {
      heap = write l.heap a (some (record { sem = d; next = 0 }));
      first = a;
    } in
    (l', rw (fresh, empty) refl, (0, refl, z, rw self refl, refl, tt))
list_add-Holds n a d l ((b, c) ∷ es) k z f s =
    let r = append_chain n a d l.first b c es l.heap k z f s in
    let fresh : (a == 0) ≡ false = ground arith in
    let used : (l.first == 0) ≡ false = head-nonzero l.heap l.first b c es k in
    (
      linked r.last r.sem a d l,
      rw (fresh, used) (rw r.walk (rw (link-some r.last r.sem a d l r.at) refl)),
      r.chain,
    )
