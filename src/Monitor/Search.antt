-- ===== src/Monitor/Search.antt =====
-- The search for a semaphore in the list.
use device_xiaomi_odin.Prelude.{
  ℕ, zero, suc, ◌≤◌, ◌≡◌, ◌≢◌, ◌⊎◌, inl, inr, refl, ap, sym, subst, ◌∙◌, Bool, true, false, ◌||◌,
  Option, none, some, [], ◌∷◌, arith, ◌==◌, ==→≡, ==-refl, length, if-both, if◌then◌else◌,
  Bool-cases,
}
use device_xiaomi_odin.Monitor.{Node, Heap, write, find_before}
use device_xiaomi_odin.Monitor.Chain.{Entries, Avoids, IsChain, IsChain-write, head-nonzero}

-- The entries without the first one of a semaphore.
abbrev pub remove_first : ℕ → Entries → Entries
remove_first d [] = []
remove_first d ((a, c) ∷ es) = if c == d then es else (a, c) ∷ remove_first d es

abbrev pub contains : ℕ → Entries → Bool
contains d [] = false
contains d ((a, c) ∷ es) = c == d || contains d es

-- The walk finds the node in front of the first one of the semaphore. The two nodes that change have
-- addresses of the chain.
pub record Found (n d p : ℕ) (h : Heap) (es rest : Entries) : Type 0 where
  pub front : ℕ
  pub sem : ℕ
  pub gone : ℕ
  pub next : ℕ
  pub walk : find_before n h p d ≡ some (some front)
  pub at_front : h front ≡ some (record { sem = sem; next = gone })
  pub at_gone : h gone ≡ some (record { sem = d; next = next })
  pub among : (b : ℕ) → Avoids b es → (front ≢ b) × (gone ≢ b)
  pub chain :
      IsChain (write (write h front (some (record { sem = sem; next = next }))) gone none) p rest

-- The search behind a node of another semaphore: it finds the first one, or says that there is none.
unfoldable pub Search : ℕ → ℕ → ℕ → ℕ → ℕ → Heap → Entries → Type 0
Search n d p a c h es =
    (contains d es ≡ false) × (find_before n h p d ≡ some none)
    ⊎ (contains d es ≡ true) × Found n d p h ((a, c) ∷ es) ((a, c) ∷ remove_first d es)

last_step :
    (n p c d : ℕ) (h : Heap)
    → h p ≡ some (record { sem = c; next = 0 })
    → find_before (suc n) h p d ≡ some none
unfolding find_before
last_step n p c d h e = rw (find_before, e) refl

next_step :
    (n p c d q b r : ℕ) (h : Heap)
    → h p ≡ some (record { sem = c; next = q })
    → (q == 0) ≡ false
    → h q ≡ some (record { sem = b; next = r })
    → find_before (suc n) h p d ≡ (if b == d then some (some p) else find_before n h q d)
unfolding find_before
next_step n p c d q b r h e z f = rw (find_before, e) (rw (z, f) refl)

Avoids-remove_first : (a d : ℕ) (es : Entries) → Avoids a es → Avoids a (remove_first d es)
Avoids-remove_first a d [] k = tt
Avoids-remove_first a d ((b, c) ∷ es) k =
    if-both (Avoids a) (c == d) es ((b, c) ∷ remove_first d es) (λ e. k.1)
      λ e. (k.0, Avoids-remove_first a d es k.1)

-- The next node is the one that is looked for.
Found-here :
    (n d p a c b c' : ℕ) (h : Heap) (es : Entries)
    → IsChain h p ((a, c) ∷ (b, c') ∷ es)
    → (c' == d) ≡ true
    → Found (suc n) d p h ((a, c) ∷ (b, c') ∷ es) ((a, c) ∷ es)
Found-here n d p a c b c' h es (q, e, nz, at, (r, e', nz', at', rest, apart'), apart) same =
    let at_b : h a ≡ some (record { sem = c; next = b }) =
      at ∙ ap (λ t. some (record { sem = c; next = t })) e' in
    let gone : h b ≡ some (record { sem = d; next = r }) =
      at' ∙ ap (λ t. some (record { sem = t; next = r })) (==→≡ c' d same) in
    let nonzero : (b == 0) ≡ false = ground arith in
    let other : (a == b) ≡ false = let neq : b ≢ a = apart.0 in ground arith in
    let self : (a == a) ≡ true = ==-refl a in
    let skip : Option Node = some (record { sem = c; next = r }) in
    record {
      front = a;
      sem = c;
      gone = b;
      next = r;
      walk =
          next_step n p c d b c' r h (ap h e ∙ at_b) nonzero at'
          ∙ (rw same (ap (λ t. some (some t)) e));
      at_front = at_b;
      at_gone = gone;
      among = λ x y. ((λ z. y.0 z), (λ z. y.1.0 z));
      chain = (
        r,
        e,
        nz,
        rw other (rw self refl),
        IsChain-write es (write h a skip) r b none apart'
            (IsChain-write es h r a skip apart.1 rest),
        apart.1,
      );
    }

-- It is behind the next node.
Found-further :
    (n d p a c q b c' : ℕ) (h : Heap) (es rest : Entries)
    → p ≡ a
    → a ≢ 0
    → h a ≡ some (record { sem = c; next = q })
    → Avoids a ((b, c') ∷ es)
    → Avoids a rest
    → find_before (suc n) h p d ≡ find_before n h q d
    → Found n d q h ((b, c') ∷ es) rest
    → Found (suc n) d p h ((a, c) ∷ (b, c') ∷ es) ((a, c) ∷ rest)
Found-further n d p a c q b c' h es rest e nz at apart left step f =
    let away : f.front ≢ a = (f.among a apart).0 in
    let away' : f.gone ≢ a = (f.among a apart).1 in
    let other : (a == f.front) ≡ false = ground arith in
    let other' : (a == f.gone) ≡ false = ground arith in
    record {
      front = f.front;
      sem = f.sem;
      gone = f.gone;
      next = f.next;
      walk = step ∙ f.walk;
      at_front = f.at_front;
      at_gone = f.at_gone;
      among = λ x y. f.among x y.1;
      chain = (q, e, nz, rw other' (rw other at), f.chain, left);
    }

pub search :
    (n d p a c : ℕ) (h : Heap) (es : Entries)
    → IsChain h p ((a, c) ∷ es)
    → length ((a, c) ∷ es) ≤ n
    → Search n d p a c h es
unfolding Search
search zero d p a c h es k s = absurd (omega arith)
search (suc n) d p a c h [] (q, e, nz, at, end, apart) s =
    inl (
      refl,
      last_step n p c d h (ap h e ∙ (at ∙ ap (λ t. some (record { sem = c; next = t })) end)),
    )
search (suc n) d p a c h ((b, c') ∷ es) k s = elim (Bool-cases (c' == d)) [
  | inl same ↦ inr (
    rw same refl,
    subst (λ t. Found (suc n) d p h ((a, c) ∷ (b, c') ∷ es) ((a, c) ∷ t))
        (let e : remove_first d ((b, c') ∷ es) ≡ es = rw same refl in sym e)
        (Found-here n d p a c b c' h es k same),
  )
  | inr other ↦
      let (q, e, nz, at, rest, apart) = k in
      let (r, e', nz', at', rest', apart') = rest in
      let step : find_before (suc n) h p d ≡ find_before n h q d =
        next_step n p c d q c' r h (ap h e ∙ at) (head-nonzero h q b c' es rest) (ap h e' ∙ at')
        ∙ (rw other refl) in
      elim (search n d q b c' h es rest (omega arith)) [
        | inl (absent, walk) ↦ inl (rw other absent, step ∙ walk)
        | inr (here, found) ↦ inr (
          rw other here,
          subst (λ t. Found (suc n) d p h ((a, c) ∷ (b, c') ∷ es) ((a, c) ∷ t))
              (let e : remove_first d ((b, c') ∷ es) ≡ (b, c') ∷ remove_first d es =
                  rw other refl in
                sym e)
              (Found-further n d p a c q b c' h es ((b, c') ∷ remove_first d es) e nz at apart
                (apart.0, Avoids-remove_first a d es apart.1) step found),
        )
      ]
]
