-- ===== src/Monitor/Release.antt =====
-- The semaphores of the monitor: the release of all of them, and a semaphore's life.
use device_xiaomi_odin.Prelude.{
  ℕ, zero, suc, ◌≤◌, ◌<◌, ◌≡◌, ◌≢◌, refl, ap, sym, subst, ◌∙◌, true, false, some, none, [], ◌∷◌,
  ◌++◌, arith, ◌==◌, ==→≡, ==-refl, length, length-append, if◌then◌else◌, Bool-cases, inl, inr,
}
use device_xiaomi_odin.Status.{success, failed}
use device_xiaomi_odin.Monitor.{
  write, SemList, Sem, Sems, write_sem, Monitor, list_get_and_remove_next, release,
  releaseall_cb_data, list_destroy, destroyed, cleanup_monitor, init_cb_data, cleanup_cb_data,
}
use device_xiaomi_odin.Monitor.Chain.{
  Entries, Avoids, IsChain, Holds, IsChain-write, head-nonzero, list_add-Holds,
}
use device_xiaomi_odin.Monitor.Search.{contains, remove_first}
use device_xiaomi_odin.Monitor.Remove.{list_remove-Holds}

list_get_and_remove_next-Holds :
    (l : SemList) (a d : ℕ) (es : Entries)
    → Holds l ((a, d) ∷ es)
    → (l' : SemList) × (list_get_and_remove_next l ≡ some (some d, l')) × Holds l' es
unfolding list_get_and_remove_next
list_get_and_remove_next-Holds l a d es k =
    let (q, e, nz, at, rest, apart) = k in
    let used : (l.first == 0) ≡ false = head-nonzero l.heap l.first a d es k in
    let first : l.heap l.first ≡ some (record { sem = d; next = q }) = ap l.heap e ∙ at in
    (
      record { heap = write l.heap l.first none; first = q },
      rw (used, first) refl,
      subst (λ t. IsChain (write l.heap t none) q es) (sym e)
          (IsChain-write es l.heap q a none apart rest),
    )

list_get_and_remove_next-empty :
    (l : SemList) → Holds l [] → list_get_and_remove_next l ≡ some (none, l)
unfolding list_get_and_remove_next
list_get_and_remove_next-empty l k =
    let empty : (l.first == 0) ≡ true = ground arith in rw empty refl

-- The number of the nodes of a semaphore.
abbrev pub occurrences : ℕ → Entries → ℕ
occurrences d [] = 0
occurrences d ((a, c) ∷ es) = let rest : ℕ = occurrences d es in if d == c then suc rest else rest

-- A semaphore that is posted a number of times by the release.
abbrev pub released : ℕ → Sem → Sem
released zero s = s
released (suc k) s = released k (release s)

-- Each semaphore is posted for each of its nodes, and the list is empty.
pub IsReleased : Monitor → Entries → Monitor → Type 0
IsReleased m es m' =
    Holds m'.sem_list [] × ((d : ℕ) → m'.sems d ≡ released (occurrences d es) (m.sems d))

released_step :
    (m : Monitor) (d a c : ℕ) (es : Entries)
    → released (occurrences d es) (write_sem m.sems c (release (m.sems c)) d)
      ≡ released (occurrences d ((a, c) ∷ es)) (m.sems d)
released_step m d a c es = elim (Bool-cases (d == c)) [
  | inl same ↦
      rw same (ap (λ t. released (occurrences d es) (release (m.sems t))) (sym (==→≡ d c same)))
  | inr other ↦ rw other refl
]

-- phNxpUciHal_releaseall_cb_data on a list of fewer nodes than its loop has rounds: it sets the
-- status of each semaphore of the list to a failure and posts it, once for each of its nodes; no
-- other semaphore changes, and the list is empty.
pub releaseall_cb_data-IsReleased :
    (n : ℕ) (m : Monitor) (es : Entries)
    → Holds m.sem_list es
    → length es < n
    → (m' : Monitor) × (releaseall_cb_data n m ≡ some m') × IsReleased m es m'
unfolding releaseall_cb_data list_get_and_remove_next IsReleased
releaseall_cb_data-IsReleased zero m es k s = absurd (omega arith)
releaseall_cb_data-IsReleased (suc n) m [] k s =
    (m, rw (releaseall_cb_data, list_get_and_remove_next-empty m.sem_list k) refl, (k, λ d. refl))
releaseall_cb_data-IsReleased (suc n) m ((a, c) ∷ es) k s =
    let (l, e, h) = list_get_and_remove_next-Holds m.sem_list a c es k in
    let m₁ : Monitor = record { sem_list = l; sems = write_sem m.sems c (release (m.sems c)) } in
    let (m', f, (empty, all)) = releaseall_cb_data-IsReleased n m₁ es h (omega arith) in
    (m', rw (releaseall_cb_data, e) f, (empty, λ d. all d ∙ released_step m d a c es))

-- The list is empty already when it is destroyed.
list_destroy-empty : (n : ℕ) (l : SemList) → Holds l [] → list_destroy (suc n) l ≡ some l
unfolding list_destroy
list_destroy-empty n l k = rw (list_destroy, list_get_and_remove_next-empty l k) refl

-- phNxpUciHal_cleanup_monitor on a list of fewer nodes than its loops have rounds returns: each
-- semaphore of the list has a failure as its status and is posted once for each of its nodes, and no
-- other semaphore changes.
pub cleanup_monitor-released :
    (n : ℕ) (m : Monitor) (es : Entries)
    → Holds m.sem_list es
    → length es < n
    → (s : Sems) × (cleanup_monitor n m ≡ some s)
      × ((d : ℕ) → s d ≡ released (occurrences d es) (m.sems d))
unfolding cleanup_monitor IsReleased
cleanup_monitor-released zero m es k s = absurd (omega arith)
cleanup_monitor-released (suc n) m es k s =
    let (m', e, (empty, all)) = releaseall_cb_data-IsReleased (suc n) m es k s in
    (m'.sems, rw e (rw (destroyed, list_destroy-empty n m'.sem_list empty) refl), all)

remove_first-last :
    (a d : ℕ) (es : Entries) → contains d es ≡ false → remove_first d (es ++ (a, d) ∷ []) ≡ es
remove_first-last a d [] e = let self : (d == d) ≡ true = ==-refl d in rw self refl
remove_first-last a d ((b, c) ∷ es) e =
    let other : (c == d) ≡ false = ground arith in
    let rest : contains d es ≡ false = ground arith in
    rw other (ap (λ t. (b, c) ∷ t) (remove_first-last a d es rest))

-- A semaphore that is initialised, with a new node from malloc, and cleaned up again leaves the list
-- of the semaphores as it was, if it was not in it; no other semaphore changes. Its status is a
-- failure, and it is not posted.
pub cleanup_cb_data-init_cb_data :
    (n a d context : ℕ) (m : Monitor) (es : Entries)
    → Holds m.sem_list es
    → a ≢ 0
    → Avoids a es
    → contains d es ≡ false
    → length es < n
    → (m₁ : Monitor) × (m₂ : Monitor) × (init_cb_data true n a d context m ≡ some (success, m₁))
      × (cleanup_cb_data n d m₁ ≡ some m₂)
      × Holds m₂.sem_list es
      × (m₂.sems d ≡ record { status = failed; context = context; count = 0 })
      × ((b : ℕ) → b ≢ d → m₂.sems b ≡ m.sems b)
unfolding init_cb_data cleanup_cb_data
cleanup_cb_data-init_cb_data n a d context m es k z f absent s =
    let (l₁, e₁, h₁) = list_add-Holds n a d m.sem_list es k z f (omega arith) in
    let l : length (es ++ (a, d) ∷ []) ≤ n = omega (arith, length-append es ((a, d) ∷ [])) in
    let (l₂, e₂, h₂, same) = list_remove-Holds n d l₁ (es ++ (a, d) ∷ []) h₁ l in
    let fresh : Sem = record { status = failed; context = context; count = 0 } in
    let m₁ : Monitor = record { sem_list = l₁; sems = write_sem m.sems d fresh } in
    let m₂ : Monitor = record { sem_list = l₂; sems = write_sem m.sems d fresh } in
    let self : (d == d) ≡ true = ==-refl d in
    (
      m₁,
      m₂,
      rw e₁ refl,
      rw e₂ refl,
      subst (λ t. Holds l₂ t) (remove_first-last a d es absent) h₂,
      rw self refl,
      λ b neq. let other : (b == d) ≡ false = ground arith in rw other refl,
    )
