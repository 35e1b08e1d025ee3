-- ===== src/Log/Threads/Mutex.antt =====
-- What holds of the log service however its threads interleave.
use mathlib.Core.Bool.{false≢true}
use netdj.Prelude.{
  ℕ, ◌<◌, ◌≡◌, refl, sym, ap, ◌∙◌, ◌≢◌, ◌⊎◌, inl, inr, Bool, true, false, some, List, [], ◌∷◌,
  arith,
}
use netdj.Log.Threads.{
  Shared, Pc, idle, inside, posting, unlocking, scanning, clearing, Move, reads, writes, locks,
  emits, appends, posts, unlocks, handles, passes_on, ends, clears, World, set-cases, Step, moves,
  Reach, here, next, set-same,
}
use netdj.Xml.{Dom}

-- between the lock and the unlock of `mEmitMutex`
abbrev pub holds : {X : Type 0} → Pc X → Bool
holds (inside x l) = true
holds posting = true
holds unlocking = true
holds _ = false

-- between append and postEvent, or in event()
abbrev pub attends : {X : Type 0} → Pc X → Bool
attends posting = true
attends (scanning b) = true
attends clearing = true
attends _ = false

abbrev pub has_entries : {X : Type 0} → List X → Bool
has_entries [] = false
has_entries (x ∷ xs) = true

module _ {X : Type 0} (dom : Dom X) (level_of : X → ℕ) where
  Locked : World X → Type 0
  Locked w = (i : ℕ) → holds (w.pcs i) ≡ true → w.shared.mutex ≡ some i

  Move-mutex :
      (i : ℕ) {m m' : Shared X} {p p' : Pc X}
      → Move dom level_of i m p m' p'
      → (holds p ≡ true → m.mutex ≡ some i)
      → (holds p' ≡ true → m'.mutex ≡ some i)
        × ((j : ℕ) → i ≢ j → m.mutex ≡ some j → m'.mutex ≡ some j)
  Move-mutex i (reads time e) h = (λ q. cc, λ j ne k. k)
  Move-mutex i (writes time e n) h = (λ q. cc, λ j ne k. k)
  Move-mutex i (locks x l free) h = (λ q. refl, λ j ne k. cc)
  Move-mutex i (emits x l own) h = (λ q. h refl, λ j ne k. k)
  Move-mutex i (appends x l other) h = (λ q. h refl, λ j ne k. k)
  Move-mutex i posts h = (λ q. h refl, λ j ne k. k)
  Move-mutex i unlocks h =
      (λ q. cc, λ j ne k. let e : some i ≡ some j = sym (h refl) ∙ k in absurd (ne cc))
  Move-mutex i (handles own some_posted) h = (λ q. cc, λ j ne k. k)
  Move-mutex i (passes_on b k x t e) h = (λ q. cc, λ j ne l. l)
  Move-mutex i (ends b e) h = (λ q. cc, λ j ne l. l)
  Move-mutex i clears h = (λ q. cc, λ j ne k. k)

  Step-Locked : {w w' : World X} → Step dom level_of w w' → Locked w → Locked w'
  unfolding Locked
  Step-Locked {w} (moves i {p} {p'} at move) h j k =
      let (own, others) = Move-mutex i move (λ q. h i (ap holds at ∙ q)) in
      elim (set-cases i j p' w.pcs) [
        | inl e ↦ own (sym (ap holds e.1) ∙ k) ∙ ap some e.0
        | inr e ↦ others j e.0 (h j (sym (ap holds e.1) ∙ k))
      ]

  Reach-Locked : {w w' : World X} → Reach dom level_of w w' → Locked w → Locked w'
  Reach-Locked here h = h
  Reach-Locked (next r s) h = Step-Locked s (Reach-Locked r h)

  -- Where no thread is in the service at first, no two threads are ever between the lock and the unlock
  -- of its mutex.
  pub Reach-one_inside :
      (w w' : World X) (i j : ℕ)
      → ((k : ℕ) → w.pcs k ≡ idle)
      → Reach dom level_of w w'
      → holds (w'.pcs i) ≡ true
      → holds (w'.pcs j) ≡ true
      → i ≡ j
  unfolding Locked
  Reach-one_inside w w' i j quiet r a b =
      let start : Locked w = λ k h. let q = quiet k in cc in
      let locked = Reach-Locked r start in let x = locked i a in let y = locked j b in cc

  -- An entry waits for an event, or for a thread that is about to post one or is handling one.
  Attended : World X → Type 0
  Attended w =
      has_entries w.shared.queue ≡ true
      → (0 < w.shared.posted) ⊎ ((i : ℕ) × (attends (w.pcs i) ≡ true))

  Move-attends :
      (i : ℕ) {m m' : Shared X} {p p' : Pc X}
      → Move dom level_of i m p m' p'
      → has_entries m'.queue ≡ true
      → (0 < m'.posted)
        ⊎ ((attends p' ≡ true)
            ⊎ ((has_entries m.queue ≡ true) × (attends p ≡ false) × (m'.posted ≡ m.posted)))
  Move-attends i (reads time e) q = inr (inr (q, refl, refl))
  Move-attends i (writes time e n) q = inr (inr (q, refl, refl))
  Move-attends i (locks x l free) q = inr (inr (q, refl, refl))
  Move-attends i (emits x l own) q = inr (inr (q, refl, refl))
  Move-attends i (appends x l other) q = inr (inl refl)
  Move-attends i posts q = inl (omega arith)
  Move-attends i unlocks q = inr (inr (q, refl, refl))
  Move-attends i (handles own some_posted) q = inr (inl refl)
  Move-attends i (passes_on b k x t e) q = inr (inl refl)
  Move-attends i (ends b e) q = inr (inl refl)
  Move-attends i clears q = cc

  Step-Attended : {w w' : World X} → Step dom level_of w w' → Attended w → Attended w'
  unfolding Attended
  Step-Attended {w} (moves i {p} {p'} at move) h q = elim (Move-attends i move q) [
    | inl e ↦ inl e
    | inr (inl e) ↦ inr (i, ap attends (set-same i p' w.pcs) ∙ e)
    | inr (inr (before, away, same)) ↦ elim (h before) [
      | inl e ↦ inl (omega arith)
      | inr (j, e) ↦ elim (set-cases i j p' w.pcs) [
        | inl (ij, k) ↦
            absurd
              (false≢true (sym away ∙ ap attends (sym at) ∙ ap (λ n. attends (w.pcs n)) ij ∙ e))
        | inr (ij, k) ↦ inr (j, ap attends k ∙ e)
      ]
    ]
  ]

  Reach-Attended : {w w' : World X} → Reach dom level_of w w' → Attended w → Attended w'
  Reach-Attended here h = h
  Reach-Attended (next r s) h = Step-Attended s (Reach-Attended r h)

  -- Where the queue is empty at first, and each access to the shared members is one step: while it holds an
  -- entry, an event is posted that was not handled yet, or a thread is between its append and its
  -- postEvent, or a thread is in event().
  pub Reach-event_to_come :
      (w w' : World X)
      → w.shared.queue ≡ []
      → Reach dom level_of w w'
      → has_entries w'.shared.queue ≡ true
      → (0 < w'.shared.posted) ⊎ ((i : ℕ) × (attends (w'.pcs i) ≡ true))
  unfolding Attended
  Reach-event_to_come w w' e r =
      let start : Attended w = λ q. absurd (false≢true (sym (ap has_entries e) ∙ q)) in
      Reach-Attended r start
