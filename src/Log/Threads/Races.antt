-- ===== src/Log/Threads/Races.antt =====
-- What the threads in the log service can do to each other, as the count is raised outside of the mutex
-- and the queue is cleared without it.
use netdj.Prelude.{
  ℕ, ◌+◌, ◌%◌, ◌^◌, ◌<◌, ◌≡◌, refl, sym, ap, subst, ◌∙◌, ◌≢◌, none, true, false, List, [], ◌∷◌,
  ◌++◌, suc, length, Text, get_elem?,
}
use netdj.Log.{Entry, stamped}
use netdj.Log.Threads.{
  Shared, Pc, idle, waiting, reads, writes, locks, appends, posts, unlocks, handles, passes_on,
  ends, clears, World, Reach, Reach-trans,
}
use netdj.Log.Threads.Alone.{Runs, stays, goes_on, Led, Runs-Led}
use netdj.Xml.{Dom}

module _ {X : Type 0} (dom : Dom X) (level_of : X → ℕ) where
  -- A thread goes on in a world that another one has led to what is shared there.
  continued :
      {i j : ℕ} {w : World X} {m m' : Shared X} {p q q' : Pc X} (before : Led dom level_of i w m p)
      → before.world.pcs j ≡ q
      → Runs dom level_of j m q m' q'
      → Led dom level_of j before.world m' q'
  continued {j} {m'} {q} {q'} before at runs =
      Runs-Led dom level_of j before.world q at
        (subst (λ s. Runs dom level_of j s q m' q') (sym before.shared) runs)

  -- Two threads that are in neither function can both call Emit so that their entries get the same id.
  pub Reach-same_id :
      (i j : ℕ) (t u : Text) (d e : Entry X) (w : World X)
      → i ≢ j
      → w.pcs i ≡ idle
      → w.pcs j ≡ idle
      → (w' : World X) × Reach dom level_of w w'
        × (w'.pcs i ≡ waiting (stamped dom ((w.shared.log_count + 1) % 2 ^ 32) t d) d.level)
        × (w'.pcs j ≡ waiting (stamped dom ((w.shared.log_count + 1) % 2 ^ 32) u e) e.level)
  Reach-same_id i j t u d e w ne at_i at_j =
      let n = w.shared.log_count in
      let a = Runs-Led dom level_of i w idle at_i (goes_on stays (reads t d)) in
      let b =
        continued a (a.others j ne ∙ at_j) (goes_on (goes_on stays (reads u e)) (writes u e n)) in
      let back : j ≢ i = λ h. ne (sym h) in
      let c = continued b (b.others i back ∙ a.stands) (goes_on stays (writes t d n)) in
      (
        c.world,
        Reach-trans dom level_of (Reach-trans dom level_of a.reached b.reached) c.reached,
        c.stands,
        c.others j ne ∙ b.stands,
      )

  -- While the owner's thread handles an event with an empty queue, another thread can make a whole call
  -- of Emit whose entry is lost: both threads are out of the functions again, the count was raised, and
  -- nothing was emitted or is in the queue.
  pub Reach-lost :
      (i : ℕ) (t : Text) (e : Entry X) (w : World X)
      → i ≢ 0
      → w.pcs 0 ≡ idle
      → w.pcs i ≡ idle
      → w.shared.mutex ≡ none
      → 0 < w.shared.posted
      → w.shared.queue ≡ []
      → (w' : World X) × Reach dom level_of w w'
        × ((w'.pcs 0 ≡ idle) × (w'.pcs i ≡ idle))
        × (w'.shared.log_count ≡ (w.shared.log_count + 1) % 2 ^ 32)
        × (w'.shared.queue ≡ [])
        × (w'.shared.emitted ≡ w.shared.emitted)
  Reach-lost i t e w ne at_0 at_i free some_posted empty =
      let m = w.shared in
      let n = m.log_count in
      let id = (n + 1) % 2 ^ 32 in
      let x = stamped dom id t e in
      let back : 0 ≢ i = λ h. ne (sym h) in
      let none_there : get_elem? m.queue 0 ≡ none = ap (λ q. get_elem? q 0) empty in
      let a =
        Runs-Led dom level_of 0 w idle at_0
          (goes_on (goes_on stays (handles refl some_posted)) (ends true none_there)) in
      let b = continued a (a.others i back ∙ at_i) (
        goes_on
          (goes_on (goes_on (goes_on stays (reads t e)) (writes t e n)) (locks x e.level free))
          (appends x e.level ne)) in
      let c = continued b (b.others 0 ne ∙ a.stands) (goes_on stays clears) in
      let d = continued c (c.others i back ∙ b.stands) (goes_on (goes_on stays posts) unlocks) in
      let s = d.shared in
      (
        d.world,
        Reach-trans dom level_of
            (Reach-trans dom level_of (Reach-trans dom level_of a.reached b.reached) c.reached)
            d.reached,
        (d.others 0 ne ∙ c.stands, d.stands),
        ap (λ r. r.log_count) s,
        ap (λ r. r.queue) s,
        ap (λ r. r.emitted) s,
      )

  behind_last : (q : List X) (y : X) → get_elem? (q ++ y ∷ []) (suc (length q)) ≡ none
  behind_last [] y = refl
  behind_last (x ∷ q) y = behind_last q y

  -- While the owner's thread handles an event, another thread can make a whole call of Emit after which
  -- only the first entry of the queue was emitted, and all others and the new one are lost: the append
  -- makes the new entry the current item of the queue, so that the loop ends, and the queue is cleared.
  pub Reach-skipped :
      (i : ℕ) (t : Text) (e : Entry X) (w : World X) (x : X) (rest : List X)
      → i ≢ 0
      → w.pcs 0 ≡ idle
      → w.pcs i ≡ idle
      → w.shared.mutex ≡ none
      → 0 < w.shared.posted
      → w.shared.queue ≡ x ∷ rest
      → (w' : World X) × Reach dom level_of w w'
        × ((w'.pcs 0 ≡ idle) × (w'.pcs i ≡ idle))
        × (w'.shared.log_count ≡ (w.shared.log_count + 1) % 2 ^ 32)
        × (w'.shared.queue ≡ [])
        × (w'.shared.emitted ≡ w.shared.emitted ++ (x, level_of x) ∷ [])
  Reach-skipped i t e w x rest ne at_0 at_i free some_posted first =
      let m = w.shared in
      let n = m.log_count in
      let y = stamped dom ((n + 1) % 2 ^ 32) t e in
      let back : 0 ≢ i = λ h. ne (sym h) in
      let a = Runs-Led dom level_of 0 w idle at_0 (
        goes_on (goes_on stays (handles refl some_posted))
          (passes_on true 0 x refl (ap (λ q. get_elem? q 0) first))) in
      let b = continued a (a.others i back ∙ at_i) (
        goes_on
          (goes_on (goes_on (goes_on stays (reads t e)) (writes t e n)) (locks y e.level free))
          (appends y e.level ne)) in
      let c =
        continued b (b.others 0 ne ∙ a.stands)
          (goes_on (goes_on stays (ends false (behind_last m.queue y))) clears) in
      let d = continued c (c.others i back ∙ b.stands) (goes_on (goes_on stays posts) unlocks) in
      let s = d.shared in
      (
        d.world,
        Reach-trans dom level_of
            (Reach-trans dom level_of (Reach-trans dom level_of a.reached b.reached) c.reached)
            d.reached,
        (d.others 0 ne ∙ c.stands, d.stands),
        ap (λ r. r.log_count) s,
        ap (λ r. r.queue) s,
        ap (λ r. r.emitted) s,
      )
