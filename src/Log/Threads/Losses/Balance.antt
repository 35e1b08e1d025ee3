-- ===== src/Log/Threads/Losses/Balance.antt =====
-- Every entry of the log service is accounted for, however its threads interleave.
use netdj.Prelude.{
  ℕ, ◌+◌, ◌≡◌, refl, sym, ap, ◌∙◌, ◌≢◌, inl, inr, Bool, false, List, [], ◌++◌, arith,
}
use netdj.Log.Delivery.{count, count_emitted, count-append}
use netdj.Log.Threads.{Shared, Pc, idle, Move, World, set, set-cases}
use netdj.Xml.{Dom}
use netdj.Log.Threads.Losses.{pending, at_work, handed, dropped, Trace, here, next}
use netdj.Log.Threads.Losses.Steps.{number, number_emitted, own-step, other-step}

module _ {X : Type 0} (dom : Dom X) (level_of : X → ℕ) (test : X → Bool) where
  -- The account of some steps: what was handed over was emitted, is still to be emitted or was dropped.
  record Account (made lost : List X) (u : World X) : Type 0 where
    balance :
        number_emitted dom level_of test u.shared.emitted
          + number dom level_of test (pending (u.pcs 0) u.shared.queue u.shared.current)
          + number dom level_of test lost
        ≡ number dom level_of test made
    others : (j : ℕ) → j ≢ 0 → at_work (u.pcs j) ≡ false

  Account-own :
      (made lost : List X) (u : World X) (i : ℕ) {p p' : Pc X} {m : Shared X}
      → u.pcs i ≡ p
      → (move : Move dom level_of i u.shared p m p') → Account made lost u
      → i ≡ 0
      → set i p' u.pcs 0 ≡ p'
      → Account
          (made ++ handed dom level_of move)
          (lost ++ dropped dom level_of move (u.pcs 0))
          (record { shared = m; pcs = set i p' u.pcs })
  Account-own made lost u i {p} {p'} {m} at move a z now =
      let was : u.pcs 0 ≡ p = ap u.pcs (sym z) ∙ at in
      let step = own-step dom level_of test i move z in
      let pend =
        ap (λ o. number dom level_of test (pending o u.shared.queue u.shared.current)) was in
      let pend' = ap (λ o. number dom level_of test (pending o m.queue m.current)) now in
      let drops = ap (λ o. number dom level_of test (dropped dom level_of move o)) was in
      let x = count-append dom level_of test made (handed dom level_of move) in
      let y = count-append dom level_of test lost (dropped dom level_of move (u.pcs 0)) in
      let before = a.balance in
      record {
        balance = omega arith;
        others = λ j ne. elim (set-cases i j p' u.pcs) [
          | inl e ↦ absurd (ne (sym e.0 ∙ z))
          | inr e ↦ ap at_work e.1 ∙ a.others j ne
        ];
      }

  Account-other :
      (made lost : List X) (u : World X) (i : ℕ) {p p' : Pc X} {m : Shared X}
      → u.pcs i ≡ p
      → (move : Move dom level_of i u.shared p m p') → Account made lost u
      → i ≢ 0
      → set i p' u.pcs 0 ≡ u.pcs 0
      → Account
          (made ++ handed dom level_of move)
          (lost ++ dropped dom level_of move (u.pcs 0))
          (record { shared = m; pcs = set i p' u.pcs })
  Account-other made lost u i {p} {p'} {m} at move a ne now =
      let idle_there = ap at_work (sym at) ∙ a.others i ne in
      let (step, calm) = other-step dom level_of test i move ne idle_there (u.pcs 0) in
      let pend' = ap (λ o. number dom level_of test (pending o m.queue m.current)) now in
      let x = count-append dom level_of test made (handed dom level_of move) in
      let y = count-append dom level_of test lost (dropped dom level_of move (u.pcs 0)) in
      let before = a.balance in
      record {
        balance = omega arith;
        others = λ j nj. elim (set-cases i j p' u.pcs) [
          | inl e ↦ ap at_work e.1 ∙ calm
          | inr e ↦ ap at_work e.1 ∙ a.others j nj
        ];
      }

  Trace-Account :
      {w u : World X} {made lost : List X}
      → Trace dom level_of w made lost u
      → Account [] [] w
      → Account made lost u
  Trace-Account here a = a
  Trace-Account (next {made} {lost} {u} t i {p} {p'} {m} at move) a =
      let so_far = Trace-Account t a in
      elim (set-cases i 0 p' u.pcs) [
        | inl e ↦ Account-own made lost u i at move so_far e.0 e.1
        | inr e ↦ Account-other made lost u i at move so_far e.0 e.1
      ]

  -- However the threads interleave, where each access to the shared members is one step, from a service that
  -- no thread is in and that has no entries: every entry that was handed over was emitted once or is still
  -- to be emitted once, as often as any test can tell, but for those that an append takes from event().
  -- While the owner's thread is between the loop and clear() that is the entry that is appended; while
  -- it is between two rounds of the loop, that entry and all that the loop had not yet come to.
  pub Trace-balance :
      (w u : World X) (made lost : List X)
      → w.shared.queue ≡ []
      → w.shared.emitted ≡ []
      → ((k : ℕ) → w.pcs k ≡ idle)
      → Trace dom level_of w made lost u
      → (number_emitted dom level_of test u.shared.emitted
            + number dom level_of test (pending (u.pcs 0) u.shared.queue u.shared.current)
            + number dom level_of test lost
          ≡ number dom level_of test made)
  unfolding count count_emitted pending
  Trace-balance w u made lost q e quiet t =
      let start : Account [] [] w = record {
        balance = rw (e, quiet 0, q) refl;
        others = λ j ne. ap at_work (quiet j);
      } in
      (Trace-Account t start).balance
