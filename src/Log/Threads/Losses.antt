-- ===== src/Log/Threads/Losses.antt =====
-- Which entries the threads in the log service lose.
pub mod Steps
pub mod Balance
use mathlib.Core.Bool.{false≢true, true≢false}
use netdj.Prelude.{
  ℕ, zero, suc, ◌+◌, ◌≤◌, ◌≡◌, refl, sym, ap, subst, ◌∙◌, ◌≢◌, ◌⊎◌, inl, inr, Bool, true, false,
  Option, none, some, List, [], ◌∷◌, ◌++◌, get_elem?, length, drop, if◌then◌else◌, arith,
}
use netdj.Log.Delivery.{count, count_emitted, count-append, count_emitted-append}
use netdj.Log.Threads.{
  Shared, Pc, idle, raising, waiting, inside, posting, unlocking, scanning, clearing, Move, reads,
  writes, locks, emits, appends, posts, unlocks, handles, passes_on, ends, clears, World, set,
  set-cases, target, item,
}
use netdj.Xml.{Dom}

-- From a position on.
unfoldable pub from_item : {X : Type 0} → Option ℕ → List X → List X
from_item none q = []
from_item (some k) q = drop k q

-- What event() has still to emit of the queue, by where the owner's thread stands and the current item.
unfoldable pub pending : {X : Type 0} → Pc X → List X → Option ℕ → List X
unfolding from_item
pending (scanning at_first) q current = from_item (target at_first current) q
pending clearing q current = []
pending _ q current = q

abbrev pub at_work : {X : Type 0} → Pc X → Bool
at_work (scanning b) = true
at_work clearing = true
at_work _ = false

module _ {X : Type 0} (dom : Dom X) (level_of : X → ℕ) where
  -- The entry that a step emits for its caller or puts into the queue.
  unfoldable pub handed :
      {i : ℕ} {m m' : Shared X} {p p' : Pc X} → Move dom level_of i m p m' p' → List X
  handed (emits x l own) = x ∷ []
  handed (appends x l other) = x ∷ []
  handed _ = []

  -- What a step takes from event(), by where the owner's thread stands: an entry that is put into the queue
  -- between the loop and clear(); and where one is put there between two rounds of the loop, that entry and
  -- all behind the item that was the current one, as the new entry is the current item then.
  unfoldable pub dropped :
      {i : ℕ} {m m' : Shared X} {p p' : Pc X} → Move dom level_of i m p m' p' → Pc X → List X
  unfolding pending
  dropped (appends x l other) clearing = x ∷ []
  dropped {m} (appends x l other) (scanning false) =
      pending (scanning false) m.queue m.current ++ x ∷ []
  dropped (appends x l other) _ = []
  dropped _ owner = []

  -- Steps from a world, with the entries that they hand over and those that they drop.
  pub data Trace (w : World X) : List X → List X → World X → Type 0 where
    here : Trace w [] [] w
    next :
        {made lost : List X} {u : World X}
        → Trace w made lost u
        → (i : ℕ) {p p' : Pc X} {m : Shared X} → u.pcs i ≡ p
        → (move : Move dom level_of i u.shared p m p')
        → Trace w
            (made ++ handed move)
            (lost ++ dropped move (u.pcs 0))
            (record { shared = m; pcs = set i p' u.pcs })
