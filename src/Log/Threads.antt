-- ===== src/Log/Threads.antt =====
-- The threads inside of `LogService::Emit` and `LogService::event` (netdj2/engine/LogService.cpp), one
-- access to the shared members at a time: a call of a method of `mEntryQueue` is one access. Emit raises
-- `mLogCount` before it takes the mutex, and event() reads and clears `mEntryQueue` without it. The queue
-- is a QPtrList, which has a current item that `first`, `next` and `append` move. Thread 0 owns the service.
pub mod Mutex
pub mod Alone
pub mod Races
pub mod Losses
pub mod Schedule
use netdj.Prelude.{
  ℕ, suc, ◌+◌, ◌-◌, ◌%◌, ◌^◌, ◌<◌, ◌≡◌, refl, ◌≢◌, Bool, true, false, Option, none, some, List, [],
  ◌∷◌, ◌++◌, Text, get_elem?, length, ◌==◌, if◌then◌else◌, ◌⊎◌, inl, inr, Bool-cases, ==_iff,
  ==_refl, arith,
}
use netdj.Log.{Entry, stamped}
use netdj.Xml.{Dom}

-- The members that the threads share: the count, who holds `mEmitMutex`, the queue with its current item,
-- the events that were posted and not yet handled, and what was emitted.
pub record Shared (X : Type 0) : Type 0 where
  pub log_count : ℕ
  pub mutex : Option ℕ
  pub queue : List X
  -- the position of the queue's current item
  pub current : Option ℕ
  pub posted : ℕ
  pub emitted : List (X × ℕ)

-- Where a thread stands.
pub data Pc (X : Type 0) : Type 0 where
  -- in neither of them
  idle : Pc X
  -- `++mLogCount` has read this count and not yet written it back.
  raising : Text → Entry X → ℕ → Pc X
  -- the entry is written, with its level, and the mutex is not yet locked
  waiting : X → ℕ → Pc X
  inside : X → ℕ → Pc X
  -- behind append, before postEvent
  posting : Pc X
  unlocking : Pc X
  -- in the loop of event(), before first(), or else before next()
  scanning : Bool → Pc X
  -- behind the loop, before clear()
  clearing : Pc X

-- The service with all its threads.
pub record World (X : Type 0) : Type 0 where
  pub shared : Shared X
  pub pcs : ℕ → Pc X

-- Where `first` looks for an item, or `next`, which has none behind the last one or where there is no
-- current item.
abbrev pub target : Bool → Option ℕ → Option ℕ
target true current = some 0
target false none = none
target false (some k) = some (suc k)

abbrev pub item : {X : Type 0} → List X → Option ℕ → Option X
item q none = none
item q (some k) = get_elem? q k

abbrev pub set : {X : Type 0} → ℕ → Pc X → (ℕ → Pc X) → ℕ → Pc X
set i p pcs j = if i == j then p else pcs j

pub set-cases :
    {X : Type 0} (i j : ℕ) (p : Pc X) (pcs : ℕ → Pc X)
    → ((i ≡ j) × (set i p pcs j ≡ p)) ⊎ ((i ≢ j) × (set i p pcs j ≡ pcs j))
set-cases i j p pcs = elim (Bool-cases (i == j)) [
  | inl e ↦ inl ((==_iff i j).0 e, rw e refl)
  | inr e ↦ inr (λ h. ground arith, rw e refl)
]

pub set-same : {X : Type 0} (i : ℕ) (p : Pc X) (pcs : ℕ → Pc X) → set i p pcs i ≡ p
set-same i p pcs = rw (==_refl i) refl

pub set-other : {X : Type 0} (i j : ℕ) (p : Pc X) (pcs : ℕ → Pc X) → i ≢ j → set i p pcs j ≡ pcs j
set-other i j p pcs ne = elim (set-cases i j p pcs) [ inl h ↦ absurd (ne h.0) | inr h ↦ h.1 ]

module _ {X : Type 0} (dom : Dom X) (level_of : X → ℕ) where
  -- One step of one thread.
  pub data Move (i : ℕ) (m : Shared X) : Pc X → Shared X → Pc X → Type 0 where
    reads : (time : Text) (e : Entry X) → Move i m idle m (raising time e m.log_count)
    writes :
        (time : Text) (e : Entry X) (n : ℕ)
        → Move i m
            (raising time e n)
            (record m { log_count = (n + 1) % 2 ^ 32 })
            (waiting (stamped dom ((n + 1) % 2 ^ 32) time e) e.level)
    locks :
        (x : X) (l : ℕ)
        → m.mutex ≡ none
        → Move i m (waiting x l) (record m { mutex = some i }) (inside x l)
    emits :
        (x : X) (l : ℕ)
        → i ≡ 0
        → Move i m (inside x l) (record m { emitted = m.emitted ++ (x, l) ∷ [] }) unlocking
    appends :
        (x : X) (l : ℕ)
        → i ≢ 0
        → Move i m
            (inside x l)
            (record m { queue = m.queue ++ x ∷ []; current = some (length m.queue) })
            posting
    posts : Move i m posting (record m { posted = m.posted + 1 }) unlocking
    unlocks : Move i m unlocking (record m { mutex = none }) idle
    handles :
        i ≡ 0 → 0 < m.posted → Move i m idle (record m { posted = m.posted - 1 }) (scanning true)
    passes_on :
        (at_first : Bool) (k : ℕ) (x : X)
        → target at_first m.current ≡ some k
        → get_elem? m.queue k ≡ some x
        → Move i m
            (scanning at_first)
            (record m { current = some k; emitted = m.emitted ++ (x, level_of x) ∷ [] })
            (scanning false)
    ends :
        (at_first : Bool)
        → item m.queue (target at_first m.current) ≡ none
        → Move i m (scanning at_first) (record m { current = none }) clearing
    clears : Move i m clearing (record m { queue = []; current = none }) idle

  -- a step of one of the threads
  pub data Step (w : World X) : World X → Type 0 where
    moves :
        (i : ℕ) {p p' : Pc X} {m : Shared X}
        → w.pcs i ≡ p
        → Move i w.shared p m p'
        → Step w (record { shared = m; pcs = set i p' w.pcs })

  pub data Reach (w : World X) : World X → Type 0 where
    here : Reach w w
    next : {u v : World X} → Reach w u → Step u v → Reach w v

  pub Reach-trans : {u v w : World X} → Reach u v → Reach v w → Reach u w
  Reach-trans a here = a
  Reach-trans a (next b s) = next (Reach-trans a b) s
