-- ===== src/Log/Threads/Schedule.antt =====
-- The log service with each call and each event as one step is what its threads do where none of them is
-- interrupted.
use netdj.Prelude.{
  ℕ, ◌+◌, ◌-◌, ◌<◌, ◌≡◌, refl, sym, ap, subst, ◌∙◌, ◌≢◌, inl, inr, true, none, Option, some, length,
  List, [], ◌∷◌, ◌++◌, map, append_assoc, append-nil, Text, ◌==◌, if◌then◌else◌, Bool-cases, ==_iff,
  arith,
}
use netdj.Log.{LogService, Entry, emit, event}
use netdj.Log.Delivery.{Action, call, arrives, run}
use netdj.Log.Threads.{idle, World, Reach, here, Reach-trans}
use netdj.Log.Threads.Alone.{Runs, Led, Runs-Led, Runs-event, after, service, call-Led}
use netdj.Xml.{Dom}

-- A call by a thread, or the handling of an event by the owner's.
pub data Turn (X : Type 0) : Type 0 where
  calls : ℕ → Text → Entry X → Turn X
  handles_event : Turn X

abbrev pub action_of : {X : Type 0} → Turn X → Action X
action_of (calls i time e) = call (i == 0) time e
action_of handles_event = arrives true

-- Each event was posted and not yet handled when it is handled.
unfoldable pub Timely : {X : Type 0} → ℕ → List (Turn X) → Type 0
Timely posted [] = Unit
Timely posted (calls i time e ∷ l) = Timely (if i == 0 then posted else posted + 1) l
Timely posted (handles_event ∷ l) = (0 < posted) × Timely (posted - 1) l

module _ {X : Type 0} (dom : Dom X) (level_of : X → ℕ) where
  -- No thread is in the service.
  abbrev pub Quiet : World X → Type 0
  Quiet w = ((k : ℕ) → w.pcs k ≡ idle) × (w.shared.mutex ≡ none)

  -- The threads get from a quiet world to another one, with the service and what it emitted as given.
  pub record Does (w : World X) (r : LogService X × List (X × ℕ)) : Type 0 where
    pub world : World X
    pub reached : Reach dom level_of w world
    pub serves : service dom level_of world.shared ≡ r.0
    pub emitted : world.shared.emitted ≡ w.shared.emitted ++ r.1
    pub quiet : Quiet world

  all_idle :
      (i : ℕ) (w v : World X)
      → Quiet w
      → v.pcs i ≡ idle
      → ((j : ℕ) → i ≢ j → v.pcs j ≡ w.pcs j)
      → (k : ℕ) → v.pcs k ≡ idle
  all_idle i w v q at others k = elim (Bool-cases (i == k)) [
    | inl e ↦ ap v.pcs (sym ((==_iff i k).0 e)) ∙ at
    | inr e ↦ others k (λ h. ground arith) ∙ q.0 k
  ]

  -- One turn, with the events that are posted then.
  turn-Does :
      (i : ℕ) (w : World X) (r : LogService X × List (X × ℕ)) (posted : ℕ) (current : Option ℕ)
      → Quiet w
      → Led dom level_of i w (after dom level_of r posted current w.shared) idle
      → (d : Does w r) × (d.world.shared.posted ≡ posted)
  turn-Does i w r posted current q led = (
    record {
      world = led.world;
      reached = led.reached;
      serves = ap (service dom level_of) led.shared;
      emitted = ap (λ m. m.emitted) led.shared;
      quiet = (all_idle i w led.world q led.stands led.others, ap (λ m. m.mutex) led.shared);
    },
    ap (λ m. m.posted) led.shared,
  )

  event-Led :
      (w : World X)
      → Quiet w
      → 0 < w.shared.posted
      → Led dom level_of 0 w
          (after dom level_of
            (event dom level_of true (service dom level_of w.shared)).0
            (w.shared.posted - 1)
            none
            w.shared)
          idle
  event-Led w q h = Runs-Led dom level_of 0 w idle (q.0 0) (
      subst
        (λ mutex.
          Runs dom level_of 0 w.shared idle
            (record (after dom level_of (event dom level_of true (service dom level_of w.shared)).0
              (w.shared.posted - 1) none w.shared) { mutex = mutex })
            idle)
        q.1 (Runs-event dom level_of w.shared h))

  and_then :
      (w : World X) (r r' : LogService X × List (X × ℕ)) (d : Does w r)
      → Does d.world r'
      → Does w (r'.0, r.1 ++ r'.1)
  and_then w r r' d d' = record {
    world = d'.world;
    reached = Reach-trans dom level_of d.reached d'.reached;
    serves = d'.serves;
    emitted = d'.emitted ∙ ap (λ l. l ++ r'.1) d.emitted ∙ append_assoc w.shared.emitted r.1 r'.1;
    quiet = d'.quiet;
  }

  -- From a world in which no thread is in the service, and where each event was posted before it is
  -- handled, the threads can get to one that holds what `run` gives for the same calls and events in
  -- their order, each in one step, with what it emits, and in which no thread is in the service again.
  pub Does-run :
      (l : List (Turn X)) (w : World X)
      → Quiet w
      → Timely w.shared.posted l
      → Does w (run dom level_of (map action_of l) (service dom level_of w.shared))
  unfolding run Timely
  Does-run [] w q t = record {
    world = w;
    reached = here;
    serves = refl;
    emitted = sym (append-nil w.shared.emitted);
    quiet = q;
  }
  Does-run (calls i time e ∷ l) w q t =
      let r = emit dom (i == 0) time e (service dom level_of w.shared) in
      let posted = if i == 0 then w.shared.posted else w.shared.posted + 1 in
      let current = if i == 0 then w.shared.current else some (length w.shared.queue) in
      let d = turn-Does i w r posted current q (call-Led dom level_of i time e w (q.0 i) q.1) in
      let d' = Does-run l d.0.world d.0.quiet (subst (λ n. Timely n l) (sym d.1) t) in
      and_then w r (run dom level_of (map action_of l) r.0) d.0
        (subst (λ s. Does d.0.world (run dom level_of (map action_of l) s)) d.0.serves d')
  Does-run (handles_event ∷ l) w q t =
      let r = (event dom level_of true (service dom level_of w.shared)).0 in
      let posted = w.shared.posted - 1 in
      let d = turn-Does 0 w r posted none q (event-Led w q t.0) in
      let d' = Does-run l d.0.world d.0.quiet (subst (λ n. Timely n l) (sym d.1) t.1) in
      and_then w r (run dom level_of (map action_of l) r.0) d.0
        (subst (λ s. Does d.0.world (run dom level_of (map action_of l) s)) d.0.serves d')
