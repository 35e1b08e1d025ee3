-- ===== src/Log/Threads/Alone.antt =====
-- A thread that is not interrupted: a call of `Emit` and the handling of an event are then the single
-- steps that `emit` and `event` of the log service are.
use netdj.Prelude.{
  ℕ, zero, suc, ◌+◌, ◌-◌, ◌%◌, ◌^◌, ◌<◌, ◌≡◌, refl, sym, ap, subst, ◌∙◌, ◌≢◌, true, false, none,
  some, Option, Bool, length, List, [], ◌∷◌, ◌++◌, append_assoc, append-nil, Text, get_elem?, arith,
  ◌==◌, if◌then◌else◌,
}
use netdj.Log.{LogService, Entry, stamped, emit, emit_all, event}
use netdj.Log.Threads.{
  Shared, Pc, idle, scanning, clearing, Move, reads, writes, locks, emits, appends, posts, unlocks,
  target, item, handles, passes_on, ends, clears, World, set, moves, Reach, here, next, set-same,
  set-other,
}
use netdj.Xml.{Dom}

module _ {X : Type 0} (dom : Dom X) (level_of : X → ℕ) where
  -- Some steps of one thread.
  pub data Runs (i : ℕ) (m : Shared X) (p : Pc X) : Shared X → Pc X → Type 0 where
    stays : Runs i m p m p
    goes_on :
        {n n' : Shared X} {q q' : Pc X}
        → Runs i m p n q
        → Move dom level_of i n q n' q'
        → Runs i m p n' q'

  -- Its steps lead the world to where it stands then, and leave the other threads where they are.
  pub record Led (i : ℕ) (w : World X) (m : Shared X) (p : Pc X) : Type 0 where
    pub world : World X
    pub reached : Reach dom level_of w world
    pub shared : world.shared ≡ m
    pub stands : world.pcs i ≡ p
    pub others : (j : ℕ) → i ≢ j → world.pcs j ≡ w.pcs j

  pub Runs-Led :
      (i : ℕ) (w : World X) (p : Pc X) {m' : Shared X} {p' : Pc X}
      → w.pcs i ≡ p
      → Runs i w.shared p m' p'
      → Led i w m' p'
  Runs-Led i w p at stays = record {
    world = w;
    reached = here;
    shared = refl;
    stands = at;
    others = λ j ne. refl;
  }
  Runs-Led i w p at (goes_on {n} {n'} {q} {q'} runs move) =
      let so_far = Runs-Led i w p at runs in
      let step = subst (λ s. Move dom level_of i s q n' q') (sym so_far.shared) move in
      record {
        world = record { shared = n'; pcs = set i q' so_far.world.pcs };
        reached = next so_far.reached (moves i so_far.stands step);
        shared = refl;
        stands = set-same i q' so_far.world.pcs;
        others = λ j ne. set-other i j q' so_far.world.pcs ne ∙ so_far.others j ne;
      }

  -- What the threads share, with the service and what it emitted as they were after some actions.
  abbrev pub after : LogService X × List (X × ℕ) → ℕ → Option ℕ → Shared X → Shared X
  after (s, out) posted current m = record {
    log_count = s.log_count;
    mutex = none;
    queue = s.queue;
    current = current;
    posted = posted;
    emitted = m.emitted ++ out;
  }

  abbrev pub service : Shared X → LogService X
  service m = record { log_count = m.log_count; queue = m.queue }

  Runs-owner :
      (time : Text) (e : Entry X) (m : Shared X)
      → m.mutex ≡ none
      → Runs 0 m idle (after (emit dom true time e (service m)) m.posted m.current m) idle
  unfolding emit
  Runs-owner time e m free =
      let x = stamped dom ((m.log_count + 1) % 2 ^ 32) time e in
      goes_on
        (goes_on
          (goes_on (goes_on (goes_on stays (reads time e)) (writes time e m.log_count))
            (locks x e.level free))
          (emits x e.level refl))
        unlocks

  Runs-other :
      (i : ℕ) (time : Text) (e : Entry X) (m : Shared X)
      → i ≢ 0
      → m.mutex ≡ none
      → Runs i m idle
          (after (emit dom false time e (service m)) (m.posted + 1) (some (length m.queue)) m)
          idle
  unfolding emit
  Runs-other i time e m other free =
      let x = stamped dom ((m.log_count + 1) % 2 ^ 32) time e in
      rw append-nil (
        goes_on
          (goes_on
            (goes_on
              (goes_on (goes_on (goes_on stays (reads time e)) (writes time e m.log_count))
                (locks x e.level free))
              (appends x e.level other))
            posts)
          unlocks)

  scan-emit_all :
      (xs : List X) (at_first : Bool) (k : ℕ) (m n : Shared X) (p : Pc X)
      → target at_first n.current ≡ some k
      → ((j : ℕ) → get_elem? n.queue (k + j) ≡ get_elem? xs j)
      → Runs 0 m p n (scanning at_first)
      → Runs 0 m p
          (record n { current = none; emitted = n.emitted ++ emit_all dom level_of xs })
          clearing
  unfolding emit_all
  scan-emit_all [] at_first k m n p looks h runs =
      let at : item n.queue (target at_first n.current) ≡ none =
        ap (item n.queue) looks ∙ ap (get_elem? n.queue) (omega arith) ∙ h 0 in
      rw append-nil (goes_on runs (ends at_first at))
  scan-emit_all (x ∷ xs) at_first k m n p looks h runs =
      let at : get_elem? n.queue k ≡ some x = ap (get_elem? n.queue) (omega arith) ∙ h 0 in
      let n' : Shared X = record n {
        current = some k;
        emitted = n.emitted ++ (x, level_of x) ∷ [];
      } in
      rw⁻¹ (append_assoc n.emitted ((x, level_of x) ∷ []) (emit_all dom level_of xs)) (
        scan-emit_all xs false (suc k) m n' p refl
          (λ j. ap (get_elem? n.queue) (omega arith) ∙ h (suc j))
          (goes_on runs (passes_on at_first k x looks at)))

  pub Runs-event :
      (m : Shared X)
      → 0 < m.posted
      → Runs 0 m idle
          (record (after (event dom level_of true (service m)).0 (m.posted - 1) none m) {
            mutex = m.mutex;
          })
          idle
  unfolding event
  Runs-event m h =
      let n : Shared X = record m { posted = m.posted - 1 } in
      goes_on
        (scan-emit_all m.queue true 0 m n idle refl (λ j. ap (get_elem? m.queue) (omega arith))
          (goes_on stays (handles refl h)))
        clears

  -- A thread that is not interrupted while it calls Emit, where the mutex is free, does to the service
  -- what `emit` does in one step, posts one event if it is not the owner's, and gives the mutex back.
  pub call-Led :
      (i : ℕ) (time : Text) (e : Entry X) (w : World X)
      → w.pcs i ≡ idle
      → w.shared.mutex ≡ none
      → Led i w
          (after
            (emit dom (i == 0) time e (service w.shared))
            (if i == 0 then w.shared.posted else w.shared.posted + 1)
            (if i == 0 then w.shared.current else some (length w.shared.queue))
            w.shared)
          idle
  call-Led zero time e w at free = Runs-Led 0 w idle at (Runs-owner time e w.shared free)
  call-Led (suc i) time e w at free =
      let other : (suc i == 0) ≡ false = ground arith in
      rw other (
        Runs-Led (suc i) w idle at
          (Runs-other (suc i) time e w.shared (λ h. absurd (omega arith)) free))
