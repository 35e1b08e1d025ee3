-- ===== src/Log/Delivery.antt =====
-- What becomes of the entries of a log service where no call and no handling of an event is interrupted;
-- Log/Threads is about the others.
use netdj.Prelude.{
  ℕ, ◌+◌, ◌%◌, ◌^◌, ◌≡◌, refl, Bool, true, false, List, [], ◌∷◌, ◌++◌, Text, if◌then◌else◌, arith,
}
use netdj.Log.{LogService, Entry, stamped, emit, emit_all, event}
use netdj.Xml.{Dom}

-- What happens to a service: a slot called from the owner's thread or another one, at a time, or an
-- event in the owner's thread.
pub data Action (X : Type 0) : Type 0 where
  call : Bool → Text → Entry X → Action X
  arrives : Bool → Action X

module _ {X : Type 0} (dom : Dom X) (level_of : X → ℕ) where
  -- The service and what it emitted, after the actions in their order.
  unfoldable pub run : List (Action X) → LogService X → LogService X × List (X × ℕ)
  run [] s = (s, [])
  run (call in_owner time e ∷ rest) s =
      let (s', out) = emit dom in_owner time e s in
      let (s'', more) = run rest s' in (s'', out ++ more)
  run (arrives is_user ∷ rest) s =
      let ((s', out), handled) = event dom level_of is_user s in
      let (s'', more) = run rest s' in (s'', out ++ more)

  -- The entries that the calls make, numbered from the count on.
  pub created : List (Action X) → ℕ → List X
  created [] n = []
  created (call in_owner time e ∷ rest) n =
      stamped dom ((n + 1) % 2 ^ 32) time e ∷ created rest ((n + 1) % 2 ^ 32)
  created (arrives is_user ∷ rest) n = created rest n

  module _ (test : X → Bool) where
    -- How many entries pass a test.
    unfoldable pub count : List X → ℕ
    count [] = 0
    count (x ∷ xs) = (if test x then 1 else 0) + count xs

    unfoldable pub count_emitted : List (X × ℕ) → ℕ
    count_emitted [] = 0
    count_emitted (p ∷ ps) = (if test p.0 then 1 else 0) + count_emitted ps

    pub count-append : (xs ys : List X) → count (xs ++ ys) ≡ count xs + count ys
    unfolding count
    count-append [] ys = omega arith
    count-append (x ∷ xs) ys = omega (arith, count-append xs ys)

    pub count_emitted-append :
        (xs ys : List (X × ℕ)) → count_emitted (xs ++ ys) ≡ count_emitted xs + count_emitted ys
    unfolding count_emitted
    count_emitted-append [] ys = omega arith
    count_emitted-append (x ∷ xs) ys = omega (arith, count_emitted-append xs ys)

    count-emit_all : (xs : List X) → count_emitted (emit_all dom level_of xs) ≡ count xs
    unfolding count count_emitted emit_all
    count-emit_all [] = refl
    count-emit_all (x ∷ xs) = rw (count-emit_all xs)

    -- Where each call of Emit and each handling of an event is one step, which no other thread interrupts,
    -- no entry is lost or emitted twice, whatever the order of the steps: what was emitted and what waits in the queue are the entries
    -- that waited before and those that the calls made, as often as any test can tell.
    pub count-run :
        (actions : List (Action X)) (s : LogService X)
        → count_emitted (run actions s).1 + count (run actions s).0.queue
          ≡ count s.queue + count (created actions s.log_count)
    unfolding run created emit event count count_emitted
    count-run [] s = omega arith
    count-run (call true time e ∷ rest) s =
        let t : LogService X = record s { log_count = (s.log_count + 1) % 2 ^ 32 } in
        omega (arith, count-run rest t)
    count-run (call false time e ∷ rest) s =
        let id = (s.log_count + 1) % 2 ^ 32 in
        let x = stamped dom id time e in
        let t : LogService X = record { log_count = id; queue = s.queue ++ x ∷ [] } in
        omega (arith, count-run rest t, count-append s.queue (x ∷ []))
    count-run (arrives true ∷ rest) s =
        let t : LogService X = record s { queue = [] } in
        omega (
          arith,
          count-run rest t,
          count_emitted-append (emit_all dom level_of s.queue) (run rest t).1,
          count-emit_all s.queue,
        )
    count-run (arrives false ∷ rest) s = count-run rest s
