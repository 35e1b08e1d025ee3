-- ===== src/Log/Threads/Losses/Steps.antt =====
-- What one step of a thread in the log service leaves of the account of its entries.
use mathlib.Core.Bool.{true≢false}
use netdj.Prelude.{
  ℕ, zero, suc, ◌+◌, ◌≤◌, ◌≡◌, refl, ap, ◌≢◌, Bool, false, Option, none, some, List, [], ◌∷◌, ◌++◌,
  get_elem?, length, drop, if◌then◌else◌, arith,
}
use netdj.Log.Delivery.{count, count_emitted, count-append, count_emitted-append}
use netdj.Log.Threads.{
  Shared, Pc, scanning, clearing, Move, reads, writes, locks, emits, appends, posts, unlocks,
  handles, passes_on, ends, clears, target, item,
}
use netdj.Xml.{Dom}
use netdj.Log.Threads.Losses.{from_item, pending, at_work, handed, dropped}

module _ {X : Type 0} (dom : Dom X) (level_of : X → ℕ) (test : X → Bool) where
  abbrev pub number : List X → ℕ
  number = count dom level_of test

  abbrev pub number_emitted : List (X × ℕ) → ℕ
  number_emitted = count_emitted dom level_of test

  drop-some :
      (k : ℕ) (q : List X) (x : X)
      → get_elem? q k ≡ some x
      → (number (drop k q) ≡ (if test x then 1 else 0) + number (drop (suc k) q))
        × (suc k ≤ length q)
  unfolding count
  drop-some k [] x h = cc
  drop-some zero (y ∷ q) x h =
      let e : y ≡ x = cc in (ap (λ z. (if test z then 1 else 0) + number q) e, omega arith)
  drop-some (suc k) (y ∷ q) x h = let ih = drop-some k q x h in (ih.0, omega (arith, ih.1))

  drop-none : (k : ℕ) (q : List X) → get_elem? q k ≡ none → number (drop k q) ≡ 0
  unfolding count
  drop-none zero [] h = refl
  drop-none (suc k) [] h = refl
  drop-none zero (y ∷ q) h = cc
  drop-none (suc k) (y ∷ q) h = drop-none k q h

  item-none : (t : Option ℕ) (q : List X) → item q t ≡ none → number (from_item t q) ≡ 0
  unfolding count from_item
  item-none none q h = refl
  item-none (some k) q h = drop-none k q h

  drop-append_one : (q : List X) (x : X) → drop (suc (length q)) (q ++ x ∷ []) ≡ []
  drop-append_one [] x = refl
  drop-append_one (y ∷ q) x = drop-append_one q x

  -- What a step of the owner's thread leaves of the account.
  pub own-step :
      (i : ℕ) {m m' : Shared X} {p p' : Pc X} (move : Move dom level_of i m p m' p')
      → i ≡ 0
      → (number_emitted m'.emitted
            + number (pending p' m'.queue m'.current)
            + number (dropped dom level_of move p)
          ≡ number_emitted m.emitted
            + number (pending p m.queue m.current)
            + number (handed dom level_of move))
  unfolding count count_emitted pending from_item handed dropped
  own-step i (reads time e) z = refl
  own-step i (writes time e n) z = refl
  own-step i (locks x l free) z = refl
  own-step i {m} (emits x l own) z =
      let a = count_emitted-append dom level_of test m.emitted ((x, l) ∷ []) in omega arith
  own-step i (appends x l other) z = absurd (other z)
  own-step i posts z = refl
  own-step i unlocks z = refl
  own-step i (handles own some_posted) z = refl
  own-step i {m} (passes_on b k x t e) z =
      let a = count_emitted-append dom level_of test m.emitted ((x, level_of x) ∷ []) in
      let r = ap (λ p. number (from_item p m.queue)) t in
      let c = (drop-some k m.queue x e).0 in omega arith
  own-step i {m} (ends b e) z = let a = item-none (target b m.current) m.queue e in omega arith
  own-step i clears z = refl

  append-step :
      (i : ℕ) (m : Shared X) (x : X) (l : ℕ) (other : i ≢ 0) (o : Pc X)
      → (number_emitted m.emitted
            + number (pending o (m.queue ++ x ∷ []) (some (length m.queue)))
            + number (dropped dom level_of {i = i} {m = m} (appends x l other) o)
          ≡ number_emitted m.emitted + number (pending o m.queue m.current) + number (x ∷ []))
  unfolding count count_emitted pending from_item dropped
  append-step i m x l other (scanning false) =
      let a =
        count-append dom level_of test (from_item (target false m.current) m.queue) (x ∷ []) in
      let b = ap number (drop-append_one m.queue x) in omega arith
  append-step i m x l other clearing = omega arith
  append-step i m x l other o =
      let a = count-append dom level_of test m.queue (x ∷ []) in omega arith

  -- What a step of another thread leaves of the account, wherever the owner's thread stands.
  pub other-step :
      (i : ℕ) {m m' : Shared X} {p p' : Pc X} (move : Move dom level_of i m p m' p')
      → i ≢ 0
      → at_work p ≡ false
      → (o : Pc X)
      → (number_emitted m'.emitted
            + number (pending o m'.queue m'.current)
            + number (dropped dom level_of move o)
          ≡ number_emitted m.emitted
            + number (pending o m.queue m.current)
            + number (handed dom level_of move))
        × (at_work p' ≡ false)
  unfolding handed dropped
  other-step i (reads time e) ne w o = (refl, refl)
  other-step i (writes time e n) ne w o = (refl, refl)
  other-step i (locks x l free) ne w o = (refl, refl)
  other-step i (emits x l own) ne w o = absurd (ne own)
  other-step i {m} (appends x l other) ne w o = (append-step i m x l other o, refl)
  other-step i posts ne w o = (refl, refl)
  other-step i unlocks ne w o = (refl, refl)
  other-step i (handles own some_posted) ne w o = absurd (ne own)
  other-step i (passes_on b k x t e) ne w o = absurd (true≢false w)
  other-step i (ends b e) ne w o = absurd (true≢false w)
  other-step i clears ne w o = absurd (true≢false w)
