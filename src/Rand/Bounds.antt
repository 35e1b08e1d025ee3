-- ===== src/Rand/Bounds.antt =====
-- The results of `get_rand`: at the top 64 results of `rand` it returns its bound.
use native.Mathlib.Nat.{pow-suc, mul-mod_left, mul-div_cancel}
use netdj.Prelude.{
  ℕ, zero, suc, ◌-◌, ◌*◌, ◌/◌, ◌%◌, ◌^◌, ◌≤◌, ◌<◌, ◌≡◌, ltb, arith, Bool-cases, ap, ltb→lt,
  not-ltb→le, inl, inr,
}
use netdj.Rand.{rand_limit, ulp, to_multiple, to_float, get_rand}

ulp_small : (f n : ℕ) → n < 2 ^ 24 → ulp (suc f) n ≡ 1
unfolding ulp
ulp_small f n h = ground arith

ulp_large : (f n : ℕ) → 2 ^ 24 ≤ n → ulp (suc f) n ≡ 2 * ulp f (n / 2)
unfolding ulp
ulp_large f n h = ground arith

ulp_pos : (f n : ℕ) → 0 < ulp f n
unfolding ulp
ulp_pos zero n = omega arith
ulp_pos (suc f) n = ground (arith, ulp_pos f (n / 2))

double : (n n' m u : ℕ) → n' ≡ 2 * n → n ≡ m * u → n' ≡ m * (2 * u)
double n n' m u e d = omega (arith)

pow_double : (a k : ℕ) → a * 2 ^ suc k ≡ 2 * (a * 2 ^ k)
pow_double a k = omega (arith, ap (λ (t : ℕ). a * t) (pow-suc 2 k))

-- A number with 24 significant bits is a multiple of its distance.
ulp_divides : (f k a : ℕ) → a < 2 ^ 24 → k < f → (m : ℕ) × (a * 2 ^ k ≡ m * ulp f (a * 2 ^ k))
ulp_divides zero k a h lt = absurd (omega arith)
ulp_divides (suc f) zero a h lt = (a, rw (ulp_small f (a * 2 ^ 0) (omega arith)))
ulp_divides (suc f) (suc k) a h lt = elim (Bool-cases (ltb (a * 2 ^ suc k) (2 ^ 24))) [
  | inl small ↦ (a * 2 ^ suc k, rw (ulp_small f (a * 2 ^ suc k) (ltb→lt _ _ small)) (omega arith))
  | inr large ↦
      let (m, e) = ulp_divides f k a h (omega arith) in
      let half : a * 2 ^ suc k / 2 ≡ a * 2 ^ k = omega (arith, pow_double a k) in
      (
        m,
        rw (ulp_large f (a * 2 ^ suc k) (not-ltb→le _ _ large), half)
            (double (a * 2 ^ k) (a * 2 ^ suc k) m (ulp f (a * 2 ^ k)) (pow_double a k) e),
      )
]

to_multiple-exact : (u m n : ℕ) → 0 < u → n ≡ m * u → to_multiple u n ≡ n
unfolding to_multiple
to_multiple-exact u m n h e =
    let r : n % u ≡ 0 = rw e (mul-mod_left m u) in
    let q : n / u ≡ m = rw e (mul-div_cancel m h) in rw (r, q) (ground arith)

-- A number of at most 24 significant bits is a float.
to_float-exact : (a k : ℕ) → a < 2 ^ 24 → k < 40 → to_float (a * 2 ^ k) ≡ a * 2 ^ k
unfolding to_float
to_float-exact a k h lt =
    let (m, e) = ulp_divides 40 k a h lt in
    to_multiple-exact (ulp 40 (a * 2 ^ k)) m (a * 2 ^ k) (ulp_pos 40 (a * 2 ^ k)) e

ulp_31_bits : (n : ℕ) → 2 ^ 30 ≤ n → n < 2 ^ 31 → ulp 40 n ≡ 128
ulp_31_bits n lo hi = rw (
  ulp_large 39 n (omega arith),
  ulp_large 38 (n / 2) (omega arith),
  ulp_large 37 (n / 2 / 2) (omega arith),
  ulp_large 36 (n / 2 / 2 / 2) (omega arith),
  ulp_large 35 (n / 2 / 2 / 2 / 2) (omega arith),
  ulp_large 34 (n / 2 / 2 / 2 / 2 / 2) (omega arith),
  ulp_large 33 (n / 2 / 2 / 2 / 2 / 2 / 2) (omega arith),
  ulp_small 32 (n / 2 / 2 / 2 / 2 / 2 / 2 / 2) (omega arith),
)

to_multiple_top : (n : ℕ) → 2 ^ 31 - 64 ≤ n → n < 2 ^ 31 → to_multiple 128 n ≡ 2 ^ 31
unfolding to_multiple
to_multiple_top n lo hi = ground arith

-- For a bound below 2 ^ 24 and the greatest 64 results of `rand`, `get_rand` returns the bound itself.
pub get_rand_top :
    (max rand : ℕ)
    → max < 2 ^ 24
    → rand_limit - 64 ≤ rand
    → rand < rand_limit
    → get_rand max rand ≡ max
unfolding get_rand
get_rand_top max rand h lo hi =
    let one : max * 2 ^ 0 ≡ max = omega arith in
    let m : to_float max ≡ max = rw one at (to_float-exact max 0 h (omega arith)) in
    let r : to_float rand ≡ 2 ^ 31 =
      unfold to_float in rw (ulp_31_bits rand (omega arith) hi) (to_multiple_top rand lo hi) in
    rw (m, r, to_float-exact max 31 h (omega arith)) (omega arith)
