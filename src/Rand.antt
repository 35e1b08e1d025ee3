-- ===== src/Rand.antt =====
-- `get_rand` of netdj2/engine/util.cpp and netdj/src/util.cc. The result of `rand` is an argument,
-- below `rand_limit` (glibc's RAND_MAX + 1). The product is computed in a float of 24 bits, rounded to
-- the nearest and to even between two, and then divided exactly in a double.
pub mod Bounds
use netdj.Prelude.{ℕ, zero, suc, ◌+◌, ◌*◌, ◌/◌, ◌%◌, ◌^◌, ltb, ◌==◌, if◌then◌else◌}

abbrev pub rand_limit : ℕ
rand_limit = 2 ^ 31

-- The distance of the floats about `n`: 1, doubled for each bit of `n` above the 24th.
ulp : ℕ → ℕ → ℕ
ulp zero n = 1
ulp (suc fuel) n = let more = 2 * ulp fuel (n / 2) in if ltb n (2 ^ 24) then 1 else more

-- `n` to the nearest multiple of `u`, between two of them to the even one
to_multiple : ℕ → ℕ → ℕ
to_multiple u n =
    let q = n / u in
    let r = n % u in
    if ltb (2 * r) u
    then q * u
    else if ltb u (2 * r)
    then (q + 1) * u
    else if q % 2 == 0
    then q * u
    else (q + 1) * u

-- the value of an integer or a product below 2 ^ 64 as a float
to_float : ℕ → ℕ
unfolding ulp to_multiple
to_float n = to_multiple (ulp 40 n) n

unfoldable pub get_rand : ℕ → ℕ → ℕ
unfolding to_float
get_rand max rand = to_float (to_float max * to_float rand) / rand_limit
