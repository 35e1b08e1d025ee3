-- ===== src/Legacy/Regex/Loops.antt =====
-- The loops of netdj/src/HTTP.cc over the matches of a regular expression end.
use netdj.Prelude.{
  ℕ, zero, suc, ◌+◌, ◌≤◌, ◌≡◌, refl, sym, ap, ◌∙◌, List, [], ◌∷◌, Text, length, drop, Option-cases,
  inl, inr, arith,
}
use netdj.Legacy.Http.{headerreg, paramreg}
use netdj.Legacy.Http.Parse.{parse_headers, put_header, parse_params, put_param}
use netdj.Legacy.Regex.{RegExec, EndsWithin, exec_of, exec_of-ends}

length-drop : (n : ℕ) (s : Text) → n ≤ length s → n + length (drop n s) ≡ length s
length-drop zero s h = omega arith
length-drop (suc n) [] h = absurd (omega arith)
length-drop (suc n) (c ∷ s) h = let ih = length-drop n s (omega arith) in omega arith

module _ (regexec : RegExec) (law : EndsWithin regexec) where
  parse_headers-suc :
      (n : ℕ) (st : Text) (pos : ℕ) (m : List (Text × Text))
      → length st ≤ n
      → parse_headers (exec_of regexec) n st pos m
        ≡ parse_headers (exec_of regexec) (suc n) st pos m
  unfolding parse_headers
  parse_headers-suc zero st pos m h = elim (Option-cases (exec_of regexec headerreg st)) [
    | inl e ↦ rw (parse_headers, e) refl
    | inr ((end, line), e) ↦
        let (a, b) = exec_of-ends regexec headerreg st end line law e in absurd (omega arith)
  ]
  parse_headers-suc (suc n) st pos m h = elim (Option-cases (exec_of regexec headerreg st)) [
    | inl e ↦ rw (parse_headers, e) refl
    | inr ((end, line), e) ↦
        let (a, b) = exec_of-ends regexec headerreg st end line law e in
        let c = length-drop end st b in
        rw (parse_headers, e)
          (parse_headers-suc n (drop end st) (pos + end) (put_header line m) (omega arith))
  ]

  -- The loop of ParseHeaders ends: with all fuel beyond the length of the text the headers and where
  -- they end are the same.
  pub parse_headers-enough :
      (k : ℕ) (st : Text) (pos : ℕ) (m : List (Text × Text))
      → parse_headers (exec_of regexec) (k + length st) st pos m
        ≡ parse_headers (exec_of regexec) (length st) st pos m
  parse_headers-enough zero st pos m =
      ap (λ n. parse_headers (exec_of regexec) n st pos m) (omega arith)
  parse_headers-enough (suc k) st pos m =
      ap (λ n. parse_headers (exec_of regexec) n st pos m) (omega arith)
      ∙ sym (parse_headers-suc (k + length st) st pos m (omega arith))
      ∙ parse_headers-enough k st pos m

  parse_params-suc :
      (n : ℕ) (st : Text) (m : List (Text × Text))
      → length st ≤ n
      → parse_params (exec_of regexec) n st m ≡ parse_params (exec_of regexec) (suc n) st m
  unfolding parse_params
  parse_params-suc zero st m h = elim (Option-cases (exec_of regexec paramreg st)) [
    | inl e ↦ rw (parse_params, e) refl
    | inr ((end, line), e) ↦
        let (a, b) = exec_of-ends regexec paramreg st end line law e in absurd (omega arith)
  ]
  parse_params-suc (suc n) st m h = elim (Option-cases (exec_of regexec paramreg st)) [
    | inl e ↦ rw (parse_params, e) refl
    | inr ((end, line), e) ↦
        let (a, b) = exec_of-ends regexec paramreg st end line law e in
        let c = length-drop end st b in
        rw (parse_params, e) (parse_params-suc n (drop end st) (put_param line m) (omega arith))
  ]

  -- So does the loop over the parameters of a URI.
  pub parse_params-enough :
      (k : ℕ) (st : Text) (m : List (Text × Text))
      → parse_params (exec_of regexec) (k + length st) st m
        ≡ parse_params (exec_of regexec) (length st) st m
  parse_params-enough zero st m = ap (λ n. parse_params (exec_of regexec) n st m) (omega arith)
  parse_params-enough (suc k) st m =
      ap (λ n. parse_params (exec_of regexec) n st m) (omega arith)
      ∙ sym (parse_params-suc (k + length st) st m (omega arith))
      ∙ parse_params-enough k st m
