-- ===== src/Legacy/Http/Packet.antt =====
-- The packets that `HTTP::CreatePacket` makes, against a reader that knows nothing of it.
use netdj.Prelude.{
  ℕ, zero, suc, ◌+◌, ◌/◌, ◌%◌, ◌≡◌, ◌≢◌, refl, sym, ap, ◌∙◌, Bool, true, false, not, ◌&&◌, Option,
  none, some, List, [], ◌∷◌, ◌++◌, append_assoc, Text, codes, is_empty, length, All, All-append,
  ◌==◌, leb, if◌then◌else◌, arith, text_eq,
}
use netdj.Legacy.Text.{decimal, decimal_digits, put, text_lt, lookup-put}
use netdj.Legacy.Http.{
  Http, HttpResponse, crlf, content_length, header_line, header_lines, with_length, create_packet,
  create_response_command, create_response_packet, set_body, get_header,
}

true-ne_false : true ≢ false
true-ne_false e = cc

if_both {ℓ κ} :
    {A : Type ℓ} (P : A → Type κ) (b : Bool) {x y : A} → P x → P y → P (if b then x else y)
if_both P true p q = p
if_both P false p q = q

-- A reader of packets: the text behind the first empty line. Its state is how much of CR LF CR LF it
-- has just seen.
abbrev seen : ℕ → ℕ → ℕ
seen state c =
    if c == 13
    then (if state == 2 then 3 else 1)
    else if c == 10
    then (if state == 1 then 2 else if state == 3 then 4 else 0)
    else 0

unfoldable pub body_of : ℕ → Text → Option Text
body_of state [] = none
body_of state (c ∷ s) =
    let more = body_of (seen state c) s in if seen state c == 4 then some s else more

-- No carriage return.
abbrev pub Plain : Text → Type 0
Plain = All (λ c. c ≢ 13)

abbrev pub is_plain : Text → Bool
is_plain [] = true
is_plain (c ∷ t) = not (c == 13) && is_plain t

pub is_plain-Plain : (t : Text) → is_plain t ≡ true → Plain t
is_plain-Plain [] e = tt
is_plain-Plain (c ∷ t) e = (ground arith, is_plain-Plain t (ground arith))

abbrev pub PlainHeader : Text × Text → Type 0
PlainHeader (k, v) = Plain k × Plain v

body_of-Plain : (t r : Text) → Plain t → body_of 0 (t ++ r) ≡ body_of 0 r
unfolding body_of
body_of-Plain [] r h = refl
body_of-Plain (c ∷ t) r (n, h) = ground (arith, body_of-Plain t r h)

body_of-line : (t r : Text) → Plain t → body_of 0 (t ++ (crlf ++ r)) ≡ body_of 2 r
body_of-line t r h = body_of-Plain t (crlf ++ r) h ∙ (unfold body_of in refl)

body_of-next : (c : ℕ) (t r : Text) → c ≢ 13 → body_of 2 (c ∷ (t ++ r)) ≡ body_of 0 (t ++ r)
unfolding body_of
body_of-next c t r n = ground arith

body_of-later :
    (t r : Text) → Plain t → is_empty t ≡ false → body_of 2 (t ++ (crlf ++ r)) ≡ body_of 2 r
body_of-later [] r h e = absurd (true-ne_false e)
body_of-later (c ∷ t) r (n, h) e = body_of-next c t (crlf ++ r) n ∙ body_of-line t r h

header_line-split :
    (k v r : Text) → header_line (k, v) ++ r ≡ (k ++ (codes ": " ++ v)) ++ (crlf ++ r)
header_line-split k v r =
    append_assoc k (codes ": " ++ (v ++ crlf)) r
    ∙ ap (λ t. k ++ (codes ": " ++ t)) (append_assoc v crlf r)
    ∙ sym (append_assoc k (codes ": " ++ v) (crlf ++ r))

header-Plain : (k v : Text) → Plain k → Plain v → Plain (k ++ (codes ": " ++ v))
header-Plain k v hk hv =
    All-append _ k (codes ": " ++ v) hk
      ((λ e. absurd (omega arith)), ((λ e. absurd (omega arith)), hv))

header-filled : (k v : Text) → is_empty (k ++ (codes ": " ++ v)) ≡ false
header-filled [] v = refl
header-filled (c ∷ k) v = refl

body_of-header_lines :
    (m : List (Text × Text)) (r : Text)
    → All PlainHeader m
    → body_of 2 (header_lines m ++ r) ≡ body_of 2 r
unfolding header_lines
body_of-header_lines [] r h = refl
body_of-header_lines ((k, v) ∷ m) r (h, more) =
    ap (body_of 2) (
      append_assoc (header_line (k, v)) (header_lines m) r
      ∙ header_line-split k v (header_lines m ++ r))
    ∙ body_of-later (k ++ (codes ": " ++ v)) (header_lines m ++ r) (header-Plain k v h.0 h.1)
        (header-filled k v)
    ∙ body_of-header_lines m r more

put-All :
    (k v : Text) (m : List (Text × Text))
    → Plain k
    → Plain v
    → All PlainHeader m
    → All PlainHeader (put k v m)
unfolding put
put-All k v [] hk hv h = ((hk, hv), h)
put-All k v ((j, w) ∷ m) hk hv (h, more) =
    let later = put-All k v m hk hv more in
    if_both (All PlainHeader) (text_eq j k) ((hk, hv), more)
      (if_both (All PlainHeader) (text_lt k j) ((hk, hv), (h, more)) (h, later))

decimal_digits-Plain : (fuel n : ℕ) (tail : Text) → Plain tail → Plain (decimal_digits fuel n tail)
unfolding decimal_digits
decimal_digits-Plain zero n tail h = h
decimal_digits-Plain (suc k) n tail h =
    let more =
      decimal_digits-Plain k (n / 10) ((48 + n % 10) ∷ tail) ((λ e. absurd (omega arith)), h) in
    if_both Plain (leb n 9) ((λ e. absurd (omega arith)), h) more

decimal-Plain : (n : ℕ) → Plain (decimal n)
unfolding decimal
decimal-Plain n = decimal_digits-Plain 20 n [] tt

with_length-Plain : (h : Http) → All PlainHeader h.headers → All PlainHeader (with_length h)
unfolding with_length
with_length-Plain h m = if_both (All PlainHeader) (is_empty h.body) m (
    put-All content_length (decimal (length h.body)) h.headers (is_plain-Plain content_length refl)
      (decimal-Plain (length h.body)) m)

-- The first line of a response, without its CR LF.
status_line : HttpResponse → Text
status_line r =
    codes "HTTP/" ++ (r.version ++ (b' ' ∷ (decimal r.status ++ (b' ' ∷ r.description))))

body_of-create_packet :
    (line : Text) (h : Http)
    → Plain line
    → All PlainHeader h.headers
    → body_of 0 (create_packet (line ++ crlf) h).packet ≡ some h.body
unfolding create_packet
body_of-create_packet line h p m =
    ap (body_of 0) (append_assoc line crlf (header_lines (with_length h) ++ (crlf ++ h.body)))
    ∙ body_of-line line (header_lines (with_length h) ++ (crlf ++ h.body)) p
    ∙ body_of-header_lines (with_length h) (crlf ++ h.body) (with_length-Plain h m)
    ∙ (unfold body_of in refl)

status_line-Plain :
    (r : HttpResponse) → Plain r.version → Plain r.description → Plain (status_line r)
unfolding status_line
status_line-Plain r v d = All-append _ (codes "HTTP/") _ (is_plain-Plain (codes "HTTP/") refl) (
    All-append _ r.version _ v
      (blank, All-append _ (decimal r.status) _ (decimal-Plain r.status) (blank, d)))
  where
    blank : ◌≢◌ {A = ℕ} 32 13
    blank e = absurd (omega arith)

status_line_lem : (r : HttpResponse) → create_response_command r ≡ status_line r ++ crlf
unfolding create_response_command status_line
status_line_lem r =
    ap (λ t. codes "HTTP/" ++ t)
      (ap (λ t. r.version ++ (b' ' ∷ t))
          (sym (append_assoc (decimal r.status) (b' ' ∷ r.description) crlf))
        ∙ sym (append_assoc r.version (b' ' ∷ (decimal r.status ++ (b' ' ∷ r.description))) crlf))

-- The response of version, description and headers without carriage returns: the reader finds its
-- body, whatever that is.
pub create_response_packet-body :
    (r : HttpResponse)
    → Plain r.version
    → Plain r.description
    → All PlainHeader r.http.headers
    → body_of 0 (create_response_packet r).http.packet ≡ some r.http.body
unfolding create_response_packet create_response_command
create_response_packet-body r v d m =
    ap (λ t. body_of 0 (create_packet t r.http).packet) (status_line_lem r)
    ∙ body_of-create_packet (status_line r) r.http (status_line-Plain r v d) m

-- A response that had a body, is given an empty one and is made a packet again still has the length
-- of the body before in its headers.
pub create_packet-empty_body :
    (line : Text) (h : Http)
    → is_empty h.body ≡ false
    → get_header content_length (create_packet line (set_body [] (create_packet line h)))
      ≡ some (decimal (length h.body))
unfolding create_packet with_length text_eq
create_packet-empty_body line h e =
    rw e (lookup-put content_length content_length (decimal (length h.body)) h.headers)
