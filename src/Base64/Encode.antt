-- ===== src/Base64/Encode.antt =====
-- An independent encoder, RFC 4648 section 4, that the decoder is compared with.
use netdj.Prelude.{ℕ, ◌+◌, ◌*◌, ◌/◌, ◌%◌, [], ◌∷◌, Text, get_or}
use netdj.Base64.{alphabet}

unfoldable pub symbol : ℕ → ℕ
symbol v = get_or alphabet v 0

unfoldable pub encode : Text → Text
unfolding symbol
encode [] = []
encode (a ∷ []) = symbol (a / 4) ∷ symbol (a % 4 * 16) ∷ b'=' ∷ b'=' ∷ []
encode (a ∷ b ∷ []) =
    symbol (a / 4) ∷ symbol (a % 4 * 16 + b / 16) ∷ symbol (b % 16 * 4) ∷ b'=' ∷ []
encode (a ∷ b ∷ c ∷ rest) =
    symbol (a / 4)
    ∷ symbol (a % 4 * 16 + b / 16)
    ∷ symbol (b % 16 * 4 + c / 64)
    ∷ symbol (c % 64)
    ∷ encode rest
