-- ===== src/Chat/Header.antt =====
-- What the header's text says, and why a header that `encode_header` wrote is not decoded.
use exec.Base.{ℕ, ◌<◌, ◌≡◌, none, ◌>>=◌, arith}
use exec.Base.Int.{pos}
use exec.Chat.Message.{ChatMessage, format_4d, encode_header, decode_header, atoi}

-- The text of a header is the decimal number it was made from.
pub atoi-format_4d : (n : ℕ) → n < 10000 → atoi (format_4d n) ≡ pos n
unfolding format_4d
atoi-format_4d n h = ground arith

-- `decode_header` of a message whose header `encode_header` wrote stops the program, whatever the
-- message: `strncat_s` is told that the buffer has four bytes, and four characters need five.
pub encode-decode_stops :
    (m : ChatMessage) → m.body_length < 10000 → (do m' ← encode_header m; decode_header m') ≡ none
unfolding encode_header decode_header format_4d
encode-decode_stops m h = ground arith
