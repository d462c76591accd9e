-- ===== src/Clock/Order.antt =====
-- The order of two texts HH:MM is the order of the times.
use chokobot.Clock.{lex_le, format_hora}
use chokobot.Common.{ℕ, ◌+◌, ◌*◌, ◌<◌, ◌≡◌, arith, leb}

-- Two times below a hundred hours are in the order of their texts exactly when they are in the
-- order of their minutes.
pub lex_le-format_hora :
    (h m h' m' : ℕ)
    → h < 100
    → m < 60
    → h' < 100
    → m' < 60
    → lex_le (format_hora h m) (format_hora h' m') ≡ leb (h * 60 + m) (h' * 60 + m')
unfolding lex_le format_hora
lex_le-format_hora h m h' m' p q p' q' = ground arith
