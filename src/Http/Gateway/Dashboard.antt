-- ===== src/Http/Gateway/Dashboard.antt =====
-- The dashboard, a constant text in lib/ic0/canister_entry.c.
use idris2_ouc.Base.{ℕ, List, [], ◌∷◌}

unfoldable pub dashboard_html : List ℕ
dashboard_html =
    b'<' ∷ b'!' ∷ b'D' ∷ b'O' ∷ b'C' ∷ b'T' ∷ b'Y' ∷ b'P' ∷ b'E' ∷ b' ' ∷ b'h' ∷ b't' ∷ b'm' ∷ b'l'
    ∷ b'>' ∷ b'<' ∷ b'h' ∷ b't' ∷ b'm' ∷ b'l' ∷ b'>' ∷ b'<' ∷ b'h' ∷ b'e' ∷ b'a' ∷ b'd' ∷ b'>'
    ∷ b'<' ∷ b't' ∷ b'i' ∷ b't' ∷ b'l' ∷ b'e' ∷ b'>' ∷ b'O' ∷ b'U' ∷ b'C' ∷ b' ' ∷ b'D' ∷ b'a'
    ∷ b's' ∷ b'h' ∷ b'b' ∷ b'o' ∷ b'a' ∷ b'r' ∷ b'd' ∷ b'<' ∷ b'/' ∷ b't' ∷ b'i' ∷ b't' ∷ b'l'
    ∷ b'e' ∷ b'>' ∷ b'<' ∷ b's' ∷ b't' ∷ b'y' ∷ b'l' ∷ b'e' ∷ b'>' ∷ b'b' ∷ b'o' ∷ b'd' ∷ b'y'
    ∷ b'{' ∷ b'f' ∷ b'o' ∷ b'n' ∷ b't' ∷ b'-' ∷ b'f' ∷ b'a' ∷ b'm' ∷ b'i' ∷ b'l' ∷ b'y' ∷ b':'
    ∷ b's' ∷ b'y' ∷ b's' ∷ b't' ∷ b'e' ∷ b'm' ∷ b'-' ∷ b'u' ∷ b'i' ∷ b';' ∷ b'm' ∷ b'a' ∷ b'x'
    ∷ b'-' ∷ b'w' ∷ b'i' ∷ b'd' ∷ b't' ∷ b'h' ∷ b':' ∷ b'8' ∷ b'0' ∷ b'0' ∷ b'p' ∷ b'x' ∷ b';'
    ∷ b'm' ∷ b'a' ∷ b'r' ∷ b'g' ∷ b'i' ∷ b'n' ∷ b':' ∷ b'4' ∷ b'0' ∷ b'p' ∷ b'x' ∷ b' ' ∷ b'a'
    ∷ b'u' ∷ b't' ∷ b'o' ∷ b';' ∷ b'p' ∷ b'a' ∷ b'd' ∷ b'd' ∷ b'i' ∷ b'n' ∷ b'g' ∷ b':' ∷ b'0'
    ∷ b' ' ∷ b'2' ∷ b'0' ∷ b'p' ∷ b'x' ∷ b';' ∷ b'}' ∷ b'h' ∷ b'1' ∷ b'{' ∷ b'c' ∷ b'o' ∷ b'l'
    ∷ b'o' ∷ b'r' ∷ b':' ∷ b'#' ∷ b'3' ∷ b'3' ∷ b'3' ∷ b'}' ∷ b'p' ∷ b'r' ∷ b'e' ∷ b'{' ∷ b'b'
    ∷ b'a' ∷ b'c' ∷ b'k' ∷ b'g' ∷ b'r' ∷ b'o' ∷ b'u' ∷ b'n' ∷ b'd' ∷ b':' ∷ b'#' ∷ b'f' ∷ b'5'
    ∷ b'f' ∷ b'5' ∷ b'f' ∷ b'5' ∷ b';' ∷ b'p' ∷ b'a' ∷ b'd' ∷ b'd' ∷ b'i' ∷ b'n' ∷ b'g' ∷ b':'
    ∷ b'1' ∷ b'5' ∷ b'p' ∷ b'x' ∷ b';' ∷ b'b' ∷ b'o' ∷ b'r' ∷ b'd' ∷ b'e' ∷ b'r' ∷ b'-' ∷ b'r'
    ∷ b'a' ∷ b'd' ∷ b'i' ∷ b'u' ∷ b's' ∷ b':' ∷ b'5' ∷ b'p' ∷ b'x' ∷ b';' ∷ b'o' ∷ b'v' ∷ b'e'
    ∷ b'r' ∷ b'f' ∷ b'l' ∷ b'o' ∷ b'w' ∷ b':' ∷ b'a' ∷ b'u' ∷ b't' ∷ b'o' ∷ b';' ∷ b'}' ∷ b'.'
    ∷ b's' ∷ b't' ∷ b'a' ∷ b't' ∷ b'u' ∷ b's' ∷ b'{' ∷ b'c' ∷ b'o' ∷ b'l' ∷ b'o' ∷ b'r' ∷ b':'
    ∷ b'#' ∷ b'2' ∷ b'2' ∷ b'c' ∷ b'5' ∷ b'5' ∷ b'e' ∷ b';' ∷ b'f' ∷ b'o' ∷ b'n' ∷ b't' ∷ b'-'
    ∷ b'w' ∷ b'e' ∷ b'i' ∷ b'g' ∷ b'h' ∷ b't' ∷ b':' ∷ b'b' ∷ b'o' ∷ b'l' ∷ b'd' ∷ b'}' ∷ b'<'
    ∷ b'/' ∷ b's' ∷ b't' ∷ b'y' ∷ b'l' ∷ b'e' ∷ b'>' ∷ b'<' ∷ b'/' ∷ b'h' ∷ b'e' ∷ b'a' ∷ b'd'
    ∷ b'>' ∷ b'<' ∷ b'b' ∷ b'o' ∷ b'd' ∷ b'y' ∷ b'>' ∷ b'<' ∷ b'h' ∷ b'1' ∷ b'>' ∷ b'O' ∷ b'U'
    ∷ b'C' ∷ b' ' ∷ b'D' ∷ b'a' ∷ b's' ∷ b'h' ∷ b'b' ∷ b'o' ∷ b'a' ∷ b'r' ∷ b'd' ∷ b'<' ∷ b'/'
    ∷ b'h' ∷ b'1' ∷ b'>' ∷ b'<' ∷ b'p' ∷ b'>' ∷ b'C' ∷ b'a' ∷ b'n' ∷ b'i' ∷ b's' ∷ b't' ∷ b'e'
    ∷ b'r' ∷ b' ' ∷ b'I' ∷ b'D' ∷ b':' ∷ b' ' ∷ b'<' ∷ b'c' ∷ b'o' ∷ b'd' ∷ b'e' ∷ b'>' ∷ b'n'
    ∷ b'r' ∷ b'k' ∷ b'o' ∷ b'u' ∷ b'-' ∷ b'h' ∷ b'q' ∷ b'a' ∷ b'a' ∷ b'a' ∷ b'-' ∷ b'a' ∷ b'a'
    ∷ b'a' ∷ b'a' ∷ b'h' ∷ b'-' ∷ b'q' ∷ b'q' ∷ b'6' ∷ b'q' ∷ b'a' ∷ b'-' ∷ b'c' ∷ b'a' ∷ b'i'
    ∷ b'<' ∷ b'/' ∷ b'c' ∷ b'o' ∷ b'd' ∷ b'e' ∷ b'>' ∷ b'<' ∷ b'/' ∷ b'p' ∷ b'>' ∷ b'<' ∷ b'p'
    ∷ b'>' ∷ b'S' ∷ b't' ∷ b'a' ∷ b't' ∷ b'u' ∷ b's' ∷ b':' ∷ b' ' ∷ b'<' ∷ b's' ∷ b'p' ∷ b'a'
    ∷ b'n' ∷ b' ' ∷ b'c' ∷ b'l' ∷ b'a' ∷ b's' ∷ b's' ∷ b'=' ∷ b'"' ∷ b's' ∷ b't' ∷ b'a' ∷ b't'
    ∷ b'u' ∷ b's' ∷ b'"' ∷ b'>' ∷ b'R' ∷ b'u' ∷ b'n' ∷ b'n' ∷ b'i' ∷ b'n' ∷ b'g' ∷ b'<' ∷ b'/'
    ∷ b's' ∷ b'p' ∷ b'a' ∷ b'n' ∷ b'>' ∷ b'<' ∷ b'/' ∷ b'p' ∷ b'>' ∷ b'<' ∷ b'h' ∷ b'2' ∷ b'>'
    ∷ b'A' ∷ b'P' ∷ b'I' ∷ b' ' ∷ b'E' ∷ b'n' ∷ b'd' ∷ b'p' ∷ b'o' ∷ b'i' ∷ b'n' ∷ b't' ∷ b's'
    ∷ b'<' ∷ b'/' ∷ b'h' ∷ b'2' ∷ b'>' ∷ b'<' ∷ b'u' ∷ b'l' ∷ b'>' ∷ b'<' ∷ b'l' ∷ b'i' ∷ b'>'
    ∷ b'<' ∷ b'a' ∷ b' ' ∷ b'h' ∷ b'r' ∷ b'e' ∷ b'f' ∷ b'=' ∷ b'"' ∷ b'/' ∷ b'a' ∷ b'p' ∷ b'i'
    ∷ b'/' ∷ b's' ∷ b't' ∷ b'a' ∷ b't' ∷ b'u' ∷ b's' ∷ b'"' ∷ b'>' ∷ b'/' ∷ b'a' ∷ b'p' ∷ b'i'
    ∷ b'/' ∷ b's' ∷ b't' ∷ b'a' ∷ b't' ∷ b'u' ∷ b's' ∷ b'<' ∷ b'/' ∷ b'a' ∷ b'>' ∷ b' ' ∷ b'-'
    ∷ b' ' ∷ b'J' ∷ b'S' ∷ b'O' ∷ b'N' ∷ b' ' ∷ b's' ∷ b't' ∷ b'a' ∷ b't' ∷ b'u' ∷ b's' ∷ b'<'
    ∷ b'/' ∷ b'l' ∷ b'i' ∷ b'>' ∷ b'<' ∷ b'/' ∷ b'u' ∷ b'l' ∷ b'>' ∷ b'<' ∷ b'h' ∷ b'2' ∷ b'>'
    ∷ b'C' ∷ b'a' ∷ b'n' ∷ b'i' ∷ b's' ∷ b't' ∷ b'e' ∷ b'r' ∷ b' ' ∷ b'M' ∷ b'e' ∷ b't' ∷ b'h'
    ∷ b'o' ∷ b'd' ∷ b's' ∷ b'<' ∷ b'/' ∷ b'h' ∷ b'2' ∷ b'>' ∷ b'<' ∷ b'u' ∷ b'l' ∷ b'>' ∷ b'<'
    ∷ b'l' ∷ b'i' ∷ b'>' ∷ b'<' ∷ b'c' ∷ b'o' ∷ b'd' ∷ b'e' ∷ b'>' ∷ b'q' ∷ b'u' ∷ b'e' ∷ b'r'
    ∷ b'y' ∷ b'D' ∷ b'i' ∷ b'c' ∷ b't' ∷ b'i' ∷ b'o' ∷ b'n' ∷ b'a' ∷ b'r' ∷ b'y' ∷ b'(' ∷ b'd'
    ∷ b'i' ∷ b'c' ∷ b't' ∷ b',' ∷ b' ' ∷ b's' ∷ b'e' ∷ b'l' ∷ b'e' ∷ b'c' ∷ b't' ∷ b'o' ∷ b'r'
    ∷ b')' ∷ b'<' ∷ b'/' ∷ b'c' ∷ b'o' ∷ b'd' ∷ b'e' ∷ b'>' ∷ b' ' ∷ b'-' ∷ b' ' ∷ b'Q' ∷ b'u'
    ∷ b'e' ∷ b'r' ∷ b'y' ∷ b' ' ∷ b'E' ∷ b'R' ∷ b'C' ∷ b'-' ∷ b'2' ∷ b'5' ∷ b'3' ∷ b'5' ∷ b' '
    ∷ b'D' ∷ b'i' ∷ b'a' ∷ b'm' ∷ b'o' ∷ b'n' ∷ b'd' ∷ b' ' ∷ b'f' ∷ b'a' ∷ b'c' ∷ b'e' ∷ b't'
    ∷ b'<' ∷ b'/' ∷ b'l' ∷ b'i' ∷ b'>' ∷ b'<' ∷ b'l' ∷ b'i' ∷ b'>' ∷ b'<' ∷ b'c' ∷ b'o' ∷ b'd'
    ∷ b'e' ∷ b'>' ∷ b't' ∷ b'e' ∷ b's' ∷ b't' ∷ b'E' ∷ b'v' ∷ b'm' ∷ b'R' ∷ b'p' ∷ b'c' ∷ b'('
    ∷ b')' ∷ b'<' ∷ b'/' ∷ b'c' ∷ b'o' ∷ b'd' ∷ b'e' ∷ b'>' ∷ b' ' ∷ b'-' ∷ b' ' ∷ b'T' ∷ b'e'
    ∷ b's' ∷ b't' ∷ b' ' ∷ b'E' ∷ b'V' ∷ b'M' ∷ b' ' ∷ b'R' ∷ b'P' ∷ b'C' ∷ b' ' ∷ b'i' ∷ b'n'
    ∷ b't' ∷ b'e' ∷ b'g' ∷ b'r' ∷ b'a' ∷ b't' ∷ b'i' ∷ b'o' ∷ b'n' ∷ b'<' ∷ b'/' ∷ b'l' ∷ b'i'
    ∷ b'>' ∷ b'<' ∷ b'l' ∷ b'i' ∷ b'>' ∷ b'<' ∷ b'c' ∷ b'o' ∷ b'd' ∷ b'e' ∷ b'>' ∷ b'g' ∷ b'e'
    ∷ b't' ∷ b'V' ∷ b'e' ∷ b'r' ∷ b's' ∷ b'i' ∷ b'o' ∷ b'n' ∷ b'(' ∷ b')' ∷ b'<' ∷ b'/' ∷ b'c'
    ∷ b'o' ∷ b'd' ∷ b'e' ∷ b'>' ∷ b' ' ∷ b'-' ∷ b' ' ∷ b'G' ∷ b'e' ∷ b't' ∷ b' ' ∷ b'c' ∷ b'a'
    ∷ b'n' ∷ b'i' ∷ b's' ∷ b't' ∷ b'e' ∷ b'r' ∷ b' ' ∷ b'v' ∷ b'e' ∷ b'r' ∷ b's' ∷ b'i' ∷ b'o'
    ∷ b'n' ∷ b'<' ∷ b'/' ∷ b'l' ∷ b'i' ∷ b'>' ∷ b'<' ∷ b'/' ∷ b'u' ∷ b'l' ∷ b'>' ∷ b'<' ∷ b'/'
    ∷ b'b' ∷ b'o' ∷ b'd' ∷ b'y' ∷ b'>' ∷ b'<' ∷ b'/' ∷ b'h' ∷ b't' ∷ b'm' ∷ b'l' ∷ b'>' ∷ []
