-- ===== src/Receipt/Json.antt =====
-- `json.dumps` of a text, as src/py-inference/src/inference/receipt.py uses it: ASCII only, with
-- `\u` escapes, a pair of them above 0xffff.
use openmodel.Base.{
  ℕ, ◌+◌, ◌-◌, ◌/◌, ◌%◌, ◌&&◌, [], ◌∷◌, ◌++◌, Option, none, some, if◌then◌else◌, ltb, leb, ◌==◌,
}
use openmodel.Base.Text.{Text}

abbrev pub quote : ℕ
quote = b'"'

abbrev pub backslash : ℕ
backslash = b'\\'

unfoldable pub hex_digit : ℕ → ℕ
hex_digit d = if ltb d 10 then b'0' + d else b'a' + (d - 10)

-- Four hexadecimal digits behind `\u`.
unfoldable pub hex4 : ℕ → Text
unfolding hex_digit
hex4 u =
    backslash
    ∷ b'u'
    ∷ hex_digit (u / 4096 % 16)
    ∷ hex_digit (u / 256 % 16)
    ∷ hex_digit (u / 16 % 16)
    ∷ hex_digit (u % 16)
    ∷ []

-- The letter of a short escape.
unfoldable pub short_escape : ℕ → Option ℕ
short_escape c =
    if c == quote
    then some quote
    else if c == backslash
    then some backslash
    else if c == 10
    then some b'n'
    else if c == 13
    then some b'r'
    else if c == 9
    then some b't'
    else if c == 12
    then some b'f'
    else if c == 8
    then some b'b'
    else none

unfoldable pub long_escape : ℕ → Text
unfolding hex4
long_escape c =
    if leb 32 c && leb c 126
    then c ∷ []
    else if ltb c 65536
    then hex4 c
    else hex4 (0xd800 + (c - 65536) / 1024) ++ hex4 (0xdc00 + (c - 65536) % 1024)

unfoldable pub json_char : ℕ → Text
unfolding short_escape long_escape
json_char c = elim (short_escape c) [ some l ↦ backslash ∷ l ∷ [] | none ↦ long_escape c ]

unfoldable pub json_chars : Text → Text
unfolding json_char
json_chars [] = []
json_chars (c ∷ s) = json_char c ++ json_chars s

-- `json.dumps(s)`.
unfoldable pub json_dumps : Text → Text
unfolding json_chars
json_dumps s = quote ∷ (json_chars s ++ quote ∷ [])
