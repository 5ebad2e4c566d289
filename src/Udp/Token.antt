-- ===== src/Udp/Token.antt =====
-- src/udp.rs, `encode_hello_token` and `parse_hello_token`: the routing token as hex text. Text is
-- a list of ASCII codes; `u8::from_str_radix` is Rust's, which allows a leading plus sign.
use xfr.Prelude.{
  ℕ, ◌+◌, ◌-◌, ◌*◌, ◌/◌, ◌%◌, ◌<◌, ◌≡◌, refl, Bool, true, false, not, ◌&&◌, ◌||◌, Option, none,
  some, List, [], ◌∷◌, length, arith, ltb, leb, ◌==◌, if◌then◌else◌,
}
use xfr.Prelude.Bytes.{AllBytes}

-- a digit of `{:02x}`
unfoldable pub hex_digit : ℕ → ℕ
hex_digit d = if ltb d 10 then b'0' + d else b'a' + (d - 10)

-- token.iter().map(|b| format!("{:02x}", b)).collect()
unfoldable pub encode_hello_token : List ℕ → List ℕ
encode_hello_token [] = []
encode_hello_token (b ∷ token) = hex_digit (b / 16) ∷ hex_digit (b % 16) ∷ encode_hello_token token

-- char::to_digit(16)
unfoldable pub hex_value : ℕ → Option ℕ
hex_value c =
    if leb b'0' c && leb c b'9'
    then some (c - b'0')
    else if leb b'a' c && leb c b'f'
    then some (c - b'a' + 10)
    else if leb b'A' c && leb c b'F'
    then some (c - b'A' + 10)
    else none

abbrev pub both_digits : Option ℕ → Option ℕ → Option ℕ
both_digits (some hi) (some lo) = some (hi * 16 + lo)
both_digits (some hi) none = none
both_digits none lo = none

-- u8::from_str_radix(chunk, 16) for a chunk of two characters
unfoldable pub parse_chunk : ℕ → ℕ → Option ℕ
parse_chunk c d = if c == b'+' then hex_value d else both_digits (hex_value c) (hex_value d)

abbrev pub cons_byte : Option ℕ → Option (List ℕ) → Option (List ℕ)
cons_byte (some b) (some rest) = some (b ∷ rest)
cons_byte (some b) none = none
cons_byte none rest = none

-- the loop over `chunks(2)`; the length has been tested to be even
unfoldable pub parse_chunks : List ℕ → Option (List ℕ)
parse_chunks [] = some []
parse_chunks (c ∷ []) = none
parse_chunks (c ∷ d ∷ rest) = cons_byte (parse_chunk c d) (parse_chunks rest)

unfoldable pub is_ascii : List ℕ → Bool
is_ascii [] = true
is_ascii (c ∷ s) = ltb c 128 && is_ascii s

unfoldable pub parse_hello_token : List ℕ → Option (List ℕ)
parse_hello_token s = if not (length s == 32) || not (is_ascii s) then none else parse_chunks s

hex_value-hex_digit : (d : ℕ) → d < 16 → hex_value (hex_digit d) ≡ some d
unfolding hex_value hex_digit
hex_value-hex_digit d h = ground arith

hex_digit_ascii :
    (d : ℕ) → d < 16 → (ltb (hex_digit d) 128 ≡ true) × ((hex_digit d == b'+') ≡ false)
unfolding hex_digit
hex_digit_ascii d h = (ground arith, ground arith)

parse_chunks-encode :
    (token : List ℕ) → AllBytes token → parse_chunks (encode_hello_token token) ≡ some token
unfolding parse_chunks encode_hello_token parse_chunk
parse_chunks-encode [] h = refl
parse_chunks-encode (b ∷ token) h =
    rw
      (
        (hex_digit_ascii (b / 16) (omega arith)).1,
        hex_value-hex_digit (b / 16) (omega arith),
        hex_value-hex_digit (b % 16) (omega arith),
        parse_chunks-encode token h.1,
      )
      (let e : b / 16 * 16 + b % 16 ≡ b = omega arith in rw e refl)

is_ascii-encode : (token : List ℕ) → AllBytes token → is_ascii (encode_hello_token token) ≡ true
unfolding is_ascii encode_hello_token
is_ascii-encode [] h = refl
is_ascii-encode (b ∷ token) h = ground (
  arith,
  hex_digit_ascii (b / 16) (omega arith),
  hex_digit_ascii (b % 16) (omega arith),
  is_ascii-encode token h.1,
)

length-encode_hello_token : (token : List ℕ) → length (encode_hello_token token) ≡ 2 * length token
unfolding encode_hello_token
length-encode_hello_token [] = refl
length-encode_hello_token (b ∷ token) = omega (arith, length-encode_hello_token token)

-- A token of 16 bytes survives the trip through its hex text.
pub parse-encode_hello_token :
    (token : List ℕ)
    → AllBytes token
    → length token ≡ 16
    → parse_hello_token (encode_hello_token token) ≡ some token
unfolding parse_hello_token
parse-encode_hello_token token bytes size = ground (
  arith,
  length-encode_hello_token token,
  is_ascii-encode token bytes,
  parse_chunks-encode token bytes,
)

-- the text `+a+b+c` for the digits `abc`
abbrev pub with_plus_signs : List ℕ → List ℕ
with_plus_signs [] = []
with_plus_signs (c ∷ digits) = b'+' ∷ c ∷ with_plus_signs digits

abbrev pub AllHex : List ℕ → List ℕ → Type 0
AllHex [] [] = Unit
AllHex [] (v ∷ values) = ⊥
AllHex (c ∷ digits) [] = ⊥
AllHex (c ∷ digits) (v ∷ values) = (hex_value c ≡ some v) × AllHex digits values

parse_chunks-plus :
    (digits values : List ℕ)
    → AllHex digits values
    → parse_chunks (with_plus_signs digits) ≡ some values
unfolding parse_chunks parse_chunk
parse_chunks-plus [] [] h = refl
parse_chunks-plus [] (v ∷ values) h = absurd h
parse_chunks-plus (c ∷ digits) [] h = absurd h
parse_chunks-plus (c ∷ digits) (v ∷ values) h = rw (h.0, parse_chunks-plus digits values h.1) refl

hex_ascii : (c v : ℕ) → hex_value c ≡ some v → ltb c 128 ≡ true
unfolding hex_value
hex_ascii c v h = ground arith

is_ascii-plus :
    (digits values : List ℕ) → AllHex digits values → is_ascii (with_plus_signs digits) ≡ true
unfolding is_ascii
is_ascii-plus [] [] h = refl
is_ascii-plus [] (v ∷ values) h = absurd h
is_ascii-plus (c ∷ digits) [] h = absurd h
is_ascii-plus (c ∷ digits) (v ∷ values) h =
    ground (arith, hex_ascii c v h.0, is_ascii-plus digits values h.1)

length-plus : (digits : List ℕ) → length (with_plus_signs digits) ≡ 2 * length digits
length-plus [] = refl
length-plus (c ∷ digits) = omega (arith, length-plus digits)

-- The parser also takes texts that are not 32 hex digits: any 16 hex digits, each behind a plus
-- sign, parse as the token of those digits' values.
pub parse_hello_token-plus :
    (digits values : List ℕ)
    → AllHex digits values
    → length digits ≡ 16
    → parse_hello_token (with_plus_signs digits) ≡ some values
unfolding parse_hello_token
parse_hello_token-plus digits values hex size = ground (
  arith,
  length-plus digits,
  is_ascii-plus digits values hex,
  parse_chunks-plus digits values hex,
)
