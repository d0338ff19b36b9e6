-- ===== src/Registry/Digest/Hex.antt =====
-- encoding/hex: the two directions, and that decoding inverts encoding.
use regixtry.Base.{
  ℕ, zero, suc, ◌+◌, ◌-◌, ◌*◌, ◌<◌, ◌&&◌, List, [], ◌∷◌, Option, none, some, ◌≡◌, refl, Text, leb,
  if◌then◌else◌, length, len, All, arith, ltb,
}
use Prim.Native.Nat.{◌/◌, ◌%◌}

unfoldable pub hex_value : ℕ → Option ℕ
hex_value c =
    if leb b'0' c && leb c b'9'
    then some (c - b'0')
    else if leb b'a' c && leb c b'f'
    then some (c - b'a' + 10)
    else if leb b'A' c && leb c b'F'
    then some (c - b'A' + 10)
    else none

abbrev pub pair : Option ℕ → Option ℕ → Option (List ℕ) → Option (List ℕ)
pair (some x) (some y) (some r) = some ((x * 16 + y) ∷ r)
pair _ _ _ = none

-- hex.DecodeString: fails on a digit that is none, and on an odd length
unfoldable pub hex_decode : Text → Option (List ℕ)
unfolding hex_value
hex_decode [] = some []
hex_decode (a ∷ []) = none
hex_decode (a ∷ b ∷ s) = pair (hex_value a) (hex_value b) (hex_decode s)

unfoldable pub hex_digit : ℕ → ℕ
hex_digit x = if ltb x 10 then b'0' + x else b'a' + x - 10

-- hex.EncodeToString
unfoldable pub hex_encode : List ℕ → Text
unfolding hex_digit
hex_encode [] = []
hex_encode (x ∷ r) = hex_digit (x / 16) ∷ hex_digit (x % 16) ∷ hex_encode r

abbrev pub IsByte : ℕ → Type 0
IsByte x = x < 256

pub hex_value-digit : (x : ℕ) → x < 16 → hex_value (hex_digit x) ≡ some x
unfolding hex_value hex_digit
hex_value-digit x h = ground arith

div_mod : (x : ℕ) → x / 16 * 16 + x % 16 ≡ x
div_mod x = omega arith

-- Decoding the encoding of bytes gives the bytes back.
pub hex_decode-encode : (bs : List ℕ) → All IsByte bs → hex_decode (hex_encode bs) ≡ some bs
unfolding hex_decode hex_encode
hex_decode-encode [] h = refl
hex_decode-encode (x ∷ r) h =
    rw
      (
        hex_value-digit (x / 16) (omega arith),
        hex_value-digit (x % 16) (omega arith),
        hex_decode-encode r h.1,
      )
      (rw (div_mod x))

-- The digits that DecodeString reads.
abbrev pub IsHex : ℕ → Type 0
IsHex c = (x : ℕ) × (hex_value c ≡ some x)

hex_digit-lt : (x : ℕ) → x < 16 → hex_digit x < 128
unfolding hex_digit
hex_digit-lt x h = ground arith

-- Hexadecimal text is twice as long as the bytes, in characters and in bytes of UTF-8.
pub len-hex_encode : (bs : List ℕ) → All IsByte bs → len (hex_encode bs) ≡ 2 * length bs
unfolding hex_encode len
len-hex_encode [] h = refl
len-hex_encode (x ∷ r) h = ground (
  arith,
  len-hex_encode r h.1,
  hex_digit-lt (x / 16) (omega arith),
  hex_digit-lt (x % 16) (omega arith),
)

pair_inv :
    (p q : Option ℕ) (r : Option (List ℕ)) {bs : List ℕ}
    → pair p q r ≡ some bs
    → ((x : ℕ) × (p ≡ some x)) × ((y : ℕ) × (q ≡ some y)) × ((cs : List ℕ) × (r ≡ some cs))
pair_inv (some x) (some y) (some r) h = ((x, refl), (y, refl), (r, refl))
pair_inv none q r h = absurd (cc)
pair_inv (some x) none r h = absurd (cc)
pair_inv (some x) (some y) none h = absurd (cc)

pub hex_decode-IsHex : (s : Text) {bs : List ℕ} → hex_decode s ≡ some bs → All IsHex s
unfolding hex_decode
hex_decode-IsHex [] h = tt
hex_decode-IsHex (a ∷ []) h = absurd (cc)
hex_decode-IsHex (a ∷ b ∷ s) h =
    let (x, y, (cs, e)) = pair_inv (hex_value a) (hex_value b) (hex_decode s) h in
    (x, (y, hex_decode-IsHex s e))

pub IsHex-decodes :
    (n : ℕ) (s : Text) → length s ≡ n + n → All IsHex s → (bs : List ℕ) × (hex_decode s ≡ some bs)
unfolding hex_decode
IsHex-decodes n [] h k = ([], refl)
IsHex-decodes n (a ∷ []) h k = absurd (omega arith)
IsHex-decodes zero (a ∷ b ∷ s) h k = absurd (omega arith)
IsHex-decodes (suc n) (a ∷ b ∷ s) h ((x, e), ((y, f), k)) =
    let (bs, g) = IsHex-decodes n s (omega arith) k in ((x * 16 + y) ∷ bs, rw (e, f, g))

-- A hexadecimal digit is one byte of UTF-8.
pub len-IsHex : (s : Text) → All IsHex s → len s ≡ length s
unfolding len hex_value
len-IsHex [] h = refl
len-IsHex (c ∷ s) ((x, e), h) = ground (arith, len-IsHex s h)
