-- ===== src/Controllers/Workload/Base64.antt =====
-- encoding/base64 as `ensureValidJSON` of controllers/dockyardsworkload_controller.go uses it, against a
-- decoder.
use dockyards_flux.Base.{
  ℕ, false, Option, none, some, [], ◌∷◌, ◌++◌, ◌≡◌, refl, arith, ◌+◌, ◌-◌, ◌*◌, ◌/◌, ◌%◌, ◌<◌, All,
  leb, eqb, if◌then◌else◌, ◌&&◌,
}
use dockyards_flux.Base.Partial.{◌>>=◌, IsByte}
use dockyards_flux.Api.Objects.{Bytes}
use dockyards_flux.Controllers.Workload.Json.{encode_digit, encode_to_string}

-- The value of a character of the alphabet of RFC 4648.
abbrev digit_value : ℕ → Option ℕ
digit_value c =
    if leb 65 c && leb c 90
    then some (c - 65)
    else if leb 97 c && leb c 122
    then some (c - 71)
    else if leb 48 c && leb c 57
    then some (c + 4)
    else if eqb c 43
    then some 62
    else if eqb c 47
    then some 63
    else none

-- The bytes of four characters, of which the last or the last two may be padding.
group : ℕ → ℕ → ℕ → ℕ → Option Bytes
group a b c d = digit_value a >>= λ x. digit_value b >>= λ y.
    if eqb c 61
    then some ((x * 4 + y / 16) ∷ [])
    else (digit_value c >>= λ z.
        if eqb d 61
        then some ((x * 4 + y / 16) ∷ ((y % 16) * 16 + z / 4) ∷ [])
        else (digit_value d >>= λ u.
            some ((x * 4 + y / 16) ∷ ((y % 16) * 16 + z / 4) ∷ ((z % 4) * 64 + u) ∷ [])))

pub decode_string : Bytes → Option Bytes
decode_string [] = some []
decode_string (a ∷ b ∷ c ∷ d ∷ rest) =
    group a b c d >>= λ bytes. decode_string rest >>= λ others. some (bytes ++ others)
decode_string (a ∷ b ∷ c ∷ []) = none
decode_string (a ∷ b ∷ []) = none
decode_string (a ∷ []) = none

digit_value-encode_digit : (d : ℕ) → d < 64 → digit_value (encode_digit d) ≡ some d
digit_value-encode_digit d h = ground arith

encode_digit_unpadded : (d : ℕ) → d < 64 → eqb (encode_digit d) 61 ≡ false
encode_digit_unpadded d h = ground arith

group_one :
    (a : ℕ)
    → IsByte a
    → group (encode_digit (a / 4)) (encode_digit ((a % 4) * 16)) 61 61 ≡ some (a ∷ [])
unfolding group
group_one a h = ground (
  arith,
  digit_value-encode_digit (a / 4) (omega arith),
  digit_value-encode_digit ((a % 4) * 16) (omega arith),
)

group_two :
    (a b : ℕ)
    → IsByte a
    → IsByte b
    → group
        (encode_digit (a / 4))
        (encode_digit ((a % 4) * 16 + b / 16))
        (encode_digit ((b % 16) * 4))
        61
      ≡ some (a ∷ b ∷ [])
unfolding group
group_two a b h h' = ground (
  arith,
  digit_value-encode_digit (a / 4) (omega arith),
  digit_value-encode_digit ((a % 4) * 16 + b / 16) (omega arith),
  digit_value-encode_digit ((b % 16) * 4) (omega arith),
  encode_digit_unpadded ((b % 16) * 4) (omega arith),
)

group_three :
    (a b c : ℕ)
    → IsByte a
    → IsByte b
    → IsByte c
    → group
        (encode_digit (a / 4))
        (encode_digit ((a % 4) * 16 + b / 16))
        (encode_digit ((b % 16) * 4 + c / 64))
        (encode_digit (c % 64))
      ≡ some (a ∷ b ∷ c ∷ [])
unfolding group
group_three a b c h h' h'' = ground (
  arith,
  digit_value-encode_digit (a / 4) (omega arith),
  digit_value-encode_digit ((a % 4) * 16 + b / 16) (omega arith),
  digit_value-encode_digit ((b % 16) * 4 + c / 64) (omega arith),
  digit_value-encode_digit (c % 64) (omega arith),
  encode_digit_unpadded ((b % 16) * 4 + c / 64) (omega arith),
  encode_digit_unpadded (c % 64) (omega arith),
)

-- The text that stands for a byte slice is decoded to that slice, so that no two slices get the same
-- text.
pub decode_string-encode_to_string :
    (bs : Bytes) → All IsByte bs → decode_string (encode_to_string bs) ≡ some bs
unfolding decode_string encode_to_string
decode_string-encode_to_string [] h = refl
decode_string-encode_to_string (a ∷ []) (ha, _) = ground (arith, group_one a ha)
decode_string-encode_to_string (a ∷ b ∷ []) (ha, (hb, _)) = ground (arith, group_two a b ha hb)
decode_string-encode_to_string (a ∷ b ∷ c ∷ rest) (ha, (hb, (hc, h))) =
    ground (arith, group_three a b c ha hb hc, decode_string-encode_to_string rest h)
