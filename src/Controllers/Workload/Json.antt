-- ===== src/Controllers/Workload/Json.antt =====
-- `ensureValidJSON` of controllers/dockyardsworkload_controller.go, and encoding/base64.
use dockyards_flux.Base.{ℕ, [], ◌∷◌, ◌+◌, ◌*◌, ◌/◌, ◌%◌, ◌-◌, leb, if◌then◌else◌, eqb}
use dockyards_flux.Api.Objects.{Bytes}
use dockyards_flux.Api.Rendering.{
  Any, object, array, bytes, text, int64, float64, json_number, other, flag, null, Entries,
  no_entries, entry,
}

-- the alphabet of base64.StdEncoding
abbrev pub encode_digit : ℕ → ℕ
encode_digit d =
    if leb d 25
    then 65 + d
    else if leb d 51
    then 71 + d
    else if leb d 61
    then d - 4
    else if eqb d 62
    then 43
    else 47

-- base64.StdEncoding.EncodeToString
unfoldable pub encode_to_string : Bytes → Bytes
encode_to_string [] = []
encode_to_string (a ∷ []) = encode_digit (a / 4) ∷ encode_digit ((a % 4) * 16) ∷ 61 ∷ 61 ∷ []
encode_to_string (a ∷ b ∷ []) =
    encode_digit (a / 4)
    ∷ encode_digit ((a % 4) * 16 + b / 16)
    ∷ encode_digit ((b % 16) * 4)
    ∷ 61
    ∷ []
encode_to_string (a ∷ b ∷ c ∷ rest) =
    encode_digit (a / 4)
    ∷ encode_digit ((a % 4) * 16 + b / 16)
    ∷ encode_digit ((b % 16) * 4 + c / 64)
    ∷ encode_digit (c % 64)
    ∷ encode_to_string rest

unfoldable mutual
  pub ensure_valid_json : Entries → Entries
  ensure_valid_json no_entries = no_entries
  ensure_valid_json (entry k v rest) = entry k (ensure_valid_value v) (ensure_valid_json rest)

  pub ensure_valid_value : Any → Any
  ensure_valid_value (object entries) = object (ensure_valid_json entries)
  ensure_valid_value (bytes t) = text (encode_to_string t)
  ensure_valid_value (array vs) = array vs
  ensure_valid_value (text t) = text t
  ensure_valid_value (int64 n) = int64 n
  ensure_valid_value (float64 n) = float64 n
  ensure_valid_value (json_number t) = json_number t
  ensure_valid_value (other t) = other t
  ensure_valid_value (flag b) = flag b
  ensure_valid_value null = null
