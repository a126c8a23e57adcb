-- ===== src/Ingress/Hosts.antt =====
-- The hosts in the URLs that pkg/ingressutil/ingressutil.go gives, read back.
use dockyards_flux.Base.{
  ℕ, true, false, Option, none, some, [], ◌∷◌, ◌++◌, ◌≡◌, refl, sym, arith, ◌+◌, ◌-◌, ◌*◌, ◌/◌, ◌%◌,
  ◌<◌, All, leb, eqb, if◌then◌else◌, ◌&&◌, Bool-cases, inl, inr, ap, ◌∙◌,
}
use mathlib.Core.List.{append_assoc, append-nil}
use dockyards_flux.Base.Partial.{◌>>=◌, IsByte}
use dockyards_flux.Api.Objects.{Bytes}
use dockyards_flux.Ingress.{is_kept, upper_hex, escape_byte, escape_host, url_string}

abbrev hex_value : ℕ → Option ℕ
hex_value c =
    if leb 48 c && leb c 57
    then some (c - 48)
    else if leb 65 c && leb c 70
    then some (c - 55)
    else none

abbrev prepend : ℕ → Option Bytes → Option Bytes
prepend c none = none
prepend c (some host) = some (c ∷ host)

-- The byte that two hexadecimal digits stand for.
abbrev hex_byte : ℕ → ℕ → Option ℕ
hex_byte x y = hex_value x >>= λ d. hex_value y >>= λ e. some (d * 16 + e)

-- Percent escapes are replaced by their bytes.
unescape_host : Bytes → Option Bytes
unescape_host [] = some []
unescape_host (c ∷ []) = if eqb c 37 then none else some (c ∷ [])
unescape_host (c ∷ d ∷ []) = if eqb c 37 then none else prepend c (unescape_host (d ∷ []))
unescape_host (c ∷ d ∷ e ∷ rest) = elim (eqb c 37) [
  | true ↦ hex_byte d e >>= λ b. prepend b (unescape_host rest)
  | false ↦ prepend c (unescape_host (d ∷ e ∷ rest))
]

hex_value-upper_hex : (d : ℕ) → d < 16 → hex_value (upper_hex d) ≡ some d
hex_value-upper_hex d h = ground arith

is_kept_ne_percent : (c : ℕ) → is_kept c ≡ true → eqb c 37 ≡ false
is_kept_ne_percent c h = ground arith

unescape_plain :
    (c : ℕ) (rest : Bytes)
    → eqb c 37 ≡ false
    → unescape_host (c ∷ rest) ≡ prepend c (unescape_host rest)
unfolding unescape_host
unescape_plain c [] h = ground arith
unescape_plain c (d ∷ []) h = ground arith
unescape_plain c (d ∷ e ∷ rest) h = ground arith

hex_byte-upper_hex :
    (c : ℕ) → IsByte c → hex_byte (upper_hex (c / 16)) (upper_hex (c % 16)) ≡ some c
hex_byte-upper_hex c h =
    ground (
      arith,
      hex_value-upper_hex (c / 16) (omega arith),
      hex_value-upper_hex (c % 16) (omega arith),
    )

unescape_escaped :
    (x y : ℕ) (rest : Bytes)
    → unescape_host (37 ∷ x ∷ y ∷ rest) ≡ (hex_byte x y >>= λ b. prepend b (unescape_host rest))
unfolding unescape_host
unescape_escaped x y rest = refl

unescape_byte :
    (c : ℕ) (rest : Bytes)
    → IsByte c
    → unescape_host (escape_byte c ++ rest) ≡ prepend c (unescape_host rest)
unescape_byte c rest h = elim (Bool-cases (is_kept c)) [
  | inl kept ↦
      let same : escape_byte c ≡ c ∷ [] = ground (arith, kept) in
      ap (λ bs. unescape_host (bs ++ rest)) same ∙ unescape_plain c rest (is_kept_ne_percent c kept)
  | inr hidden ↦
      let same : escape_byte c ≡ 37 ∷ upper_hex (c / 16) ∷ upper_hex (c % 16) ∷ [] =
        ground (arith, hidden) in
      ap (λ bs. unescape_host (bs ++ rest)) same
      ∙ unescape_escaped (upper_hex (c / 16)) (upper_hex (c % 16)) rest
      ∙ ap (λ (o : Option ℕ). o >>= λ b. prepend b (unescape_host rest)) (hex_byte-upper_hex c h)
]

unescape_host-escape_host :
    (host : Bytes) → All IsByte host → unescape_host (escape_host host) ≡ some host
unfolding unescape_host
unescape_host-escape_host [] h = refl
unescape_host-escape_host (c ∷ host) (byte, h) =
    unescape_byte c (escape_host host) byte
    ∙ ap (λ o. prepend c o) (unescape_host-escape_host host h)

strip_prefix : Bytes → Bytes → Option Bytes
strip_prefix [] url = some url
strip_prefix (p ∷ prefix) [] = none
strip_prefix (p ∷ prefix) (c ∷ url) = if eqb p c then strip_prefix prefix url else none

-- The host after the colon of a URL, empty where there are no slashes.
after_colon : Bytes → Option Bytes
after_colon [] = some []
after_colon (a ∷ []) = none
after_colon (a ∷ b ∷ host) = if eqb a 47 && eqb b 47 then unescape_host host else none

-- The host of a URL with a given scheme.
pub host_of : Bytes → Bytes → Option Bytes
unfolding strip_prefix after_colon
host_of scheme url = strip_prefix (scheme ++ 58 ∷ []) url >>= after_colon

strip_prefix-append : (prefix url : Bytes) → strip_prefix prefix (prefix ++ url) ≡ some url
unfolding strip_prefix
strip_prefix-append [] url = refl
strip_prefix-append (p ∷ prefix) url = ground (arith, strip_prefix-append prefix url)

after_colon-host :
    (host : Bytes) → All IsByte host → after_colon (47 ∷ 47 ∷ escape_host host) ≡ some host
unfolding after_colon
after_colon-host host h = unescape_host-escape_host host h

-- The text of a URL determines its host, byte for byte: no two hosts have the same URL.
pub host_of-url_string :
    (scheme host : Bytes) → All IsByte host → host_of scheme (url_string scheme host) ≡ some host
unfolding host_of
host_of-url_string scheme [] h =
    ap (λ o. o >>= after_colon)
      (ap (λ u. strip_prefix (scheme ++ 58 ∷ []) u) (sym (append-nil (scheme ++ 58 ∷ [])))
        ∙ strip_prefix-append (scheme ++ 58 ∷ []) [])
host_of-url_string scheme (c ∷ host) h =
    ap (λ o. o >>= after_colon)
      (ap (λ u. strip_prefix (scheme ++ 58 ∷ []) u)
          (sym (append_assoc scheme (58 ∷ []) (47 ∷ 47 ∷ escape_host (c ∷ host))))
        ∙ strip_prefix-append (scheme ++ 58 ∷ []) (47 ∷ 47 ∷ escape_host (c ∷ host)))
    ∙ after_colon-host (c ∷ host) h
