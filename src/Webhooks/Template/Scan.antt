-- ===== src/Webhooks/Template/Scan.antt =====
-- The line that webhooks/workloadtemplate_webhook.go shows for an error.
use dockyards_flux.Base.{
  ℕ, zero, suc, none, some, [], ◌∷◌, ◌≡◌, ◌≢◌, arith, ◌≤◌, All, eqb, if◌then◌else◌, length,
  Bool-cases, inl, inr, ap, ◌∙◌, ltb,
}
use dockyards_flux.Api.Objects.{Bytes}
use dockyards_flux.Webhooks.Template.{take_line, line_text, drop_cr, scan_text, max_scan_token_size}

-- The bytes before the first newline, or all.
pub first_line : Bytes → Bytes
first_line [] = []
first_line (b ∷ source) = if eqb b 10 then [] else b ∷ first_line source

take_line-eq-first_line :
    (n : ℕ) (source : Bytes)
    → take_line n source
      ≡ (if ltb (length (first_line source)) n then some (first_line source) else none)
unfolding first_line
take_line-eq-first_line zero source = ground arith
take_line-eq-first_line (suc n) [] = ground arith
take_line-eq-first_line (suc n) (b ∷ source) = ground (arith, take_line-eq-first_line n source)

line_text_lem :
    (n : ℕ) (line : Bytes)
    → line_text (if ltb (length line) n then some line else none)
      ≡ (if ltb (length line) n then drop_cr line else [])
line_text_lem n line = elim (Bool-cases (ltb (length line) n)) [
  | inl fits ↦ ground (arith, fits)
  | inr long ↦ ground (arith, long)
]

-- The text that is shown is the line up to the newline or the end, without a carriage return at its
-- end, if it is shorter than the scanner's buffer of 65536 bytes, and is empty if it is not.
pub scan_text_lem :
    (source : Bytes)
    → scan_text source
      ≡ (if ltb (length (first_line source)) 65536 then drop_cr (first_line source) else [])
unfolding scan_text
scan_text_lem source =
    ap line_text (take_line-eq-first_line max_scan_token_size source)
    ∙ line_text_lem max_scan_token_size (first_line source)

first_line_unbroken : (source : Bytes) → All (λ b. b ≢ 10) (first_line source)
unfolding first_line
first_line_unbroken [] = tt
first_line_unbroken (b ∷ source) = ground (arith, first_line_unbroken source)

drop_cr_unbroken : (line : Bytes) → All (λ b. b ≢ 10) line → All (λ b. b ≢ 10) (drop_cr line)
drop_cr_unbroken [] h = tt
drop_cr_unbroken (b ∷ []) h = ground arith
drop_cr_unbroken (b ∷ c ∷ line) (ne, h) = (ne, drop_cr_unbroken (c ∷ line) h)

length-drop_cr-le : (line : Bytes) → length (drop_cr line) ≤ length line
length-drop_cr-le [] = omega arith
length-drop_cr-le (b ∷ []) = ground arith
length-drop_cr-le (b ∷ c ∷ line) = omega (arith, length-drop_cr-le (c ∷ line))

-- The text that is shown has no newline, and at most 65535 bytes.
pub scan_text_bounds :
    (source : Bytes) → All (λ b. b ≢ 10) (scan_text source) × (length (scan_text source) ≤ 65535)
scan_text_bounds source =
    let line = first_line source in
    ground (
      arith,
      scan_text_lem source,
      drop_cr_unbroken line (first_line_unbroken source),
      length-drop_cr-le line,
    )
