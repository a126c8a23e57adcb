-- ===== src/Command/Naming.antt =====
-- The names that cmd/create-workload-template/main.go gives.
use Prim.Native.Char.{Char, code}
use mathlib.Core.Logic.{ite}
use Prim.Native.String.{count, [], ◌∷◌}
use text.Mathlib.TextLemmas.{length-append, length-cons, nil-append, cons-append}
use native.Mathlib.Decide.{ℕ_discrete}
use dockyards_flux.Base.{
  ◌≡◌, ◌≢◌, refl, arith, ap, sym, ◌∙◌, string_dec, ◌==◌, if◌then◌else◌, suc, inl, inr, true, false,
  Bool-cases, subst, String, List, [], ◌∷◌, ◌++◌, ◌<>◌,
}
use dockyards_flux.Base.GoPath.{split_slash, push_head, last_part, base, trim_suffix}
use dockyards_flux.Command.{template_name}

same_text : (s : String) → (s == s) ≡ true
same_text s = elim (Bool-cases (s == s)) [ inl e ↦ e | inr e ↦ ground (arith, e, string_dec s s) ]

longer : (c : Char) (s suffix : String) → (c ∷ (s <> suffix)) ≢ suffix
longer c s suffix e =
    let counted : suc (count (s <> suffix)) ≡ count suffix =
      sym (length-cons c (s <> suffix)) ∙ ap count e in
    omega (arith, counted, length-append s suffix)

trim_whole : (suffix : String) → trim_suffix suffix suffix ≡ []
unfolding trim_suffix
trim_whole [] = refl
trim_whole (c ∷ s) = ap (λ b. if b then [] else c ∷ trim_suffix (c ∷ s) s) (same_text (c ∷ s))

trim_head :
    (suffix : String) (c : Char) (s : String)
    → (c ∷ s) ≢ suffix
    → trim_suffix suffix (c ∷ s) ≡ c ∷ trim_suffix suffix s
unfolding trim_suffix
trim_head suffix c s ne = ground (arith, ne)

trim_suffix-append : (suffix s : String) → trim_suffix suffix (s <> suffix) ≡ s
trim_suffix-append suffix [] = ap (trim_suffix suffix) (nil-append suffix) ∙ trim_whole suffix
trim_suffix-append suffix (c ∷ s) =
    ap (trim_suffix suffix) (cons-append c s suffix)
    ∙ trim_head suffix c (s <> suffix) (longer c s suffix)
    ∙ ap (λ t. c ∷ t) (trim_suffix-append suffix s)

-- No character of the text is a slash.
abbrev pub IsSlashFree : String → Type 0
IsSlashFree [] = Unit
IsSlashFree (c ∷ s) = (code c ≢ b'/') × IsSlashFree s

split_slash-one : (s : String) → IsSlashFree s → split_slash s ≡ s ∷ []
unfolding split_slash push_head
split_slash-one [] free = refl
split_slash-one (c ∷ s) free = ground (arith, free.0, split_slash-one s free.1)

IsSlashFree-append : (s t : String) → IsSlashFree s → IsSlashFree t → IsSlashFree (s <> t)
IsSlashFree-append [] t free rest = subst IsSlashFree (sym (nil-append t)) rest
IsSlashFree-append (c ∷ s) t free rest =
    subst IsSlashFree (sym (cons-append c s t)) (free.0, IsSlashFree-append s t free.1 rest)

prefixed :
    (c : Char) (part rest : String) (parts : List String) (d : Dec (code c ≡ b'/'))
    → (first : String) × (before : List String) × (ite d
          ("" ∷ part ∷ (parts ++ (rest ∷ [])))
          (push_head c (part ∷ (parts ++ (rest ∷ []))))
        ≡ first ∷ (before ++ (rest ∷ [])))
unfolding push_head
prefixed c part rest parts (yes e) = ("", part ∷ parts, refl)
prefixed c part rest parts (no n) = (c ∷ part, parts, refl)

abbrev slash : Char
slash = "/"

-- The last part is all that is after the last slash.
split_slash-append :
    (dir rest : String)
    → IsSlashFree rest
    → (part : String) × (parts : List String) × (split_slash (dir <> ("/" <> rest))
        ≡ part ∷ (parts ++ (rest ∷ [])))
unfolding split_slash push_head
split_slash-append [] rest free = (
  [],
  [],
  ap split_slash (
        nil-append ("/" <> rest)
        ∙ cons-append slash "" rest
        ∙ ap (λ t. slash ∷ t) (nil-append rest))
      ∙ ap (λ t. "" ∷ t) (split_slash-one rest free),
)
split_slash-append (c ∷ dir) rest free =
    let (part, parts, found) = split_slash-append dir rest free in
    let (first, before, cut) = prefixed c part rest parts (ℕ_discrete (code c) b'/') in
    (
      first,
      before,
      ap split_slash (cons-append c dir ("/" <> rest))
          ∙ ap (λ t. ite (ℕ_discrete (code c) b'/') ("" ∷ t) (push_head c t)) found
          ∙ cut,
    )

last_part-append :
    (found rest : String) (parts : List String)
    → rest ≢ []
    → last_part found (parts ++ (rest ∷ [])) ≡ rest
unfolding last_part
last_part-append found rest [] some = ground (arith, some)
last_part-append found rest (p ∷ parts) some =
    last_part-append (if p == "" then found else p) rest parts some

IsSlashFree-cue : IsSlashFree ".cue"
IsSlashFree-cue = (
  λ e. omega (arith, e),
  (λ e. omega (arith, e), (λ e. omega (arith, e), (λ e. omega (arith, e), tt))),
)

other_text : (s t : String) → s ≢ t → (s == t) ≡ false
other_text s t ne = elim (Bool-cases (s == t)) [
  | inl e ↦ ground (arith, e, ne, string_dec s t)
  | inr e ↦ e
]

base_lem :
    (path rest : String) → last_part "" (split_slash path) ≡ rest → rest ≢ [] → base path ≡ rest
unfolding base last_part split_slash
base_lem path rest found some =
    let last = last_part "" (split_slash path) in
    let there : path ≢ "" = λ e. some (sym found ∙ ap (λ t. last_part "" (split_slash t)) e) in
    let kept : last ≢ "" = λ e. some (sym found ∙ e) in
    ap (λ b. if b then "." else (if last == "" then "/" else last)) (other_text path "" there)
    ∙ ap (λ b. if b then "/" else last) (other_text last "" kept)
    ∙ found

base-append :
    (dir rest : String) → IsSlashFree rest → rest ≢ [] → base (dir <> ("/" <> rest)) ≡ rest
unfolding last_part
base-append dir rest free some =
    let (part, parts, found) = split_slash-append dir rest free in
    base_lem (dir <> ("/" <> rest)) rest
      (ap (last_part "") found ∙ last_part-append (if part == "" then "" else part) rest parts some)
      some

filled : (stem : String) → (stem <> ".cue") ≢ ""
filled stem e = omega (arith, length-append stem ".cue", ap count e)

-- The template made from a file is named by the file's name without its directory and `.cue`.
pub template_name_lem :
    (dir stem : String) → IsSlashFree stem → template_name (dir <> ("/" <> (stem <> ".cue"))) ≡ stem
unfolding template_name
template_name_lem dir stem free =
    ap (trim_suffix ".cue") (
      base-append dir (stem <> ".cue") (IsSlashFree-append stem ".cue" free IsSlashFree-cue)
        (filled stem))
    ∙ trim_suffix-append ".cue" stem
