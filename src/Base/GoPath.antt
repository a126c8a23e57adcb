-- ===== src/Base/GoPath.antt =====
-- Go's path.Clean and path.Join, over the parts between the slashes.
use Prim.Native.Char.{Char, code}
use Prim.Native.String
use Prim.Native.String.{String, [], ◌∷◌}
use mathlib.Core.Bool.{Bool, true, false}
use mathlib.Core.Logic.{ite}
use mathlib.Core.List.{List, [], ◌∷◌, reverse}
use native.Mathlib.Decide.{ℕ_discrete}
use dockyards_flux.Base.Equality.{◌==◌, string_dec, if◌then◌else◌}

unfoldable pub push_head : Char → List String → List String
push_head c [] = (c ∷ []) ∷ []
push_head c (part ∷ parts) = (c ∷ part) ∷ parts

unfoldable pub split_slash : String → List String
unfolding push_head ℕ_discrete
split_slash [] = "" ∷ []
split_slash (c ∷ s) =
    let parts = split_slash s in ite (ℕ_discrete (code c) b'/') ("" ∷ parts) (push_head c parts)

unfoldable pub join_slash : List String → String
join_slash [] = ""
join_slash (part ∷ []) = part
join_slash (part ∷ next ∷ parts) = String.◌++◌ part (String.◌++◌ "/" (join_slash (next ∷ parts)))

is_rooted : String → Bool
unfolding ℕ_discrete
is_rooted [] = false
is_rooted (c ∷ s) = ite (ℕ_discrete (code c) b'/') true false

-- `..` removes the part before it; at the root it is dropped, elsewhere it is kept.
step_up : Bool → List String → List String
step_up true [] = []
step_up false [] = ".." ∷ []
step_up rooted (part ∷ stack) = if part == ".." then ".." ∷ part ∷ stack else stack

resolve : Bool → List String → String → List String
unfolding step_up string_dec
resolve rooted stack part =
    if part == ""
    then stack
    else if part == "."
    then stack
    else if part == ".."
    then step_up rooted stack
    else part ∷ stack

clean_from : Bool → List String → List String → List String
clean_from rooted stack [] = reverse stack
clean_from rooted stack (part ∷ parts) = clean_from rooted (resolve rooted stack part) parts

or_dot : String → String
unfolding string_dec
or_dot s = if s == "" then "." else s

unfoldable pub clean : String → String
unfolding split_slash join_slash is_rooted clean_from resolve or_dot
clean path =
    if is_rooted path
    then String.◌++◌ "/" (join_slash (clean_from true [] (split_slash path)))
    else or_dot (join_slash (clean_from false [] (split_slash path)))

-- path.Join of two elements; an empty one is ignored
unfoldable pub join : String → String → String
unfolding clean string_dec
join a b =
    if a == "" then (if b == "" then "" else clean b) else clean (String.◌++◌ a (String.◌++◌ "/" b))

unfoldable pub last_part : String → List String → String
unfolding string_dec
last_part found [] = found
last_part found (part ∷ parts) = last_part (if part == "" then found else part) parts

-- path/filepath.Base: the last part that is not empty
unfoldable pub base : String → String
unfolding last_part split_slash string_dec
base path =
    if path == ""
    then "."
    else (let part = last_part "" (split_slash path) in if part == "" then "/" else part)

-- strings.TrimSuffix: only the tail as long as the suffix can be equal to it
unfoldable pub trim_suffix : String → String → String
unfolding string_dec
trim_suffix suffix [] = []
trim_suffix suffix (c ∷ s) = if (c ∷ s) == suffix then [] else c ∷ trim_suffix suffix s
