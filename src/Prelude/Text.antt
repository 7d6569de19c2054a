-- ===== src/Prelude/Text.antt =====
-- Functions of Go's `strings` package that the program uses, on ASCII texts: there a character
-- is a byte, and case folding touches the letters A to Z only.
use Prim.Native.Nat.{ℕ, ◌-◌}
use Prim.Native.Char.{Char, code}
use Prim.Native.String.{String, [], ◌∷◌, char_at, slice, len}
use mathlib.Core.Path.{◌≡◌, refl}
use mathlib.Core.Bool.{Bool, true, false, ◌&&◌, ◌||◌, not}
use mathlib.Core.List.{List}
use native.Mathlib.Omega.{arith}
use text.Mathlib.Text.{starts_with}
use text.Mathlib.TextPositions.{eq_refl}
use docker_swarm_cluster_con.Prelude.Lists.{cons, on_head}
use docker_swarm_cluster_con.Prelude.Tests.{leb, ◌=?◌, ◌==◌, if◌then◌else◌}

unfoldable pub lower_char : Char → Char
lower_char c =
    if leb 65 (code c) && leb (code c) 90
    then char_at "abcdefghijklmnopqrstuvwxyz" (code c - 65)
    else c

unfoldable pub upper_char : Char → Char
upper_char c =
    if leb 97 (code c) && leb (code c) 122
    then char_at "ABCDEFGHIJKLMNOPQRSTUVWXYZ" (code c - 97)
    else c

-- strings.ToLower
unfoldable pub to_lower : String → String
unfolding lower_char
to_lower [] = []
to_lower (c ∷ s) = lower_char c ∷ to_lower s

-- strings.ToUpper
unfoldable pub to_upper : String → String
unfolding upper_char
to_upper [] = []
to_upper (c ∷ s) = upper_char c ∷ to_upper s

-- strings.EqualFold
unfoldable pub equal_fold : String → String → Bool
unfolding to_lower
equal_fold a b = to_lower a == to_lower b

-- len(s)
unfoldable pub text_length : String → ℕ
text_length s = len s

-- strings.HasPrefix, strings.Contains
unfoldable pub has_prefix : String → String → Bool
has_prefix s p = starts_with s p

unfoldable pub contains : String → String → Bool
unfolding has_prefix
contains [] p = p == ""
contains (c ∷ s) p = has_prefix (c ∷ s) p || contains s p

-- the spaces of `unicode.IsSpace` that are ASCII
unfoldable pub is_space : Char → Bool
is_space c = (leb 9 (code c) && leb (code c) 13) || (code c =? 32)

trim_left : String → String
unfolding is_space
trim_left [] = []
trim_left (c ∷ s) = let rest = trim_left s in if is_space c then rest else c ∷ s

-- a character is dropped if only spaces follow it and it is one itself
trim_right : String → String
unfolding is_space
trim_right [] = []
trim_right (c ∷ s) = let rest = trim_right s in if is_space c && (rest == "") then "" else c ∷ rest

-- strings.TrimSpace
unfoldable pub trim_space : String → String
unfolding trim_left trim_right
trim_space s = trim_right (trim_left s)

-- strings.Split(s, "\n")
unfoldable pub split_lines : String → List String
split_lines [] = cons "" List.[]
split_lines (c ∷ s) =
    let rest = split_lines s in if code c =? 10 then cons "" rest else on_head (λ l. c ∷ l) "" rest

begins_word : String → Bool
begins_word [] = false
begins_word (c ∷ s) = not (is_space c)

-- strings.Fields
unfoldable pub fields : String → List String
unfolding is_space begins_word
fields [] = List.[]
fields (c ∷ s) =
    let rest = fields s in
    if is_space c
    then rest
    else if begins_word s
    then on_head (λ l. c ∷ l) "" rest
    else cons (c ∷ "") rest

-- s[n:], where n is at most the length
unfoldable pub drop_bytes : ℕ → String → String
drop_bytes n s = slice s n (len s)

-- strings.Split(s, sep)[0], where the separator is the character of the given code
unfoldable pub before : ℕ → String → String
before k [] = ""
before k (c ∷ s) = let rest = before k s in if code c =? k then "" else c ∷ rest

-- A host name up to its first dot, unless it begins with one: `host[:idx]` where `idx > 0`.
unfoldable pub short_host : String → String
unfolding before
short_host [] = ""
short_host (c ∷ s) = if code c =? 46 then c ∷ s else c ∷ before 46 s

-- strings.TrimSuffix(s, ".")
unfoldable pub trim_dot : String → String
trim_dot [] = ""
trim_dot (c ∷ s) = let rest = trim_dot s in if (code c =? 46) && (s == "") then "" else c ∷ rest

pub equal_fold_refl : (a : String) → equal_fold a a ≡ true
unfolding equal_fold
equal_fold_refl a = eq_refl (to_lower a)

pub contains_empty : (s : String) → contains s "" ≡ true
unfolding contains
contains_empty [] = refl
contains_empty (c ∷ s) = ground (arith, contains_empty s)

text_tests :
    (to_lower "Role-A" ≡ "role-a")
    × (trim_space "  x y \n" ≡ "x y")
    × (contains "inactive false" "active" ≡ true)
    × (drop_bytes 6 "label.Zone" ≡ "Zone")
    × (fields " eth0  10.0.0.2/24\n" ≡ cons "eth0" (cons "10.0.0.2/24" List.[]))
    × (before 47 "10.0.0.2/24" ≡ "10.0.0.2")
    × (short_host "n1.example.org" ≡ "n1")
    × (trim_dot "n1.ts.net." ≡ "n1.ts.net")
    × (split_lines "a\n\nb" ≡ cons "a" (cons "" (cons "b" List.[])))
unfolding to_lower trim_space contains drop_bytes split_lines fields before short_host trim_dot
text_tests = (refl, refl, refl, refl, refl, refl, refl, refl, refl)
