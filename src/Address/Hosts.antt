-- ===== src/Address/Hosts.antt =====
-- hostsfile.go of internal/maidenlaneutils, and what it uses of Go's strings.
use Prim.Native.Char.{Char, code}
use Prim.Native.String.{String, [], ◌∷◌}
use mathlib.Core.List as List
use zeroxyz.Prelude.{
  ◌≡◌, refl, ℕ, Option, none, some, Bool, true, false, ◌||◌, ◌&&◌, eqb, leb, if◌then◌else◌,
  string_key,
}
use zeroxyz.Prelude.Maps.{Map, put}

-- unicode.IsSpace
abbrev pub is_space : ℕ → Bool
is_space c =
    (leb 9 c && leb c 13)
    || eqb c 32
    || eqb c 133
    || eqb c 160
    || eqb c 5760
    || (leb 8192 c && leb c 8202)
    || eqb c 8232
    || eqb c 8233
    || eqb c 8239
    || eqb c 8287
    || eqb c 12288

abbrev pub is_blank : ℕ → Bool
is_blank c = eqb c 32 || eqb c 9

abbrev pub is_end : ℕ → Bool
is_end c = is_blank c || eqb c 13 || eqb c 10

abbrev pub is_empty : String → Bool
is_empty [] = true
is_empty (_ ∷ _) = false

abbrev push : Char → List.List String → List.List String
push c List.[] = List.◌∷◌ (c ∷ []) List.[]
push c (List.◌∷◌ w ws) = List.◌∷◌ (c ∷ w) ws

-- strings.Split at each character of a class.
unfoldable pub split : (ℕ → Bool) → String → List.List String
split p [] = List.◌∷◌ "" List.[]
split p (c ∷ s) = let rest = split p s in if p (code c) then List.◌∷◌ "" rest else push c rest

-- strings.Trim
unfoldable pub trim_left : (ℕ → Bool) → String → String
trim_left p [] = []
trim_left p (c ∷ s) = let rest = trim_left p s in if p (code c) then rest else c ∷ s

unfoldable pub trim_right : (ℕ → Bool) → String → String
trim_right p [] = []
trim_right p (c ∷ s) =
    let rest = trim_right p s in if is_empty rest && p (code c) then [] else c ∷ rest

unfoldable pub trim : (ℕ → Bool) → String → String
unfolding trim_left trim_right
trim p s = trim_left p (trim_right p s)

-- strings.Replace of each tab by a space
unfoldable pub replace_tabs : String → String
replace_tabs [] = []
replace_tabs (c ∷ s) = let rest = replace_tabs s in if eqb (code c) 9 then " " ∷ rest else c ∷ rest

-- strings.SplitN at the first space; the second part is none where there is no space.
unfoldable pub split_first : String → String × Option String
split_first [] = ([], none)
split_first (c ∷ s) =
    let (word, rest) = split_first s in if eqb (code c) 32 then ([], some s) else (c ∷ word, rest)

abbrev pub words : List.List String → List.List String
words List.[] = List.[]
words (List.◌∷◌ w ws) = let rest = words ws in if is_empty w then rest else List.◌∷◌ w rest

-- strings.Fields
unfoldable pub fields : String → List.List String
unfolding split
fields s = words (split is_space s)

abbrev pub is_comment : String → Bool
is_comment [] = true
is_comment (c ∷ _) = eqb (code c) b';' || eqb (code c) b'#'

unfoldable pub add_names : String → List.List String → Map String String → Map String String
add_names address List.[] hosts = hosts
add_names address (List.◌∷◌ name names) hosts = add_names address names (put name address hosts)

abbrev pub add_pieces : String × Option String → Map String String → Map String String
add_pieces (address, none) hosts = hosts
add_pieces (address, some names) hosts =
    if is_empty address then hosts else add_names address (fields names) hosts

unfoldable pub add_lines : List.List String → Map String String → Map String String
unfolding trim replace_tabs split_first fields add_names
add_lines List.[] hosts = hosts
add_lines (List.◌∷◌ line lines) hosts =
    let line' = replace_tabs (trim is_blank line) in
    add_lines lines (if is_comment line' then hosts else add_pieces (split_first line') hosts)

-- ParseHosts on the content of the file.
unfoldable pub parse_hosts : String → Map String String
unfolding add_lines trim split
parse_hosts content = add_lines (split (λ c. eqb c 10) (trim is_end content)) List.[]

hosts_read :
    parse_hosts "# local\n10.0.0.1\tnode1  node2\n\n bad\n10.0.0.2 node2 \r\n"
    ≡ List.◌∷◌ ("node1", "10.0.0.1") (List.◌∷◌ ("node2", "10.0.0.2") List.[])
unfolding parse_hosts add_lines trim split put
hosts_read = refl
