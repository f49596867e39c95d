-- ===== src/StringUtil.antt =====
-- src/lib/andromeda/StringUtil.cpp and StringUtil.hpp: text as a list of bytes.
pub mod Explode
pub mod Escape
mod Tests
use mathlib.Core.List.{map, reverse}
use andromeda_desktop_client.Common.{
  ℕ, zero, suc, ◌+◌, ◌-◌, Bool, true, false, not, ◌&&◌, ◌||◌, if◌then◌else◌, ltb, leb, ◌==◌, List,
  [], ◌∷◌, ◌++◌, Option, none, some, length, take, drop,
}

abbrev pub is_prefix : List ℕ → List ℕ → Bool
is_prefix [] s = true
is_prefix (x ∷ d) [] = false
is_prefix (x ∷ d) (y ∷ s) = x == y && is_prefix d s

abbrev pub suc_index : Option ℕ → Option ℕ
suc_index none = none
suc_index (some n) = some (suc n)

-- std::string::find.
unfoldable pub find : List ℕ → List ℕ → Option ℕ
find d [] = if is_prefix d [] then some 0 else none
find d (x ∷ s) = let later = suc_index (find d s) in if is_prefix d (x ∷ s) then some 0 else later

unfoldable pub implode : List ℕ → List (List ℕ) → List ℕ
implode glue [] = []
implode glue (p ∷ []) = p
implode glue (p ∷ q ∷ ps) = p ++ glue ++ implode glue (q ∷ ps)

-- The loop of explode; each round takes at least one byte off `str`. `size` is how many pieces there
-- are so far.
unfoldable pub explode_loop : List ℕ → ℕ → ℕ → ℕ → ℕ → List ℕ → ℕ → List ℕ → List (List ℕ)
unfolding find
explode_loop delim skip max zero size el skipped str = (el ++ str) ∷ []
explode_loop delim skip max (suc fuel) size el skipped str = elim (ltb (size + 1) max) [
  | false ↦ (el ++ str) ∷ []
  | true ↦ elim (find delim str) [
    | none ↦ (el ++ str) ∷ []
    | some seg_end ↦
        let piece = el ++ take seg_end str in
        let rest = drop (seg_end + length delim) str in
        elim (leb skip skipped) [
          | true ↦ piece ∷ explode_loop delim skip max fuel (size + 1) [] skipped rest
          | false ↦ explode_loop delim skip max fuel size (piece ++ delim) (skipped + 1) rest
        ]
  ]
]

abbrev pub reversed : Bool → List ℕ → List ℕ
reversed b str = if b then reverse str else str

unfoldable pub explode : List ℕ → List ℕ → ℕ → Bool → ℕ → List (List ℕ)
unfolding explode_loop
explode [] delim skip backward max = []
explode (x ∷ str) [] skip backward max = (x ∷ str) ∷ []
explode (x ∷ str) (d ∷ delim) skip backward max =
    let pieces =
      explode_loop (d ∷ delim) skip max (length (x ∷ str)) 0 [] 0 (reversed backward (x ∷ str)) in
    if backward then reverse (map reverse pieces) else pieces

-- The two pieces of split; fewer are filled up, before the pieces where it searches from the end.
abbrev pub pair_of : Bool → List (List ℕ) → List ℕ × List ℕ
pair_of backward [] = ([], [])
pair_of backward (p ∷ []) = if backward then ([], p) else (p, [])
pair_of backward (p ∷ q ∷ ps) = (p, q)

unfoldable pub split : List ℕ → List ℕ → ℕ → Bool → List ℕ × List ℕ
unfolding explode
split str delim skip backward = pair_of backward (explode str delim skip backward 2)

-- while (!str.empty() && str.back() == '/') str.pop_back(), on the reversed text.
abbrev pub drop_slashes : List ℕ → List ℕ
drop_slashes [] = []
drop_slashes (x ∷ s) = let rest = drop_slashes s in if x == b'/' then rest else x ∷ s

unfoldable pub split_path : List ℕ → List ℕ × List ℕ
unfolding split
split_path str = split (reverse (drop_slashes (reverse str))) (b'/' ∷ []) 0 true

unfoldable pub starts_with : List ℕ → List ℕ → Bool
starts_with str start = if ltb (length str) (length start) then false else is_prefix start str

unfoldable pub ends_with : List ℕ → List ℕ → Bool
ends_with str end =
    if ltb (length str) (length end) then false else is_prefix (reverse end) (reverse str)

-- The loop of replaceAll_void, on what is left from `pos` on.
unfoldable pub replace_loop : List ℕ → List ℕ → ℕ → List ℕ → List ℕ
unfolding find
replace_loop from repl zero str = str
replace_loop from repl (suc fuel) str = elim (find from str) [
  | none ↦ str
  | some pos ↦ take pos str ++ (repl ++ replace_loop from repl fuel (drop (pos + length from) str))
]

unfoldable pub replace_all : List ℕ → List ℕ → List ℕ → List ℕ
unfolding replace_loop
replace_all str [] repl = str
replace_all str (x ∷ from) repl = replace_loop (x ∷ from) repl (length str + 1) str

-- The loop of escapeAll over the delimiters.
unfoldable pub escape_delims : List ℕ → ℕ → List ℕ → List ℕ
unfolding replace_all
escape_delims [] escape str = str
escape_delims (d ∷ delims) escape str =
    escape_delims delims escape (replace_all str (d ∷ []) (escape ∷ d ∷ []))

unfoldable pub escape_all : List ℕ → List ℕ → ℕ → List ℕ
unfolding escape_delims
escape_all str delims escape =
    escape_delims delims escape (replace_all str (escape ∷ []) (escape ∷ escape ∷ []))

-- std::isspace.
abbrev pub is_space : ℕ → Bool
is_space c = c == 32 || (leb 9 c && leb c 13)

abbrev pub drop_spaces : List ℕ → List ℕ
drop_spaces [] = []
drop_spaces (x ∷ s) = let rest = drop_spaces s in if is_space x then rest else x ∷ s

unfoldable pub trim : List ℕ → List ℕ
trim str = drop_spaces (reverse (drop_spaces (reverse str)))

abbrev pub is_text : List ℕ → List ℕ → Bool
is_text [] [] = true
is_text [] (y ∷ t) = false
is_text (x ∷ s) [] = false
is_text (x ∷ s) (y ∷ t) = x == y && is_text s t

abbrev is_false_word : List ℕ → Bool
is_false_word str =
    is_text str (b'0' ∷ [])
    || is_text str (b'f' ∷ b'a' ∷ b'l' ∷ b's' ∷ b'e' ∷ [])
    || is_text str (b'o' ∷ b'f' ∷ b'f' ∷ [])
    || is_text str (b'n' ∷ b'o' ∷ [])

unfoldable pub string_to_bool : List ℕ → Bool
unfolding trim
string_to_bool stri = let str = trim stri in not (is_text str []) && not (is_false_word str)
