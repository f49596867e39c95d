-- ===== src/StringUtil/Tests.antt =====
-- Tests of the model of StringUtil.cpp, and its theorems at concrete texts.
use andromeda_desktop_client.Common.{ℕ, ◌≡◌, refl, true, false, List, [], ◌∷◌, ◌==◌}
use andromeda_desktop_client.StringUtil.{
  find, implode, explode, split, split_path, ends_with, escape_all, string_to_bool, trim,
}
use andromeda_desktop_client.StringUtil.Escape.{
  each, escaped, special, unescape, unescape-escape_all,
}
use andromeda_desktop_client.StringUtil.Explode.{implode-explode}

-- "a=b=c", cut at "=".
abbrev equations : List ℕ
equations = b'a' ∷ b'=' ∷ b'b' ∷ b'=' ∷ b'c' ∷ []

explode_all :
    explode equations (b'=' ∷ []) 0 false 100 ≡ (b'a' ∷ []) ∷ (b'b' ∷ []) ∷ (b'c' ∷ []) ∷ []
unfolding explode find
explode_all = refl

explode_after_one :
    explode equations (b'=' ∷ []) 1 false 2 ≡ (b'a' ∷ b'=' ∷ b'b' ∷ []) ∷ (b'c' ∷ []) ∷ []
unfolding explode find
explode_after_one = refl

split_end : split equations (b'=' ∷ []) 0 true ≡ (b'a' ∷ b'=' ∷ b'b' ∷ [], b'c' ∷ [])
unfolding split find
split_end = refl

-- "/a/b/" is "b" in "/a".
split_path_slash :
    split_path (b'/' ∷ b'a' ∷ b'/' ∷ b'b' ∷ b'/' ∷ []) ≡ (b'/' ∷ b'a' ∷ [], b'b' ∷ [])
unfolding split_path find
split_path_slash = refl

ends_with_bc : ends_with equations (b'=' ∷ b'c' ∷ []) ≡ true
unfolding ends_with
ends_with_bc = refl

implode-explode_example : implode (b'=' ∷ []) (explode equations (b'=' ∷ []) 1 true 2) ≡ equations
implode-explode_example = implode-explode equations (b'=' ∷ []) 1 true 2

-- A star, an underscore and a backslash, escaped by a backslash.
abbrev marked : List ℕ
marked = b'a' ∷ b'*' ∷ 92 ∷ b'_' ∷ []

escape_marked :
    escape_all marked (b'*' ∷ b'_' ∷ []) 92 ≡ b'a' ∷ 92 ∷ b'*' ∷ 92 ∷ 92 ∷ 92 ∷ b'_' ∷ []
unfolding escape_all find
escape_marked = refl

-- " no" with a space and a tab behind it.
no_trimmed : string_to_bool (32 ∷ b'n' ∷ b'o' ∷ 32 ∷ 9 ∷ []) ≡ false
unfolding string_to_bool trim
no_trimmed = refl

unescape-escape_all_example :
    (escape_all marked (b'*' ∷ b'_' ∷ []) 92
      ≡ each (escaped 92 (special (b'*' ∷ b'_' ∷ []) (λ y. 92 == y))) marked)
    × (unescape 92 (escape_all marked (b'*' ∷ b'_' ∷ []) 92) ≡ marked)
unescape-escape_all_example = unescape-escape_all 92 marked (b'*' ∷ b'_' ∷ []) (refl, (refl, tt))
