-- ===== src/Status/Escape.antt =====
-- What a reader of JSON makes of the strings that Server/src/main.cpp writes.
use crossover.Prelude.{
  ℕ, Bool, true, false, not, List, [], ◌∷◌, ◌++◌, keep, Option, none, some, ltb, ◌==◌, ◌||◌, ◌≡◌,
  refl, arith, if◌then◌else◌,
}
use crossover.Status.Json.{json_escape}

-- The escapes `\"`, `\\` and `\n`; the others do not occur.
abbrev pub escaped_char : ℕ → Option ℕ
escaped_char c = if c == 34 || c == 92 then some c else if c == 110 then some 10 else none

abbrev pub onto : ℕ → Option (List ℕ × List ℕ) → Option (List ℕ × List ℕ)
onto c none = none
onto c (some (t, rest)) = some (c ∷ t, rest)

abbrev pub onto_char : Option ℕ → Option (List ℕ × List ℕ) → Option (List ℕ × List ℕ)
onto_char none r = none
onto_char (some c) r = onto c r

-- A string up to its closing quote, and what is behind it; control bytes are not allowed in it. The
-- Boolean says that a backslash came just before.
unfoldable pub read_string : Bool → List ℕ → Option (List ℕ × List ℕ)
read_string escaped [] = none
read_string true (c ∷ cs) = onto_char (escaped_char c) (read_string false cs)
read_string false (c ∷ cs) =
    if c == 34
    then some ([], cs)
    else if c == 92
    then read_string true cs
    else if ltb c 32
    then none
    else onto c (read_string false cs)

-- The bytes that are written at all.
abbrev pub is_shown : ℕ → Bool
is_shown c = c == 10 || not (ltb c 32)

-- Whatever the text, a reader of JSON finds the closing quote of an escaped text where it is, and
-- reads the text less its control bytes, line feeds excepted.
pub read_string-json_escape :
    (t rest : List ℕ)
    → read_string false (json_escape t ++ 34 ∷ rest) ≡ some (keep is_shown t, rest)
unfolding read_string json_escape
read_string-json_escape [] rest = refl
read_string-json_escape (c ∷ t) rest = ground (arith, read_string-json_escape t rest)
