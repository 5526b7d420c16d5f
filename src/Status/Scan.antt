-- ===== src/Status/Scan.antt =====
-- The page of Server/src/main.cpp as a reader of JSON splits it: brackets that match, outside strings
-- that end.
use crossover.Prelude.{
  ℕ, Bool, true, false, not, List, [], ◌∷◌, ◌++◌, Option, none, some, ltb, ◌==◌, ◌||◌, ◌≡◌, refl,
  arith, All, if◌then◌else◌,
}
use crossover.Relay.Session.{SnapshotEntry, Snapshot}
use crossover.Wire.Bytes.{Vec3}
use crossover.Status.Json.{
  json_escape, Printers, json_entry, more_entries, json_roster, json_anchor, json_connections,
  build_json,
}
use crossover.Status.Words.{
  true_word, false_word, running_word, stopped_word, tunnel_word, udp_word,
}

-- Outside a string with the open brackets, the innermost first; inside one; behind a backslash; or
-- after a mistake.
pub data Scan : Type 0 where
  outside inside escaped : (brackets : List ℕ) → Scan
  mistaken : Scan

abbrev closed : ℕ → List ℕ → Scan
closed c [] = mistaken
closed c (b ∷ bs) = if b == c then outside bs else mistaken

unfoldable pub scan_one : Scan → ℕ → Scan
scan_one (outside bs) c =
    if c == 34
    then inside bs
    else if c == 123 || c == 91
    then outside (c ∷ bs)
    else if c == 125
    then closed 123 bs
    else if c == 93
    then closed 91 bs
    else outside bs
scan_one (inside bs) c =
    if c == 34
    then outside bs
    else if c == 92
    then escaped bs
    else if ltb c 32
    then mistaken
    else inside bs
scan_one (escaped bs) c = inside bs
scan_one mistaken c = mistaken

unfoldable pub scan : Scan → List ℕ → Scan
scan st [] = st
scan st (c ∷ cs) = scan (scan_one st c) cs

scan-append : (st : Scan) (xs ys : List ℕ) → scan st (xs ++ ys) ≡ scan (scan st xs) ys
unfolding scan
scan-append st [] ys = refl
scan-append st (x ∷ xs) ys = scan-append (scan_one st x) xs ys

-- Neither a quote nor a bracket.
abbrev pub is_plain : ℕ → Bool
is_plain c = not (c == 34 || (c == 123 || (c == 91 || (c == 125 || c == 93))))

abbrev pub IsPlain : List ℕ → Type 0
IsPlain = All λ c. is_plain c ≡ true

scan-plain : (bs cs : List ℕ) → IsPlain cs → scan (outside bs) cs ≡ outside bs
unfolding scan scan_one
scan-plain bs [] h = refl
scan-plain bs (c ∷ cs) h = ground (arith, scan-plain bs cs h.1)

scan-json_escape : (bs t : List ℕ) → scan (inside bs) (json_escape t) ≡ inside bs
unfolding scan scan_one json_escape
scan-json_escape bs [] = refl
scan-json_escape bs (c ∷ t) = ground (arith, scan-json_escape bs t)

-- Numbers are printed without quotes and brackets.
pub record PrintsNumbers (pr : Printers) : Type 0 where
  pub plain_int : (n : ℕ) → IsPlain (pr.show_int n)
  pub plain_float : (n : ℕ) → IsPlain (pr.show_float n)

module _ (pr : Printers) (laws : PrintsNumbers pr) where
  scan-int : (bs : List ℕ) (n : ℕ) → scan (outside bs) (pr.show_int n) ≡ outside bs
  scan-int bs n = scan-plain bs (pr.show_int n) (laws.plain_int n)

  scan-float : (bs : List ℕ) (n : ℕ) → scan (outside bs) (pr.show_float n) ≡ outside bs
  scan-float bs n = scan-plain bs (pr.show_float n) (laws.plain_float n)

  scan-spawned :
      (bs : List ℕ) (b : Bool)
      → scan (outside bs) (if b then true_word else false_word) ≡ outside bs
  unfolding scan scan_one
  scan-spawned bs true = refl
  scan-spawned bs false = refl

  scan-json_entry :
      (bs : List ℕ) (p : SnapshotEntry) → scan (outside bs) (json_entry pr p) ≡ outside bs
  unfolding scan scan_one json_entry
  scan-json_entry bs p = simp (scan-append, scan-int, scan-json_escape, scan-float, scan-spawned)

  scan-more_entries :
      (bs : List ℕ) (ps : List SnapshotEntry) → scan (outside bs) (more_entries pr ps) ≡ outside bs
  unfolding scan scan_one more_entries
  scan-more_entries bs [] = refl
  scan-more_entries bs (p ∷ ps) = simp (scan-append, scan-json_entry, scan-more_entries bs ps)

  scan-json_roster :
      (bs : List ℕ) (ps : List SnapshotEntry) → scan (outside bs) (json_roster pr ps) ≡ outside bs
  unfolding scan json_roster
  scan-json_roster bs [] = refl
  scan-json_roster bs (p ∷ ps) = simp (scan-append, scan-json_entry, scan-more_entries)

  scan-json_anchor :
      (bs : List ℕ) (o : Option Vec3) → scan (outside bs) (json_anchor pr o) ≡ outside bs
  unfolding scan scan_one
  scan-json_anchor bs none = refl
  scan-json_anchor bs (some v) = simp (scan-append, scan-float)

  scan-json_connections :
      (bs : List ℕ) (b : Bool) (n : ℕ) → scan (outside bs) (json_connections pr b n) ≡ outside bs
  unfolding scan scan_one
  scan-json_connections bs true n = simp (scan-append, scan-int)
  scan-json_connections bs false n = refl

  scan-running :
      (bs : List ℕ) (b : Bool)
      → scan (inside bs) (if b then running_word else stopped_word) ≡ inside bs
  unfolding scan scan_one
  scan-running bs true = refl
  scan-running bs false = refl

  scan-transport :
      (bs : List ℕ) (b : Bool) → scan (inside bs) (if b then tunnel_word else udp_word) ≡ inside bs
  unfolding scan scan_one
  scan-transport bs true = refl
  scan-transport bs false = refl

  -- Whatever the server reports, and however addresses are printed, the status page is well
  -- bracketed: all its brackets match, and all its strings end. Numbers are printed without quotes
  -- and brackets.
  pub scan-build_json :
      (s : Snapshot) (connections : ℕ) (tunnel : Bool)
      → scan (outside []) (build_json pr s connections tunnel) ≡ outside []
  unfolding scan scan_one build_json
  scan-build_json s connections tunnel = simp (
    scan-append, scan-int, scan-running, scan-transport, scan-json_connections, scan-json_anchor,
    scan-json_roster,
  )
