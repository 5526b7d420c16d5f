-- ===== src/Examples/StatusExamples.antt =====
-- The status page for a small server, with numbers printed by their last digit.
use crossover.Prelude.{ℕ, ◌+◌, ◌%◌, true, false, List, [], ◌∷◌, ◌++◌, some, ◌≡◌, arith}
use crossover.Wire.Bytes.{zero_vec}
use crossover.Relay.Session.{Snapshot}
use crossover.Status.Json.{json_escape, Printers, build_json}
use crossover.Status.Escape.{read_string, read_string-json_escape}
use crossover.Status.Scan.{outside, scan, IsPlain, PrintsNumbers, scan-build_json}

-- a"b, a control byte and a line feed
abbrev odd_text : List ℕ
odd_text = 97 ∷ 34 ∷ 98 ∷ 7 ∷ 10 ∷ []

read_string-json_escape_example :
    read_string false (json_escape odd_text ++ 34 ∷ 44 ∷ [])
    ≡ some (97 ∷ 34 ∷ 98 ∷ 10 ∷ [], 44 ∷ [])
read_string-json_escape_example = read_string-json_escape odd_text (44 ∷ [])

abbrev last_digit : ℕ → List ℕ
last_digit n = (48 + n % 10) ∷ []

last_digit-IsPlain : (n : ℕ) → IsPlain (last_digit n)
last_digit-IsPlain n = ground arith

abbrev printers : Printers
printers = record {
  show_int = last_digit;
  show_float = last_digit;
  show_address = λ a. 34 ∷ 91 ∷ last_digit a;
}

laws : PrintsNumbers printers
laws = record { plain_int = last_digit-IsPlain; plain_float = last_digit-IsPlain }

abbrev report : Snapshot
report = record {
  running = true;
  player_count = 1;
  max_players = 8;
  game_port = 60000;
  uptime_ms = 5000;
  anchor = some zero_vec;
  players =
      record {
        network_id = 1;
        address = 11;
        spawned = true;
        position = zero_vec;
        connected_for_ms = 900;
      }
      ∷ [];
}

scan-build_json_example : scan (outside []) (build_json printers report 1 true) ≡ outside []
scan-build_json_example = scan-build_json printers laws report 1 true
