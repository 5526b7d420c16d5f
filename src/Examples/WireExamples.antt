-- ===== src/Examples/WireExamples.antt =====
-- The wire format's theorems at concrete messages.
use crossover.Prelude.{◌≡◌, List, [], ◌∷◌, arith}
use crossover.Wire.Bytes.{Vec3, zero_vec}
use crossover.Wire.Messages.{Entry, create_net_players, write_body, read_create_net_players}
use crossover.Wire.RoundTrip.{read_create_net_players-write_body}
use crossover.Wire.SelfTest.{network_order}

abbrev spot : Vec3
spot = record { x = 0x3f80_0000; y = 0x4000_0000; z = 0x4040_0000 }

abbrev roster : List Entry
roster =
    record { network_id = 1; def_global_index = 42; position = spot }
    ∷ record { network_id = 3; def_global_index = 7; position = zero_vec }
    ∷ []

read_create_net_players-write_body_example :
    read_create_net_players network_order
      (λ n. n)
      (write_body network_order (create_net_players roster))
    ≡ roster
read_create_net_players-write_body_example =
    read_create_net_players-write_body network_order (λ n. n) roster (omega arith) (omega arith)
