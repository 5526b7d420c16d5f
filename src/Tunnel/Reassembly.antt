-- ===== src/Tunnel/Reassembly.antt =====
-- The server's end of the tunnel reads a TCP stream in pieces: Server/src/Tunnel.cpp.
use crossover.Prelude.{
  ℕ, ◌≡◌, ◌≢◌, ◌⊎◌, inl, inr, refl, sym, ap, ◌∙◌, true, false, List, [], ◌∷◌, ◌++◌, map, none, some,
  append_assoc, append-nil,
}
use crossover.Tunnel.Framing.{Status, waiting, bad_frame, out_of_fuel, stopped, deframe, joined}
use crossover.Tunnel.Stream.{
  deframe_ends, deframe-rest, deframe-append_waiting, deframe-append_bad, deframe_nil,
}
use crossover.Tunnel.Pump.{Pump, Poll, pump, pump_round, tcp_side, udp_side, opened}
use crossover.Tunnel.Pump

pub Status-cases : (st : Status) → st ≢ out_of_fuel → (st ≡ waiting) ⊎ (st ≡ bad_frame)
Status-cases waiting h = inl refl
Status-cases bad_frame h = inr refl
Status-cases out_of_fuel h = absurd (h refl)

-- A round that finds these bytes on the TCP socket and nothing else.
abbrev pub reads : List ℕ → Poll
reads c = Pump.ready false (some (Pump.received c)) none

reads_lem :
    (buf c : List ℕ)
    → (deframe (buf ++ c)).status ≡ waiting
    → pump_round (record { inbound = buf; open? = true }) (reads c) ≡ (
      record { inbound = (deframe (buf ++ c)).rest; open? = true },
      record { to_relay = (deframe (buf ++ c)).datagrams; to_client = [] },
    )
unfolding pump_round tcp_side udp_side
reads_lem buf c w = rw w refl

reads_bad :
    (buf c : List ℕ)
    → (deframe (buf ++ c)).status ≡ bad_frame
    → pump_round (record { inbound = buf; open? = true }) (reads c) ≡ (
      record { inbound = (deframe (buf ++ c)).rest; open? = false },
      record { to_relay = (deframe (buf ++ c)).datagrams; to_client = [] },
    )
unfolding pump_round tcp_side udp_side
reads_bad buf c w = rw w refl

pump_closed :
    (buf : List ℕ) (es : List Poll)
    → (pump (record { inbound = buf; open? = false }) es).1 ≡ Pump.nothing
unfolding pump
pump_closed buf [] = refl
pump_closed buf (e ∷ es) = refl

pump_from :
    (buf : List ℕ) (cs : List (List ℕ))
    → deframe buf ≡ stopped buf waiting
    → (pump (record { inbound = buf; open? = true }) (map reads cs)).1.to_relay
      ≡ (deframe (buf ++ joined cs)).datagrams
unfolding pump
pump_from buf [] p = rw (append-nil buf, p) refl
pump_from buf (c ∷ cs) p =
    elim (Status-cases (deframe (buf ++ c)).status (deframe_ends (buf ++ c))) [
      | inl w ↦
          rw
            (
              reads_lem buf c w,
              ← append_assoc buf c (joined cs),
              deframe-append_waiting (buf ++ c) (joined cs) w,
            )
            (ap (◌++◌ (deframe (buf ++ c)).datagrams)
              (pump_from (deframe (buf ++ c)).rest cs (deframe-rest (buf ++ c) w)))
      | inr bad ↦
          rw (reads_bad buf c bad, pump_closed (deframe (buf ++ c)).rest (map reads cs))
            (append-nil (deframe (buf ++ c)).datagrams
              ∙ sym (deframe-append_bad (buf ++ c) (joined cs) bad)
              ∙ ap (λ (l : List ℕ). (deframe l).datagrams) (append_assoc buf c (joined cs)))
    ]

-- However the network cuts a client's byte stream into reads, the server's end of the tunnel passes
-- on to the relay what it would from all of the bytes at once.
pub pump-joined :
    (cs : List (List ℕ)) → (pump opened (map reads cs)).1.to_relay ≡ (deframe (joined cs)).datagrams
pump-joined cs = pump_from [] cs deframe_nil
