-- ===== src/Examples/ScanExamples.antt =====
-- A small address space for the properties of the scans, and runs for those of the sockets.
use crossover.Prelude.{
  ℕ, ◌+◌, ◌-◌, ◌%◌, ◌^◌, ◌≤◌, ◌<◌, ◌≡◌, ◌⊎◌, ◌↔◌, contains, refl, Bool, true, false, List, [], ◌∷◌,
  ◌++◌, Option, none, some, ltb, ◌==◌, length, if◌then◌else◌, arith,
}
use crossover.Probe.Memory.{Memory, dword, store, plausible, write_bytes}
use crossover.Probe.Regions.{Region, region_ok}
use crossover.Probe.Regions.Chain.{IsQuery}
use crossover.Probe.Scan.{scan_dword, same_bytes}
use crossover.Probe.Scan.Exact.{IsScan, scan_dword-IsScan}
use crossover.Probe.Scan.Owner.{Nearest, owner_of, owner_of-Nearest}
use crossover.Probe.Replace.{from, to, max_hits, find_all, apply}
use crossover.Probe.Replace.Whole.{apply-find_all}
use crossover.Probe.Text.{read_text}
use crossover.Probe.Text.Printable.{Holds, Ends, read_text_iff}
use crossover.Probe.Stub.{stub_bytes}
use crossover.Probe.Stub.Runs.{Cpu, run, after_both, run-stub_bytes}
use crossover.Sockets.{
  Calls, Listener, idle_listener, start_tunnel, start_status, stop_listening, stop_tunnel,
}
use crossover.Sockets.Closing.{IsIdle, Undone, stop_listening-start, stop_tunnel-drains}

-- Two regions, the second of them read and written.
abbrev guard_region : Region
guard_region = record { base = 0; size = 0x10000; state = 0x10000; kind = 0; protect = 0x01 }

abbrev data_region : Region
data_region = record {
  base = 0x10000;
  size = 0x10000;
  state = 0x1000;
  kind = 0x20000;
  protect = 0x04;
}

two_regions : ℕ → Option Region
two_regions a =
    if ltb a 0x10000 then some guard_region else if ltb a 0x20000 then some data_region else none

two_regions-IsQuery : IsQuery two_regions
unfolding two_regions
two_regions-IsQuery = record {
  below = λ a r e. ground arith;
  above = λ a r e. ground arith;
  space = λ a r e. ground arith;
  stable = λ a b r e p q. ground arith;
  ends = λ a b e p. ground arith;
}

-- The word 77 at 0x10010, a vtable at 0x11000, and a text.
abbrev memory : Memory
memory = store (store (λ a. if a == 0x600003 then 0 else 0x41) 0x10010 77) 0x11000 0x0122D010

scan_dword-IsScan_example :
    IsScan two_regions
      (region_ok 0)
      (λ p. dword memory p == 77)
      4
      4
      64
      (scan_dword two_regions (2 ^ 32) memory 0 77 64)
scan_dword-IsScan_example =
    scan_dword-IsScan two_regions two_regions-IsQuery (2 ^ 32) (omega arith) memory 0 64 77

owner_of-Nearest_example : Nearest memory 0x11022 (0x11022 - 0x11022 % 4) (owner_of memory 0x11022)
owner_of-Nearest_example = owner_of-Nearest memory 0x11022 (omega arith)

abbrev readable_all : ℕ → ℕ → Bool
readable_all p n = false

abbrev three_letters : List ℕ
three_letters = 0x41 ∷ 0x41 ∷ 0x41 ∷ []

read_text_iff_example : (read_text readable_all memory 0x600000 16 ≡ some three_letters) ↔ (
    (plausible 0x600000 ≡ true)
    × (readable_all 0x600000 1 ≡ false)
    × (3 ≤ length three_letters)
    × Holds readable_all memory memory 1 three_letters 0x600000
    × Ends readable_all memory memory 1 (16 - 1) 0x600000 three_letters)
read_text_iff_example = read_text_iff readable_all memory 0x600000 16 three_letters

abbrev cpu : Cpu
cpu = record {
  eax = 1;
  ecx = 2;
  edx = 3;
  ebx = 0x10010;
  ebp = 5;
  esi = 6;
  edi = 7;
  flags = 8;
  stack = 9 ∷ [];
  eip = none;
  calls = [];
}

run-stub_bytes_example :
    run memory 100 101 102 103 (λ a b. a + b) 20 (stub_bytes 0x6A001234) cpu
    ≡ some (record (after_both memory 100 101 102 103 (λ a b. a + b) cpu) {
      calls = cpu.calls ++ (0x6A001234, cpu.ebx) ∷ [];
    })
run-stub_bytes_example =
    run-stub_bytes memory 100 101 102 103 (λ a b. a + b) 0x6A001234 cpu (omega arith)

abbrev bound_only : Calls
bound_only = record { socket = some 3; binds = true; listens = false }

idle : IsIdle idle_listener
idle = record { no_fd = refl; not_running = refl; not_joinable = refl }

stop_listening-start_example :
    Undone idle_listener (start_tunnel bound_only idle_listener)
    × Undone idle_listener (start_status 8080 bound_only idle_listener)
stop_listening-start_example = stop_listening-start bound_only 8080 idle_listener idle refl

abbrev serving : Listener
serving = record {
  listen_fd = some 3;
  running = true;
  joinable = true;
  opened = 3 ∷ [];
  aborted = false;
}

stop_tunnel-drains_example :
    let (s, n, warns) = stop_tunnel (λ i. 5 - i) 1 serving in
    (s ≡ stop_listening serving)
    × (n ≤ 7)
    × (5 - n ≡ 0)
    × ((j : ℕ) → j < n → 0 < 5 - j)
    × ((warns ≡ false) ↔ (◌≡◌ {A = ℕ} 1 0))
stop_tunnel-drains_example =
    stop_tunnel-drains (λ i. 5 - i) 1 serving 7 refl (omega arith) (omega arith)

-- `Quit` as a wide text at 0x10100.
abbrev with_quit : Memory
with_quit = write_bytes (λ a. 0) 0x10100 from

apply-find_all_example :
    (hits : List ℕ) × (find_all two_regions (2 ^ 32) 0x400000 0x500000 with_quit ≡ some hits)
    × (length hits ≤ max_hits)
    × (let m' = (apply (λ p. true) hits with_quit).0 in
        ((p : ℕ) → contains hits p ≡ true → true ≡ true → same_bytes m' to p ≡ true)
        × ((x : ℕ)
            → ((p : ℕ) → contains hits p ≡ true → (x < p) ⊎ (p + 8 ≤ x))
            → m' x ≡ with_quit x)
        × (apply (λ p. true) hits m' ≡ (m', 0)))
apply-find_all_example =
    apply-find_all with_quit two_regions two_regions-IsQuery (2 ^ 32) 0x400000 0x500000
      (omega arith) (λ p. true)
