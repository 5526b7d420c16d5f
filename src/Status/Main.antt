-- ===== src/Status/Main.antt =====
-- main of Server/src/main.cpp: what is started and stopped, and the exit status.
use crossover.Prelude.{
  ℕ, zero, suc, Bool, true, false, not, List, [], ◌∷◌, ◌++◌, reverse, ◌&&◌, ◌≡◌, refl,
  if◌then◌else◌, if_cases,
}
use crossover.Config.{Config}

pub data Part : Type 0 where
  relay tunnel status_page : Part

pub data Action : Type 0 where
  starts stops : (p : Part) → Action
  ticks : Action

-- What the calls return, and how often the loop runs before a signal ends it. The result of
-- status.Start is not looked at.
pub record Answers : Type 0 where
  pub self_test : Bool
  pub relay_starts : Bool
  pub tunnel_starts : Bool
  pub rounds : ℕ

unfoldable pub main_loop : ℕ → List Action
main_loop zero = []
main_loop (suc n) = ticks ∷ main_loop n

abbrev pub if_enabled : Bool → Action → List Action
if_enabled enabled a = if enabled then a ∷ [] else []

-- With everything started.
abbrev pub run_server : Bool → ℕ → List Action
run_server enabled rounds =
    if_enabled enabled (starts tunnel)
    ++ (starts status_page
        ∷ (main_loop rounds
            ++ stops status_page ∷ (if_enabled enabled (stops tunnel) ++ stops relay ∷ [])))

unfoldable pub run_main : Config → Answers → List Action × ℕ
run_main c a =
    if not a.self_test
    then ([], 1)
    else if not a.relay_starts
    then ([], 1)
    else if c.tunnel_enabled && not a.tunnel_starts
    then (starts relay ∷ stops relay ∷ [], 1)
    else (starts relay ∷ run_server c.tunnel_enabled a.rounds, 0)

-- The parts that are started, and those that are stopped, in order.
abbrev pub started : List Action → List Part
started [] = []
started (starts p ∷ as') = p ∷ started as'
started (stops p ∷ as') = started as'
started (ticks ∷ as') = started as'

abbrev pub stopped : List Action → List Part
stopped [] = []
stopped (starts p ∷ as') = stopped as'
stopped (stops p ∷ as') = p ∷ stopped as'
stopped (ticks ∷ as') = stopped as'

started-main_loop : (n : ℕ) (as' : List Action) → started (main_loop n ++ as') ≡ started as'
unfolding main_loop
started-main_loop zero as' = refl
started-main_loop (suc n) as' = started-main_loop n as'

stopped-main_loop : (n : ℕ) (as' : List Action) → stopped (main_loop n ++ as') ≡ stopped as'
unfolding main_loop
stopped-main_loop zero as' = refl
stopped-main_loop (suc n) as' = stopped-main_loop n as'

abbrev Mirrors : List Action → Type 0
Mirrors as' = stopped as' ≡ reverse (started as')

run_server-Mirrors : (enabled : Bool) (n : ℕ) → Mirrors (starts relay ∷ run_server enabled n)
run_server-Mirrors true n = rw (started-main_loop n, stopped-main_loop n) refl
run_server-Mirrors false n = rw (started-main_loop n, stopped-main_loop n) refl

-- On every path through main, what was started is stopped, in the opposite order.
pub stopped-run_main :
    (c : Config) (a : Answers) → stopped (run_main c a).0 ≡ reverse (started (run_main c a).0)
unfolding run_main
stopped-run_main c a =
    if_cases {A = List Action × ℕ} (λ r. Mirrors r.0) (not a.self_test) (λ _. refl)
      (λ _.
        if_cases {A = List Action × ℕ} (λ r. Mirrors r.0) (not a.relay_starts) (λ _. refl)
          (λ _.
            if_cases {A = List Action × ℕ} (λ r. Mirrors r.0)
              (c.tunnel_enabled && not a.tunnel_starts) (λ _. refl)
              (λ _. run_server-Mirrors c.tunnel_enabled a.rounds)))
