-- ===== src/Tunnel/Accept.antt =====
-- AcceptLoop of Server/src/Tunnel.cpp and the workers that it starts. `active_` is compared by the
-- accepting thread and counted up by the worker, once that runs.
use crossover.Prelude.{ℕ, zero, suc, ◌+◌, ◌≤◌, ◌<◌, ◌≡◌, refl, arith, subst}

pub record Workers : Type 0 where
  pub active : ℕ
  pub starting : ℕ  -- threads that were started and have not yet counted themselves

abbrev pub no_workers : Workers
no_workers = record { active = 0; starting = 0 }

-- A connection is refused or handed to a new thread; a thread counts itself in, and out at its end.
pub data Step (max_connections : ℕ) (w : Workers) : Workers → Type 0 where
  refuse : max_connections ≤ w.active → Step max_connections w w
  accept :
      w.active < max_connections → Step max_connections w (record w { starting = suc w.starting })
  begin :
      (n : ℕ)
      → w.starting ≡ suc n
      → Step max_connections w (record { active = suc w.active; starting = n })
  finish : (n : ℕ) → w.active ≡ suc n → Step max_connections w (record w { active = n })

pub data Reach (max_connections : ℕ) : Workers → Type 0 where
  start : Reach max_connections no_workers
  next :
      {v w : Workers} → Reach max_connections v → Step max_connections v w → Reach max_connections w

-- Connections accepted in a burst, before any worker runs.
burst : (max n : ℕ) → 0 < max → Reach max (record { active = 0; starting = n })
burst max zero h = start
burst max (suc n) h = next (burst max n h) (accept h)

all_begin :
    (max n k m : ℕ)
    → k + n ≡ m
    → Reach max (record { active = k; starting = n })
    → Reach max (record { active = m; starting = 0 })
all_begin max zero k m e r =
    subst (λ a. Reach max (record { active = a; starting = 0 })) (omega arith) r
all_begin max (suc n) k m e r = all_begin max n (suc k) m (omega arith) (next r (begin n refl))

-- The limit on connections, if it lets anybody in, does not hold: any number of workers can be
-- active at once, since the accepting thread may take more connections before the workers of the
-- earlier ones count themselves.
pub capacity_exceeded : (max n : ℕ) → 0 < max → Reach max (record { active = n; starting = 0 })
capacity_exceeded max n h = all_begin max n 0 n (omega arith) (burst max n h)

-- A schedule in which each worker counts itself before the next connection is accepted.
pub data Prompt (max_connections : ℕ) : Workers → Type 0 where
  start : Prompt max_connections no_workers
  accept :
      {w : Workers}
      → Prompt max_connections w
      → w.active < max_connections
      → w.starting ≡ 0
      → Prompt max_connections (record w { starting = 1 })
  other :
      {v w : Workers}
      → Prompt max_connections v
      → Step max_connections v w
      → w.starting ≤ v.starting
      → Prompt max_connections w

-- The limit on connections holds if every worker counts itself before the next connection is
-- accepted: then the workers that count themselves, with the one that is starting, never exceed
-- the limit.
pub Prompt-total-le : (max : ℕ) {w : Workers} → Prompt max w → w.active + w.starting ≤ max
Prompt-total-le max start = omega arith
Prompt-total-le max (accept p h e) = omega (arith, Prompt-total-le max p)
Prompt-total-le max (other p (refuse h) le) = Prompt-total-le max p
Prompt-total-le max (other p (accept h) le) = omega (arith, Prompt-total-le max p)
Prompt-total-le max (other p (begin n e) le) = omega (arith, Prompt-total-le max p)
Prompt-total-le max (other p (finish n e) le) = omega (arith, Prompt-total-le max p)
