-- ===== src/Pool/Handshake/Stale.antt =====
-- A semaphore INIT_SEM that was left with a value, which `sem_open` with O_CREAT then opens as it is.
use let_us_connect_http_serv.Base.{arith, refl, some, suc, ℕ, ◌<◌, ◌≡◌}
use let_us_connect_http_serv.Pool.Family.{set_at}
use let_us_connect_http_serv.Pool.Handshake.{
  Reach, Starting, absent, awaits, born, creates, goes_on, holds, later, reads, start,
}

-- The owner runs ahead: the first thread is created, the owner finds the semaphore up and creates
-- the second, and only then the first one reads `args`.
abbrev ahead : ℕ → Starting
ahead value = record {
  args = some 1;
  init_sem = value;
  owner = awaits 1;
  children = set_at (set_at (set_at (λ _. absent) 0 born) 1 born) 0 (holds 1);
}

-- When the semaphore has a value already, and there are at least two threads, the first thread can
-- come to hold the state of the second.
stale_semaphore :
    (n value : ℕ)
    → 1 < n
    → (k : ℕ) × (s : Starting) × Reach n (suc value) k s × (s.children 0 ≡ holds 1)
stale_semaphore n value h = (
  4,
  ahead value,
  later
      (later (later (later start (creates 0 (omega arith) refl)) (goes_on 0 value refl refl))
        (creates 1 h refl))
      (reads 0 1 refl refl),
  refl,
)
