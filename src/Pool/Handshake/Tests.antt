-- ===== src/Pool/Handshake/Tests.antt =====
-- Two threads: half of a start with a new semaphore, and a start with one that is not.
use let_us_connect_http_serv.Base.{arith, refl, some, ◌*◌, ◌+◌, ◌≤◌, ◌⊎◌}
use let_us_connect_http_serv.Pool.Family.{set_at}
use let_us_connect_http_serv.Pool.Handshake.{
  Reach, Starting, Step, absent, awaits, born, creates, holds, later, reads, start,
}
use let_us_connect_http_serv.Pool.Handshake.Ready.{AreReady, HasOwn, start-HasOwn, start-ends}

-- The first thread has read its state.
abbrev first_reads : Starting
first_reads = record {
  args = some 0;
  init_sem = 0;
  owner = awaits 0;
  children = set_at (set_at (λ _. absent) 0 born) 0 (holds 0);
}

first_reads-Reach : Reach 2 0 2 first_reads
first_reads-Reach = later (later start (creates 0 (omega arith) refl)) (reads 0 0 refl refl)

start-HasOwn_example : HasOwn first_reads.args 0 (first_reads.children 0)
start-HasOwn_example = start-HasOwn 2 2 first_reads 0 first_reads-Reach

start-ends_example :
    (2 ≤ 4 * 2 + 1) × (AreReady 2 first_reads.children ⊎ ((t : Starting) × Step 2 first_reads t))
start-ends_example = start-ends 2 2 first_reads first_reads-Reach
