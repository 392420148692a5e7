-- ===== src/Workers/Detection.antt =====
-- page_workers.py: the CPU topology that the threads of a process share.
use h2hdb_ingest.Prelude.{
  ℕ, zero, suc, ◌+◌, Bool, true, false, Option, none, some, List, [], ◌∷◌, ◌==◌, if◌then◌else◌,
}
use h2hdb_ingest.Workers.{CpuTopology}

-- `_topology_cache`: the process that probed, and its facts
pub record Cached : Type 0 where
  pub pid : ℕ
  pub topology : CpuTopology

-- the read of the cache, with no lock or under it
unfoldable pub read_cache : ℕ → Option Cached → Option CpuTopology
read_cache pid none = none
read_cache pid (some c) = if c.pid == pid then some c.topology else none

-- One thread's call of `_detect_cpu_topology`: a read with no lock, and on a miss another one under
-- the lock, which also covers the probe and the write. A probe that raises leaves the cache as it is
-- and the call raises.
pub data Progress : Type 0 where
  started waiting raised : Progress
  returned : CpuTopology → Progress

pub record Process : Type 0 where
  pub pid : ℕ
  pub cache : Option Cached
  pub probes : ℕ
  pub failed_probes : ℕ
  pub threads : List Progress

-- another thread calls, a thread reads the cache, or a thread takes the lock and goes on to its end,
-- with what its probe, if it makes one, would find or that it raises
pub data Action : Type 0 where
  call : Action
  read : ℕ → Action
  enter : ℕ → Option CpuTopology → Action

abbrev pub thread_at : ℕ → List Progress → Option Progress
thread_at i [] = none
thread_at zero (t ∷ ts) = some t
thread_at (suc i) (t ∷ ts) = thread_at i ts

unfoldable pub set_thread : ℕ → Progress → List Progress → List Progress
set_thread i p [] = []
set_thread zero p (t ∷ ts) = p ∷ ts
set_thread (suc i) p (t ∷ ts) = t ∷ set_thread i p ts

abbrev pub read_by : ℕ → Process → Option CpuTopology → Process
read_by i s none = record s { threads = set_thread i waiting s.threads }
read_by i s (some t) = record s { threads = set_thread i (returned t) s.threads }

abbrev pub enter_by : ℕ → Option CpuTopology → Process → Option CpuTopology → Process
enter_by i probe s (some t) = record s { threads = set_thread i (returned t) s.threads }
enter_by i (some t) s none = record s {
  cache = some (record { pid = s.pid; topology = t });
  probes = s.probes + 1;
  threads = set_thread i (returned t) s.threads;
}
enter_by i none s none = record s {
  probes = s.probes + 1;
  failed_probes = s.failed_probes + 1;
  threads = set_thread i raised s.threads;
}

abbrev pub is_started : Option Progress → Bool
is_started (some started) = true
is_started _ = false

abbrev pub is_waiting : Option Progress → Bool
is_waiting (some waiting) = true
is_waiting _ = false

unfoldable pub act : Process → Action → Process
act s call = record s { threads = started ∷ s.threads }
act s (read i) =
    if is_started (thread_at i s.threads) then read_by i s (read_cache s.pid s.cache) else s
act s (enter i probe) =
    if is_waiting (thread_at i s.threads) then enter_by i probe s (read_cache s.pid s.cache) else s

unfoldable pub act_all : Process → List Action → Process
act_all s [] = s
act_all s (a ∷ actions) = act_all (act s a) actions
