-- ===== src/Tests/Workers.antt =====
-- The theorems about page workers at concrete inputs.
use h2hdb_ingest.Prelude.{ℕ, ◌≡◌, true, false, none, some, List, [], ◌∷◌, All, refl}
use h2hdb_ingest.Workers.{
  CpuTopology, native, decide_page_render_workers, resolve_page_render_workers, selected_of,
}
use h2hdb_ingest.Workers.Detection.{Cached, read_cache, Action, call, read, enter, act_all}
use h2hdb_ingest.Workers.Choice.{IsDecided, decide-IsDecided, resolve-eq-decide}
use h2hdb_ingest.Workers.Cache.{IsShared, IsSettled, young, act_all-young}

-- a machine with `n` performance cores
abbrev mac : ℕ → CpuTopology
mac n = record {
  is_darwin = true;
  is_intel_machine = false;
  process_cpu_count = some 24;
  cpu_count = some 24;
  darwin_performance_cores = some n;
  darwin_physical_cores = none;
  darwin_translation = native;
}

decide-IsDecided_example : IsDecided none (mac 20) (decide_page_render_workers none (mac 20))
decide-IsDecided_example = decide-IsDecided none (mac 20)

resolve-eq-decide_example :
    resolve_page_render_workers (some 17) (mac 20)
    ≡ selected_of (decide_page_render_workers (some 17) (mac 20))
resolve-eq-decide_example = resolve-eq-decide (some 17) (mac 20)

-- the facts of the parent process
abbrev inherited : Cached
inherited = record { pid = 1; topology = mac 4 }

-- two threads miss the cache, and both enter; the first one's probe raises
abbrev actions : List Action
actions = call ∷ call ∷ read 0 ∷ read 1 ∷ enter 1 none ∷ enter 0 (some (mac 6)) ∷ []

-- a third thread, which reads what the second one has cached
abbrev later : List Action
later = call ∷ read 0 ∷ enter 0 (some (mac 8)) ∷ []

foreign : read_cache 2 (some inherited) ≡ none
unfolding read_cache
foreign = refl

act_all-young_example :
    let s = act_all (young 2 (some inherited)) actions in
    IsSettled s later (read_cache s.pid s.cache)
    × All (IsShared (read_cache s.pid s.cache)) s.threads
act_all-young_example = act_all-young 2 (some inherited) actions later foreign
