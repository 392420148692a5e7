-- ===== src/Workers/Cache.antt =====
-- At most one probe of a process returns, and every call returns its facts.
use h2hdb_ingest.Prelude.{
  ℕ, zero, suc, ◌≡◌, Option, none, some, List, [], ◌∷◌, arith, refl, All, inl, inr, ◌∙◌, ◌+◌,
  Option-cases, Bool-cases,
}
use h2hdb_ingest.Workers.{CpuTopology}
use h2hdb_ingest.Workers.Detection.{
  Cached, read_cache, Progress, started, waiting, raised, returned, Process, Action, call, read,
  enter, set_thread, act, act_all, thread_at, read_by, enter_by, is_started, is_waiting,
}

-- the facts of this process, once they are cached
abbrev facts : Process → Option CpuTopology
facts s = read_cache s.pid s.cache

-- a call has returned nothing but the cached facts
abbrev pub IsShared : Option CpuTopology → Progress → Type 0
IsShared o (returned t) = o ≡ some t
IsShared o _ = Unit

abbrev count_of : Option CpuTopology → ℕ
count_of none = 0
count_of (some t) = 1

record IsSingle (s : Process) : Type 0 where
  shared : All (IsShared (read_cache s.pid s.cache)) s.threads
  counted : s.probes ≡ s.failed_probes + count_of (read_cache s.pid s.cache)

set_thread-IsShared :
    (o : Option CpuTopology) (i : ℕ) (p : Progress) (ts : List Progress)
    → IsShared o p
    → All (IsShared o) ts
    → All (IsShared o) (set_thread i p ts)
unfolding set_thread
set_thread-IsShared o i p [] h k = tt
set_thread-IsShared o zero p (t ∷ ts) h k = (h, k.1)
set_thread-IsShared o (suc i) p (t ∷ ts) h k = (k.0, set_thread-IsShared o i p ts h k.1)

-- Before the probe no call has returned, so any facts are shared.
IsShared-any :
    (t : CpuTopology) (ts : List Progress) → All (IsShared none) ts → All (IsShared (some t)) ts
IsShared-any t [] h = tt
IsShared-any t (started ∷ ts) h = (tt, IsShared-any t ts h.1)
IsShared-any t (waiting ∷ ts) h = (tt, IsShared-any t ts h.1)
IsShared-any t (raised ∷ ts) h = (tt, IsShared-any t ts h.1)
IsShared-any t (returned u ∷ ts) h = let e = h.0 in absurd (ground arith)

read_by-IsSingle :
    (i : ℕ) (s : Process) → IsSingle s → IsSingle (read_by i s (read_cache s.pid s.cache))
read_by-IsSingle i s h = elim (Option-cases (read_cache s.pid s.cache)) [
  | inl e ↦ rw e (record {
    shared = set_thread-IsShared (read_cache s.pid s.cache) i waiting s.threads tt h.shared;
    counted = h.counted;
  })
  | inr (t, e) ↦ rw e (record {
    shared = set_thread-IsShared (read_cache s.pid s.cache) i (returned t) s.threads e h.shared;
    counted = h.counted;
  })
]

cached_facts :
    (pid : ℕ) (t : CpuTopology)
    → read_cache pid (some (record { pid = pid; topology = t })) ≡ some t
unfolding read_cache
cached_facts pid t = ground arith

-- A probe that raises leaves no facts, and one that returns leaves its own.
probed-IsSingle :
    (i : ℕ) (probe : Option CpuTopology) (s : Process)
    → IsSingle s
    → read_cache s.pid s.cache ≡ none
    → IsSingle (enter_by i probe s none)
probed-IsSingle i none s h e = record {
  shared = set_thread-IsShared (read_cache s.pid s.cache) i raised s.threads tt h.shared;
  counted = omega (arith, h.counted);
}
probed-IsSingle i (some t) s h e =
    let f = cached_facts s.pid t in
    let before = IsShared-any t s.threads (rw e at h.shared) in
    let none_yet : s.probes ≡ s.failed_probes + 0 = rw e at h.counted in
    record {
      shared = rw f (set_thread-IsShared (some t) i (returned t) s.threads refl before);
      counted = rw f (omega arith);
    }

enter_by-IsSingle :
    (i : ℕ) (probe : Option CpuTopology) (s : Process)
    → IsSingle s
    → IsSingle (enter_by i probe s (read_cache s.pid s.cache))
enter_by-IsSingle i probe s h = elim (Option-cases (read_cache s.pid s.cache)) [
  | inr (t, e) ↦ rw e (record {
    shared = set_thread-IsShared (read_cache s.pid s.cache) i (returned t) s.threads e h.shared;
    counted = h.counted;
  })
  | inl e ↦ rw e (probed-IsSingle i probe s h e)
]

act-IsSingle : (s : Process) (a : Action) → IsSingle s → IsSingle (act s a)
unfolding act
act-IsSingle s call h = record { shared = (tt, h.shared); counted = h.counted }
act-IsSingle s (read i) h = elim (Bool-cases (is_started (thread_at i s.threads))) [
  | inl e ↦ rw e (read_by-IsSingle i s h)
  | inr e ↦ rw e h
]
act-IsSingle s (enter i probe) h = elim (Bool-cases (is_waiting (thread_at i s.threads))) [
  | inl e ↦ rw e (enter_by-IsSingle i probe s h)
  | inr e ↦ rw e h
]

act_all-IsSingle : (s : Process) (actions : List Action) → IsSingle s → IsSingle (act_all s actions)
unfolding act_all
act_all-IsSingle s [] h = h
act_all-IsSingle s (a ∷ actions) h = act_all-IsSingle (act s a) actions (act-IsSingle s a h)

-- Once there are facts of this process, no call probes, and the facts stay.
act-cached :
    (s : Process) (a : Action) (t : CpuTopology)
    → read_cache s.pid s.cache ≡ some t
    → (read_cache (act s a).pid (act s a).cache ≡ some t) × ((act s a).probes ≡ s.probes)
unfolding act
act-cached s call t e = (e, refl)
act-cached s (read i) t e = elim (Bool-cases (is_started (thread_at i s.threads))) [
  | inl b ↦ rw b (rw e (e, refl))
  | inr b ↦ rw b (e, refl)
]
act-cached s (enter i probe) t e = elim (Bool-cases (is_waiting (thread_at i s.threads))) [
  | inl b ↦ rw b (rw e (e, refl))
  | inr b ↦ rw b (e, refl)
]

act_all-cached :
    (s : Process) (actions : List Action) (t : CpuTopology)
    → read_cache s.pid s.cache ≡ some t
    → (act_all s actions).probes ≡ s.probes
unfolding act_all
act_all-cached s [] t e = refl
act_all-cached s (a ∷ actions) t e =
    let h = act-cached s a t e in act_all-cached (act s a) actions t h.0 ∙ h.1

-- a process in which no call was made, with the cache that it inherited: of another process or none
abbrev pub young : ℕ → Option Cached → Process
young pid cache = record { pid = pid; cache = cache; probes = 0; failed_probes = 0; threads = [] }

-- whether there are facts, and then no call of the later actions probes again
abbrev pub IsSettled : Process → List Action → Option CpuTopology → Type 0
IsSettled s later none = s.probes ≡ s.failed_probes
IsSettled s later (some t) =
    (s.probes ≡ s.failed_probes + 1) × ((act_all s later).probes ≡ s.probes)

IsSingle-IsSettled :
    (s : Process) (later : List Action) (o : Option CpuTopology)
    → read_cache s.pid s.cache ≡ o
    → IsSingle s
    → IsSettled s later o
IsSingle-IsSettled s later none e h = let k = h.counted in ground (arith, k, e)
IsSingle-IsSettled s later (some t) e h =
    let k = h.counted in (ground (arith, k, e), act_all-cached s later t e)

-- In a process whose cache holds no facts of its own, such as a fork's child, however the threads
-- interleave and whatever their probes would find or raise: as long as no facts are cached, every
-- probe has raised; once they are, just one probe has returned, and no later action probes again;
-- and every call that has returned has returned the facts that are cached.
pub act_all-young :
    (pid : ℕ) (cache : Option Cached) (actions later : List Action)
    → read_cache pid cache ≡ none
    → let s = act_all (young pid cache) actions in
      IsSettled s later (read_cache s.pid s.cache)
      × All (IsShared (read_cache s.pid s.cache)) s.threads
act_all-young pid cache actions later e =
    let s = act_all (young pid cache) actions in
    let h =
      act_all-IsSingle (young pid cache) actions (record { shared = tt; counted = rw e refl }) in
    (IsSingle-IsSettled s later (read_cache s.pid s.cache) refl h, h.shared)
