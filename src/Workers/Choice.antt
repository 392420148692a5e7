-- ===== src/Workers/Choice.antt =====
-- Every decision is consistent with its own evidence, and within the bounds.
use h2hdb_ingest.Prelude.{
  ℕ, ◌≡◌, ◌≤◌, min, true, false, ◌&&◌, Option, none, some, Result, ok, err, arith, is_some, leb,
  Option-cases, Bool-cases, inl, inr, ◌⊎◌, refl, subst, sym,
}
use h2hdb_ingest.Workers.{
  Translation, native, translated, unknown, not_probed, auto, Reason, is_fallback, is_manual_reason,
  CpuTopology, Decision, check_decision, plausible_cpu_count, counted, intel_decision,
  detected_decision, fallback_decision, darwin_automatic_decision, automatic_decision,
  decide_page_render_workers, resolve_page_render_workers, selected_of, max_page_render_workers,
  max_plausible_detected_cpus, Error,
}

-- one worker, because nothing was detected
abbrev pub IsFallback : Decision → Type 0
IsFallback d = (is_fallback d.reason ≡ true) × (d.detected ≡ none) × (d.selected ≡ 1)

-- the detected count, up to the cap
pub record IsDetected (d : Decision) : Type 0 where
  pub count : ℕ
  pub reason : is_fallback d.reason ≡ false
  pub detected : d.detected ≡ some count
  pub plausible : (1 ≤ count) × (count ≤ max_plausible_detected_cpus)
  pub selected : d.selected ≡ min count max_page_render_workers

-- what a decision must be for a configured override and a topology
abbrev pub IsDecided : Option ℕ → CpuTopology → Result Error Decision → Type 0
IsDecided none t (ok d) = (d.topology ≡ t) × (d.configured ≡ none) × (IsFallback d ⊎ IsDetected d)
IsDecided none t (err e) = ⊥
IsDecided (some n) t (ok d) =
    (d.topology ≡ t)
    × (d.selected ≡ n)
    × (d.configured ≡ some n)
    × (d.detected ≡ none)
    × (1 ≤ n)
    × (n ≤ max_page_render_workers)
IsDecided (some n) t (err e) = (leb 1 n && leb n max_page_render_workers) ≡ false

detected_decision-IsDecided :
    (t : CpuTopology) (n : ℕ) (r : Reason)
    → 1 ≤ n
    → n ≤ max_plausible_detected_cpus
    → is_fallback r ≡ false
    → is_manual_reason r ≡ false
    → IsDecided none t (detected_decision t n r)
unfolding detected_decision check_decision
detected_decision-IsDecided t n r h k f m =
    let d : Decision = record {
      mode = auto;
      configured = none;
      selected = min n max_page_render_workers;
      detected = some n;
      hard_cap = max_page_render_workers;
      reason = r;
      topology = t;
    } in
    let e : IsDetected d = record {
      count = n;
      reason = f;
      detected = refl;
      plausible = (h, k);
      selected = refl;
    } in
    ground arith

fallback_decision-IsDecided :
    (t : CpuTopology) (r : Reason)
    → is_fallback r ≡ true
    → is_manual_reason r ≡ false
    → IsDecided none t (fallback_decision t r)
unfolding fallback_decision check_decision
fallback_decision-IsDecided t r f m = ground arith

plausible_bounds :
    (o : Option ℕ) (n : ℕ)
    → plausible_cpu_count o ≡ some n
    → (1 ≤ n) × (n ≤ max_plausible_detected_cpus)
unfolding plausible_cpu_count
plausible_bounds o n h = ground arith

counted-IsDecided :
    (t : CpuTopology) (o : Option ℕ) (r : Reason)
    → is_fallback r ≡ false
    → is_manual_reason r ≡ false
    → IsDecided none t (counted t (plausible_cpu_count o) r)
counted-IsDecided t o r f m = elim (Option-cases (plausible_cpu_count o)) [
  | inl e ↦ rw e (fallback_decision-IsDecided t Reason.cpu_count_unavailable_fallback refl refl)
  | inr (n, e) ↦
      let b = plausible_bounds o n e in rw e (detected_decision-IsDecided t n r b.0 b.1 f m)
]

by_equation :
    (t : CpuTopology) (x y : Result Error Decision)
    → x ≡ y
    → IsDecided none t y
    → IsDecided none t x
by_equation t x y e h = subst (IsDecided none t) (sym e) h

intel_decision-IsDecided :
    (t : CpuTopology) (x : Translation) → IsDecided none t (intel_decision t x)
intel_decision-IsDecided t translated =
    fallback_decision-IsDecided t Reason.darwin_intel_translated_fallback refl refl
intel_decision-IsDecided t unknown =
    fallback_decision-IsDecided t Reason.darwin_intel_translation_unknown_fallback refl refl
intel_decision-IsDecided t not_probed =
    fallback_decision-IsDecided t Reason.darwin_intel_translation_unknown_fallback refl refl
intel_decision-IsDecided t native =
    elim (Option-cases (plausible_cpu_count t.darwin_physical_cores)) [
      | inl e ↦ by_equation t (intel_decision t native) _ (ground arith) (
          fallback_decision-IsDecided t Reason.darwin_intel_physical_cores_unavailable_fallback refl
            refl)
      | inr (n, e) ↦
          let b = plausible_bounds t.darwin_physical_cores n e in
          by_equation t (intel_decision t native) _ (ground arith) (
            detected_decision-IsDecided t n Reason.darwin_intel_native_physical_cores b.0 b.1 refl
              refl)
    ]

darwin-IsDecided : (t : CpuTopology) → IsDecided none t (darwin_automatic_decision t)
unfolding darwin_automatic_decision
darwin-IsDecided t = elim (Option-cases (plausible_cpu_count t.darwin_performance_cores)) [
  | inr (n, e) ↦
      let b = plausible_bounds t.darwin_performance_cores n e in
      by_equation t _ _ (ground arith)
        (detected_decision-IsDecided t n Reason.darwin_performance_cores b.0 b.1 refl refl)
  | inl e ↦ elim (Bool-cases t.is_intel_machine) [
    | inr m ↦ by_equation t _ _ (ground arith) (
        fallback_decision-IsDecided t Reason.darwin_performance_cores_unavailable_fallback refl
          refl)
    | inl m ↦ by_equation t _ _ (ground arith) (intel_decision-IsDecided t t.darwin_translation)
  ]
]

automatic_decision-IsDecided : (t : CpuTopology) → IsDecided none t (automatic_decision t)
unfolding automatic_decision
automatic_decision-IsDecided t = elim (Bool-cases t.is_darwin) [
  | inl a ↦ by_equation t _ _ (ground arith) (darwin-IsDecided t)
  | inr a ↦ elim (Bool-cases (is_some t.process_cpu_count)) [
    | inl c ↦
        by_equation t _ _ (ground arith)
          (counted-IsDecided t t.process_cpu_count Reason.process_cpu_count refl refl)
    | inr c ↦
        by_equation t _ _ (ground arith)
          (counted-IsDecided t t.cpu_count Reason.cpu_count refl refl)
  ]
]

-- For every topology and every override, the decision passes its own checks, so it never raises but
-- for an override that is out of range. An override in range is preserved; an automatic decision
-- selects one worker by a fallback reason, or the detected count, from 1 to 1024, capped at 16.
pub decide-IsDecided :
    (configured : Option ℕ) (t : CpuTopology)
    → IsDecided configured t (decide_page_render_workers configured t)
unfolding decide_page_render_workers check_decision
decide-IsDecided none t = automatic_decision-IsDecided t
decide-IsDecided (some n) t = ground arith

-- The integer that renderers use is the one of the decision, errors included.
pub resolve-eq-decide :
    (configured : Option ℕ) (t : CpuTopology)
    → resolve_page_render_workers configured t
      ≡ selected_of (decide_page_render_workers configured t)
unfolding resolve_page_render_workers decide_page_render_workers check_decision
resolve-eq-decide none t = refl
resolve-eq-decide (some n) t = ground arith
