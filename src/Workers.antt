-- ===== src/Workers.antt =====
-- page_workers.py: how many workers render pages, and why.
pub mod Choice
pub mod Detection
pub mod Cache
use h2hdb_ingest.Prelude.{
  zero, suc, ◌+◌, List, [], ◌∷◌, ℕ, min, Bool, true, false, not, ◌&&◌, ◌||◌, Option, none, some,
  Result, ok, err, ltb, leb, ◌==◌, if◌then◌else◌, is_some, same,
}

pub data Translation : Type 0 where
  native translated unknown not_probed : Translation

pub data Mode : Type 0 where
  auto manual : Mode

pub data Reason : Type 0 where
  manual_override darwin_performance_cores darwin_intel_native_physical_cores : Reason
  darwin_intel_translated_fallback darwin_intel_translation_unknown_fallback : Reason
  darwin_intel_physical_cores_unavailable_fallback : Reason
  darwin_performance_cores_unavailable_fallback process_cpu_count cpu_count : Reason
  cpu_count_unavailable_fallback : Reason

pub data Error : Type 0 where
  lacks_translation_probe foreign_darwin_facts : Error
  other_hard_cap selected_out_of_range manual_value_changed lacks_manual_reason : Error
  automatic_configured automatic_manual_reason fallback_selects_one detected_not_capped : Error
  workers_out_of_range : Error

abbrev pub max_page_render_workers : ℕ
max_page_render_workers = 16

abbrev pub conservative_fallback : ℕ
conservative_fallback = 1

abbrev pub max_plausible_detected_cpus : ℕ
max_plausible_detected_cpus = 1024

-- `_FALLBACK_REASONS`
abbrev pub is_fallback : Reason → Bool
is_fallback darwin_intel_translated_fallback = true
is_fallback darwin_intel_translation_unknown_fallback = true
is_fallback darwin_intel_physical_cores_unavailable_fallback = true
is_fallback darwin_performance_cores_unavailable_fallback = true
is_fallback cpu_count_unavailable_fallback = true
is_fallback _ = false

abbrev pub is_manual_reason : Reason → Bool
is_manual_reason manual_override = true
is_manual_reason _ = false

abbrev pub is_probed : Translation → Bool
is_probed not_probed = false
is_probed _ = true

-- The platform and the machine are read once, as the two tests that the code makes on them.
pub record CpuTopology : Type 0 where
  pub is_darwin : Bool
  pub is_intel_machine : Bool
  pub process_cpu_count : Option ℕ
  pub cpu_count : Option ℕ
  pub darwin_performance_cores : Option ℕ
  pub darwin_physical_cores : Option ℕ
  pub darwin_translation : Translation

-- `_CpuTopology.__post_init__`
unfoldable pub check_topology : CpuTopology → Result Error CpuTopology
check_topology t =
    if t.is_darwin
    then (if is_probed t.darwin_translation then ok t else err Error.lacks_translation_probe)
    else if is_some t.darwin_performance_cores
        || (is_some t.darwin_physical_cores || is_probed t.darwin_translation)
    then err Error.foreign_darwin_facts
    else ok t

pub record Decision : Type 0 where
  pub mode : Mode
  pub configured : Option ℕ
  pub selected : ℕ
  pub detected : Option ℕ
  pub hard_cap : ℕ
  pub reason : Reason
  pub topology : CpuTopology

-- the checks of a manual decision and of an automatic one
abbrev check_mode : Decision → Mode → Result Error Decision
check_mode d manual =
    if not (same d.configured (some d.selected)) || is_some d.detected
    then err Error.manual_value_changed
    else if is_manual_reason d.reason
    then ok d
    else err Error.lacks_manual_reason
check_mode d auto =
    if is_some d.configured
    then err Error.automatic_configured
    else if is_manual_reason d.reason
    then err Error.automatic_manual_reason
    else if is_fallback d.reason
    then (if is_some d.detected || not (d.selected == conservative_fallback)
        then err Error.fallback_selects_one
        else ok d)
    else elim d.detected [
      | none ↦ err Error.detected_not_capped
      | some n ↦ if d.selected == min n d.hard_cap then ok d else err Error.detected_not_capped
    ]

-- `_PageRenderWorkerDecision.__post_init__`
unfoldable pub check_decision : Decision → Result Error Decision
check_decision d =
    if not (d.hard_cap == max_page_render_workers)
    then err Error.other_hard_cap
    else if not (leb 1 d.selected && leb d.selected d.hard_cap)
    then err Error.selected_out_of_range
    else check_mode d d.mode

-- `_plausible_cpu_count`
unfoldable pub plausible_cpu_count : Option ℕ → Option ℕ
plausible_cpu_count none = none
plausible_cpu_count (some n) = if leb 1 n && leb n max_plausible_detected_cpus then some n else none

-- `_detected_decision`
unfoldable pub detected_decision : CpuTopology → ℕ → Reason → Result Error Decision
detected_decision topology detected reason = check_decision (record {
  mode = auto;
  configured = none;
  selected = min detected max_page_render_workers;
  detected = some detected;
  hard_cap = max_page_render_workers;
  reason = reason;
  topology = topology;
})

-- `_fallback_decision`
unfoldable pub fallback_decision : CpuTopology → Reason → Result Error Decision
fallback_decision topology reason = check_decision (record {
  mode = auto;
  configured = none;
  selected = conservative_fallback;
  detected = none;
  hard_cap = max_page_render_workers;
  reason = reason;
  topology = topology;
})

-- the Intel branch of `_darwin_automatic_decision`, by the translation status
abbrev pub intel_decision : CpuTopology → Translation → Result Error Decision
intel_decision t translated = fallback_decision t darwin_intel_translated_fallback
intel_decision t unknown = fallback_decision t darwin_intel_translation_unknown_fallback
intel_decision t not_probed = fallback_decision t darwin_intel_translation_unknown_fallback
intel_decision t native = elim (plausible_cpu_count t.darwin_physical_cores) [
  | none ↦ fallback_decision t darwin_intel_physical_cores_unavailable_fallback
  | some n ↦ detected_decision t n darwin_intel_native_physical_cores
]

-- `_darwin_automatic_decision`
unfoldable pub darwin_automatic_decision : CpuTopology → Result Error Decision
darwin_automatic_decision t = elim (plausible_cpu_count t.darwin_performance_cores) [
  | some n ↦ detected_decision t n Reason.darwin_performance_cores
  | none ↦
      if not t.is_intel_machine
      then fallback_decision t darwin_performance_cores_unavailable_fallback
      else intel_decision t t.darwin_translation
]

abbrev pub counted : CpuTopology → Option ℕ → Reason → Result Error Decision
counted t none reason = fallback_decision t cpu_count_unavailable_fallback
counted t (some n) reason = detected_decision t n reason

-- `_automatic_decision`
unfoldable pub automatic_decision : CpuTopology → Result Error Decision
automatic_decision t =
    if t.is_darwin
    then darwin_automatic_decision t
    else if is_some t.process_cpu_count
    then counted t (plausible_cpu_count t.process_cpu_count) Reason.process_cpu_count
    else counted t (plausible_cpu_count t.cpu_count) Reason.cpu_count

-- `_require_manual_workers`
abbrev pub require_manual_workers : ℕ → Result Error ℕ
require_manual_workers n =
    if leb 1 n && leb n max_page_render_workers then ok n else err Error.workers_out_of_range

abbrev manual_decision : CpuTopology → Result Error ℕ → Result Error Decision
manual_decision t (err e) = err e
manual_decision t (ok n) = check_decision (record {
  mode = manual;
  configured = some n;
  selected = n;
  detected = none;
  hard_cap = max_page_render_workers;
  reason = manual_override;
  topology = t;
})

-- `_decide_page_render_workers`, with the topology that is given or detected
unfoldable pub decide_page_render_workers : Option ℕ → CpuTopology → Result Error Decision
decide_page_render_workers none t = automatic_decision t
decide_page_render_workers (some n) t = manual_decision t (require_manual_workers n)

abbrev pub selected_of : Result Error Decision → Result Error ℕ
selected_of (ok d) = ok d.selected
selected_of (err e) = err e

-- `resolve_page_render_workers`
unfoldable pub resolve_page_render_workers : Option ℕ → CpuTopology → Result Error ℕ
resolve_page_render_workers none t = selected_of (automatic_decision t)
resolve_page_render_workers (some n) t = require_manual_workers n
