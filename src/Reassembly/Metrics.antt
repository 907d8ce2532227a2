-- ===== src/Reassembly/Metrics.antt =====
-- `ReassemblyMetrics`. The counters do not wrap here.
use tuntom.Base.{ℕ}

pub record ReassemblyMetrics : Type 0 where
  pub active_entries : ℕ
  pub active_bytes : ℕ
  pub peak_entries : ℕ
  pub peak_bytes : ℕ
  pub discarded_ids : ℕ
  pub completed_packets : ℕ
  pub capacity_evictions : ℕ
  pub expired_entries : ℕ
  pub late_fragment_drops : ℕ
  pub invalid_fragments : ℕ
  pub overlap_drops : ℕ
  pub capacity_drops : ℕ
  pub discarded_id_evictions : ℕ
  pub session_discarded_entries : ℕ

abbrev pub no_metrics : ReassemblyMetrics
no_metrics = record {
  active_entries = 0;
  active_bytes = 0;
  peak_entries = 0;
  peak_bytes = 0;
  discarded_ids = 0;
  completed_packets = 0;
  capacity_evictions = 0;
  expired_entries = 0;
  late_fragment_drops = 0;
  invalid_fragments = 0;
  overlap_drops = 0;
  capacity_drops = 0;
  discarded_id_evictions = 0;
  session_discarded_entries = 0;
}
