-- ===== src/Core/Metrics.antt =====
-- core/metrics.go: the interface `Metrics`, as the list of the events that were reported to it.
-- Durations are not modelled.

pub data Status : Type 0 where
  hit miss success error : Status

pub data Op : Type 0 where
  find find_by_domain create delete delete_by_instance : Op

pub data Event : Type 0 where
  query : Status → Event
  cache_refresh : Status → Event
  repository_op : Op → Status → Event
