-- ===== src/Registry.antt =====
-- src/metric_registry.cc and src/metric_registry_impl.h: metrics by name. A name is the list of its
-- bytes and a metric is its address; each operation holds the mutex of its map throughout.
pub mod Lookup
pub mod Ownership
mod Tests
use ccmetrics.Base.{
  ℕ, zero, suc, ◌+◌, Bool, true, false, ◌&&◌, List, [], ◌∷◌, Option, none, some, ◌==◌,
  if◌then◌else◌,
}

abbrev pub Name : Type 0
Name = List ℕ

pub same_name : Name → Name → Bool
same_name [] [] = true
same_name [] (_ ∷ _) = false
same_name (_ ∷ _) [] = false
same_name (a ∷ s) (b ∷ t) = (a == b) && same_name s t

-- `MetricMap<T>`: the entries in some order.
abbrev pub MetricMap : Type 0
MetricMap = List (Name × ℕ)

-- `metrics.find(name)`.
pub find : Name → MetricMap → Option ℕ
unfolding same_name
find name [] = none
find name ((n, metric) ∷ metrics) =
    let rest = find name metrics in if same_name n name then some metric else rest

-- `MetricRegistryImpl`, the address that the next `new` returns, and the metrics deleted so far.
pub record MetricRegistryImpl : Type 0 where
  pub counters : MetricMap
  pub timers : MetricMap
  pub meters : MetricMap
  pub next_address : ℕ
  pub deleted : List ℕ

-- `MetricRegistry`: the public class, which holds a `MetricRegistryImpl` and forwards to it.
abbrev pub MetricRegistry : Type 0
MetricRegistry = MetricRegistryImpl

-- The constructor.
abbrev pub no_metrics : MetricRegistryImpl
no_metrics = record { counters = []; timers = []; meters = []; next_address = 1; deleted = [] }

-- The body that `counter`, `timer` and `meter` share, from the result of `find`: the metric that
-- exists, or a new one that is inserted. The last component is the next address.
pub found_or_new : Name → MetricMap → ℕ → Option ℕ → ℕ × MetricMap × ℕ
found_or_new name metrics fresh (some metric) = (metric, metrics, fresh)
found_or_new name metrics fresh none = (fresh, (name, fresh) ∷ metrics, fresh + 1)

pub get_or_create : Name → MetricMap → ℕ → ℕ × MetricMap × ℕ
unfolding found_or_new find
get_or_create name metrics fresh = found_or_new name metrics fresh (find name metrics)

-- `counter`.
pub counter : Name → MetricRegistryImpl → ℕ × MetricRegistryImpl
unfolding get_or_create
counter name r =
    let (metric, metrics, next) = get_or_create name r.counters r.next_address in
    (metric, record r { counters = metrics; next_address = next })

-- `timer`.
pub timer : Name → MetricRegistryImpl → ℕ × MetricRegistryImpl
unfolding get_or_create
timer name r =
    let (metric, metrics, next) = get_or_create name r.timers r.next_address in
    (metric, record r { timers = metrics; next_address = next })

-- `meter`.
pub meter : Name → MetricRegistryImpl → ℕ × MetricRegistryImpl
unfolding get_or_create
meter name r =
    let (metric, metrics, next) = get_or_create name r.meters r.next_address in
    (metric, record r { meters = metrics; next_address = next })

-- `deleteMetrics`: the nodes deleted so far, the latest first.
pub delete_metrics : MetricMap → List ℕ → List ℕ
delete_metrics [] deleted = deleted
delete_metrics ((n, metric) ∷ metrics) deleted = delete_metrics metrics (metric ∷ deleted)

-- `~MetricRegistryImpl`: what is deleted by the end of it.
pub destroy : MetricRegistryImpl → List ℕ
unfolding delete_metrics
destroy r = delete_metrics r.timers (delete_metrics r.counters r.deleted)
