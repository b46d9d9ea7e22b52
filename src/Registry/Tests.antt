-- ===== src/Registry/Tests.antt =====
-- The theorems about the registry at concrete inputs.
use ccmetrics.Base.{if◌then◌else◌, occurrences, ℕ, ◌+◌, ◌≡◌, [], ◌∷◌, some, arith}
use ccmetrics.Registry.{
  Name, MetricMap, same_name, find, get_or_create, MetricRegistryImpl, no_metrics, counter, meter,
  destroy,
}
use ccmetrics.Registry.Lookup.{get_or_create_lem}
use ccmetrics.Registry.Ownership.{
  owned, IsOwned, Registered, constructed, with_counter, with_meter, Registered-IsOwned,
  destroy_leaks_meters,
}

abbrev requests : Name
requests = 114 ∷ 101 ∷ 113 ∷ []

abbrev one_counter : MetricMap
one_counter = (114 ∷ [], 1) ∷ []

get_or_create_lem_example :
    (find requests (get_or_create requests one_counter 2).1
      ≡ some (get_or_create requests one_counter 2).0)
    × ((later : ℕ)
        → get_or_create requests (get_or_create requests one_counter 2).1 later ≡ (
          (get_or_create requests one_counter 2).0,
          (get_or_create requests one_counter 2).1,
          later,
        ))
    × ((other : Name)
        → find other (get_or_create requests one_counter 2).1 ≡ (
            if same_name requests other
            then some (get_or_create requests one_counter 2).0
            else find other one_counter))
get_or_create_lem_example = get_or_create_lem requests one_counter 2

abbrev two_metrics : MetricRegistryImpl
two_metrics = (meter requests (counter requests no_metrics).1).1

two_metrics-Registered : Registered two_metrics
two_metrics-Registered = with_meter requests (with_counter requests constructed)

Registered-IsOwned_example : IsOwned two_metrics
Registered-IsOwned_example = Registered-IsOwned two_metrics two_metrics-Registered

destroy_leaks_meters_example : occurrences 2 (destroy two_metrics) + owned 2 two_metrics.meters ≡ 1
destroy_leaks_meters_example =
    destroy_leaks_meters two_metrics 2 two_metrics-Registered (omega arith)
      (unfold meter counter get_or_create find in omega arith)
