-- ===== src/Registry/Ownership.antt =====
-- Which map owns a metric, and what the destructor deletes.
use ccmetrics.Base.{
  occurrences, ℕ, ◌+◌, ◌≤◌, ◌<◌, ◌≡◌, ap, ◌∙◌, ltb, refl, List, [], ◌∷◌, Option, none, some, ◌==◌,
  if◌then◌else◌, arith,
}
use ccmetrics.Registry.{
  Name, MetricMap, find, found_or_new, get_or_create, MetricRegistryImpl, no_metrics, counter,
  timer, meter, delete_metrics, destroy,
}

-- How often an address stands in a map.
pub owned : ℕ → MetricMap → ℕ
owned p [] = 0
owned p ((n, metric) ∷ m) = (if metric == p then 1 else 0) + owned p m

abbrev pub owners : ℕ → MetricRegistryImpl → ℕ
owners p r = owned p r.counters + owned p r.timers + owned p r.meters

abbrev pub below : ℕ → ℕ → ℕ
below p n = if ltb p n then 1 else 0

-- Each address that was handed out is one metric of one map, and no other address is in a map.
pub record IsOwned (r : MetricRegistryImpl) : Type 0 where
  pub owned_once : (p : ℕ) → 1 ≤ p → owners p r ≡ below p r.next_address
  pub intact : r.deleted ≡ []

no_metrics-IsOwned : IsOwned no_metrics
unfolding owned
no_metrics-IsOwned = record { owned_once = λ p h. ground (arith, h); intact = refl }

owned-found_or_new :
    (name : Name) (m : MetricMap) (next : ℕ) (o : Option ℕ) (p : ℕ)
    → owned p (found_or_new name m next o).1 + below p next
      ≡ owned p m + below p (found_or_new name m next o).2
unfolding found_or_new owned
owned-found_or_new name m next none p = ground arith
owned-found_or_new name m next (some q) p = refl

owned-get_or_create :
    (name : Name) (m : MetricMap) (next p : ℕ)
    → owned p (get_or_create name m next).1 + below p next
      ≡ owned p m + below p (get_or_create name m next).2
unfolding get_or_create
owned-get_or_create name m next p = owned-found_or_new name m next (find name m) p

-- A registry comes from the constructor by `counter`, `timer` and `meter`.
pub data Registered : MetricRegistryImpl → Type 0 where
  constructed : Registered no_metrics
  with_counter :
      (name : Name) {r : MetricRegistryImpl} → Registered r → Registered (counter name r).1
  with_timer : (name : Name) {r : MetricRegistryImpl} → Registered r → Registered (timer name r).1
  with_meter : (name : Name) {r : MetricRegistryImpl} → Registered r → Registered (meter name r).1

-- Whatever was registered, each address that was handed out is one metric of one map, and nothing
-- was deleted.
pub Registered-IsOwned : (r : MetricRegistryImpl) → Registered r → IsOwned r
unfolding counter timer meter
Registered-IsOwned _ constructed = no_metrics-IsOwned
Registered-IsOwned _ (with_counter name {r} before) =
    let o = Registered-IsOwned r before in
    record {
      owned_once = λ p h.
          omega (arith, o.owned_once p h, owned-get_or_create name r.counters r.next_address p);
      intact = o.intact;
    }
Registered-IsOwned _ (with_timer name {r} before) =
    let o = Registered-IsOwned r before in
    record {
      owned_once = λ p h.
          omega (arith, o.owned_once p h, owned-get_or_create name r.timers r.next_address p);
      intact = o.intact;
    }
Registered-IsOwned _ (with_meter name {r} before) =
    let o = Registered-IsOwned r before in
    record {
      owned_once = λ p h.
          omega (arith, o.owned_once p h, owned-get_or_create name r.meters r.next_address p);
      intact = o.intact;
    }

occurrences-delete_metrics :
    (p : ℕ) (m : MetricMap) (deleted : List ℕ)
    → occurrences p (delete_metrics m deleted) ≡ owned p m + occurrences p deleted
unfolding delete_metrics owned
occurrences-delete_metrics p [] deleted = omega arith
occurrences-delete_metrics p ((n, q) ∷ m) deleted =
    omega (arith, occurrences-delete_metrics p m (q ∷ deleted))

-- The destructor deletes each counter and each timer once, and no meter: of the addresses that were
-- handed out, those of the meters are the ones that are not deleted.
pub destroy_leaks_meters :
    (r : MetricRegistryImpl) (p : ℕ)
    → Registered r
    → 1 ≤ p
    → p < r.next_address
    → occurrences p (destroy r) + owned p r.meters ≡ 1
unfolding destroy
destroy_leaks_meters r p h positive handed_out =
    let o = Registered-IsOwned r h in
    let counted : occurrences p (destroy r)
        ≡ owned p r.timers + (owned p r.counters + occurrences p r.deleted) =
      occurrences-delete_metrics p r.timers (delete_metrics r.counters r.deleted)
      ∙ ap (λ n. owned p r.timers + n) (occurrences-delete_metrics p r.counters r.deleted) in
    let none_yet : occurrences p r.deleted ≡ 0 = ap (occurrences p) o.intact in
    let one : below p r.next_address ≡ 1 = ground (arith, handed_out) in
    omega (arith, counted, none_yet, one, o.owned_once p positive)
