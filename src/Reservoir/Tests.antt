-- ===== src/Reservoir/Tests.antt =====
-- The theorems about the reservoir at concrete inputs: the natural numbers stand for the doubles.
use ccmetrics.Base.{ℕ, List, ◌+◌, ◌≡◌, [], ◌∷◌, some, arith}
use ccmetrics.Double.Whole.{whole, whole-IsOrdered}
use ccmetrics.Reservoir.{hour, Reservoir, rescale, update}
use ccmetrics.Reservoir.Bounded.{IsBounded, update-IsBounded}
use ccmetrics.Reservoir.Filled.{Draw, Fills, put_runs-new_map}
use ccmetrics.SkipList.Traverse.{new_map}
use ccmetrics.Reservoir.Rescale.{rescale_full}

abbrev two_entries : Reservoir whole 1
two_entries = record {
  content = record { entries = (3, 30) ∷ (5, 50) ∷ []; count = 2; landmark = 0 };
  next_scale = hour;
}

two_entries-IsBounded : IsBounded whole 1 whole-IsOrdered two_entries
two_entries-IsBounded = record { full = omega arith; counted = omega arith }

update-IsBounded_example :
    (r : Reservoir whole 1) × (update whole 1 4 0 40 two_entries ≡ some r)
    × IsBounded whole 1 whole-IsOrdered r
    × (r.content.count ≡ 3)
    × (r.next_scale ≡ hour)
update-IsBounded_example =
    update-IsBounded whole 1 whole-IsOrdered 4 0 40 two_entries (omega arith) two_entries-IsBounded

abbrev counted_out : Reservoir whole 1
counted_out = record {
  content = record { entries = (3, 30) ∷ (5, 50) ∷ []; count = 1028; landmark = 0 };
  next_scale = hour;
}

rescale_full_example :
    rescale whole 1 (hour + 1) counted_out
    ≡ some (record {
      content = record { entries = []; count = 0; landmark = hour + 1 };
      next_scale = hour + hour;
    })
rescale_full_example = rescale_full whole 1 whole-IsOrdered (hour + 1) counted_out (omega arith)

-- Three values, of which the second has the least priority.
abbrev three_draws : List (Draw ℕ)
three_draws =
    record { level = 0; priority = 5; sample = 50 }
    ∷ record { level = 3; priority = 3; sample = 30 }
    ∷ record { level = 0; priority = 7; sample = 70 }
    ∷ []

put_runs-new_map_example : Fills whole 1 4 0 three_draws (new_map 0 0) [] 3
put_runs-new_map_example = put_runs-new_map whole 1 whole-IsOrdered 3 three_draws (omega arith)
