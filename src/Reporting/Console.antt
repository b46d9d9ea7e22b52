-- ===== src/Reporting/Console.antt =====
-- src/reporting/console_reporter.cc: what `report` prints, a line for each call of `printf`. The date
-- and the layout of numbers are those of the C library.
pub mod Banners
use ccmetrics.Base.{
  ℕ, zero, suc, ◌-◌, ltb, if◌then◌else◌, String, List, [], ◌∷◌, ◌++◌, Option, none, some,
}
use Prim.Native.String.{len, ◌++◌ as ◌<>◌}
use ccmetrics.Serializer.{Reading}
use ccmetrics.Reporting.Graphite.{Rates}

-- A line: of a text, or `printFormatted` of an integer and of a double.
pub data Printed (F : Type 0) : Type 0 where
  text : String → Printed F
  int_equation : (lhs equality : String) → ℕ → (rhs : String) → Printed F
  double_equation : (lhs equality : String) → F → (rhs : String) → Printed F

-- `kConsoleWidth`.
abbrev pub console_width : ℕ
console_width = 80

-- `std::string(n, sym)`.
abbrev pub repeated : ℕ → String → String
repeated zero sym = ""
repeated (suc n) sym = sym <> repeated n sym

-- `printWithBanner`, without the end of the line; none where its assertion fails.
unfoldable pub print_with_banner : String → (sym : String) → Option String
print_with_banner str sym =
    if ltb (len str) console_width
    then some (str <> " " <> repeated (console_width - len str - 1) sym)
    else none

module _ {F : Type 0} where
  -- `printCounter`, `printTimer` and `printMeter`.
  unfoldable pub print_counter : ℕ → List (Printed F)
  print_counter value = int_equation "count" "=" value "" ∷ []

  unfoldable pub print_timer : Reading F → List (Printed F)
  print_timer t =
      int_equation "count" "=" t.count ""
      ∷ double_equation "1-minute rate" "=" t.m1_rate "calls/s"
      ∷ double_equation "5-minute rate" "=" t.m5_rate "calls/s"
      ∷ double_equation "15-minute rate" "=" t.m15_rate "calls/s"
      ∷ int_equation "min" "=" t.least "us"
      ∷ int_equation "max" "=" t.largest "us"
      ∷ double_equation "mean" "=" t.average "us"
      ∷ double_equation "stdev" "=" t.deviation "us"
      ∷ double_equation "median" "=" t.p50 "us"
      ∷ double_equation "75%" "<=" t.p75 "us"
      ∷ double_equation "95%" "<=" t.p95 "us"
      ∷ double_equation "99%" "<=" t.p99 "us"
      ∷ double_equation "99.9%" "<=" t.p999 "us"
      ∷ []

  unfoldable pub print_meter : Rates F → List (Printed F)
  print_meter m =
      double_equation "1-minute rate" "=" m.m1 "/s"
      ∷ double_equation "5-minute rate" "=" m.m5 "/s"
      ∷ double_equation "15-minute rate" "=" m.m15 "/s"
      ∷ []

  -- The loop over the entries of one map, each under its name, and the blank line behind it.
  abbrev pub print_entries :
      {A : Type 0} → (A → List (Printed F)) → List (String × A) → List (Printed F)
  print_entries print [] = text "" ∷ []
  print_entries print ((name, metric) ∷ entries) =
      text name ∷ print metric ++ print_entries print entries

  -- The lines that follow a banner.
  abbrev pub behind_banner : Option String → List (Printed F) → Option (List (Printed F))
  behind_banner none lines = none
  behind_banner (some banner) lines = some (text banner ∷ lines)

  -- The part of `report` for one map.
  abbrev pub print_section :
      {A : Type 0} → String → (A → List (Printed F)) → List (String × A) → Option (List (Printed F))
  print_section title print [] = some []
  print_section title print (entry ∷ entries) =
      behind_banner (print_with_banner title "-") (print_entries print (entry ∷ entries))

  -- One part behind the other.
  abbrev pub followed_by :
      Option (List (Printed F)) → Option (List (Printed F)) → Option (List (Printed F))
  followed_by none lines = none
  followed_by (some front) none = none
  followed_by (some front) (some back) = some (front ++ back)

  -- `report`, at the time that `formatNow` prints as `now`.
  unfoldable pub print_report :
      (now : String)
      → (counters : List (String × ℕ)) → (timers : List (String × Reading F))
      → (meters : List (String × Rates F)) → Option (List (Printed F))
  unfolding print_with_banner print_counter print_timer print_meter
  print_report now counters timers meters =
      followed_by (behind_banner (print_with_banner now "=") (text "" ∷ [])) (
        followed_by (print_section "-- Counters" print_counter counters) (
          followed_by (print_section "-- Timers" print_timer timers)
            (print_section "-- Meters" print_meter meters)))
