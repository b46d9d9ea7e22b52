-- ===== src/Reporting/Console/Banners.antt =====
-- The banners of src/reporting/console_reporter.cc.
use ccmetrics.Base.{
  ℕ, zero, suc, ◌-◌, ◌<◌, ◌≡◌, refl, ap, ◌∙◌, String, List, [], ◌∷◌, ◌++◌, Option, some, arith,
}
use Prim.Native.String.{len, ◌++◌ as ◌<>◌}
use package.text.Mathlib.TextPositions.{len-append}
use ccmetrics.Serializer.{Reading}
use ccmetrics.Reporting.Graphite.{Rates}
use ccmetrics.Reporting.Console.{
  Printed, text, console_width, repeated, print_with_banner, print_report, print_section,
  print_entries, print_counter, print_timer, print_meter, behind_banner, followed_by,
}

len-repeated : (n : ℕ) (sym : String) → len sym ≡ 1 → len (repeated n sym) ≡ n
len-repeated zero sym one = refl
len-repeated (suc n) sym one =
    omega (arith, len-append sym (repeated n sym), len-repeated n sym one, one)

-- A banner of a text of fewer than 80 bytes is as wide as the console: 80 bytes.
pub print_with_banner-width :
    (str sym : String)
    → len sym ≡ 1
    → len str < console_width
    → (banner : String) × (print_with_banner str sym ≡ some banner) × (len banner ≡ console_width)
unfolding print_with_banner
print_with_banner-width str sym one short =
    let fill = repeated (console_width - len str - 1) sym in
    (
      str <> " " <> fill,
      ground (arith, short),
      omega (
        arith,
        len-append str (" " <> fill),
        len-append " " fill,
        len-repeated (console_width - len str - 1) sym one,
        short,
      ),
    )

module _ {F : Type 0} where
  -- The banners of the parts of a report are short enough.
  print_section-total :
      {A : Type 0} (title : String) (print : A → List (Printed F)) (entries : List (String × A))
      → len title < console_width
      → (lines : List (Printed F)) × (print_section title print entries ≡ some lines)
  print_section-total title print [] short = ([], refl)
  print_section-total title print (entry ∷ entries) short =
      let (banner, at, wide) = print_with_banner-width title "-" refl short in
      (_, ap (λ b. behind_banner b (print_entries print (entry ∷ entries))) at)

  followed_by-some :
      {a b : Option (List (Printed F))} {x y : List (Printed F)}
      → a ≡ some x
      → b ≡ some y
      → followed_by a b ≡ some (x ++ y)
  followed_by-some {b = b} {x = x} e f =
      ap (λ o. followed_by o b) e ∙ ap (λ o. followed_by (some x) o) f

  -- A report is printed whole, whatever the registry holds, when the date has fewer than 80 bytes: the
  -- assertion on the width of a banner does not fail.
  pub print_report-total :
      (now : String) (counters : List (String × ℕ)) (timers : List (String × Reading F))
      (meters : List (String × Rates F))
      → len now < console_width
      → (lines : List (Printed F)) × (print_report now counters timers meters ≡ some lines)
  unfolding print_report
  print_report-total now counters timers meters short =
      let (banner, e, wide) = print_with_banner-width now "=" refl short in
      let (cs, e1) = print_section-total "-- Counters" print_counter counters (omega arith) in
      let (ts, e2) = print_section-total "-- Timers" print_timer timers (omega arith) in
      let (ms, e3) = print_section-total "-- Meters" print_meter meters (omega arith) in
      (
        _,
        followed_by-some (ap (λ b. behind_banner b (text "" ∷ [])) e)
            (followed_by-some e1 (followed_by-some e2 e3)),
      )
