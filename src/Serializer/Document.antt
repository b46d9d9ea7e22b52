-- ===== src/Serializer/Document.antt =====
-- A reader of the writer's calls, and the document that they stand for.
use ccmetrics.Base.{
  ℕ, zero, suc, ◌+◌, ◌≤◌, ◌≡◌, refl, ap, ◌∙◌, String, List, [], ◌∷◌, ◌++◌, Option, none, some,
  arith,
}
use ccmetrics.Double.{Double}
use ccmetrics.Serializer.{
  Token, start_object, end_object, string, int64, double, Reading, Readings, factor,
  serialize_counter, serialize_timer, serialize_counters, serialize_timers, serialize_registry,
}

-- A JSON value and the members of an object.
mutual
  pub data Json (F : Type 0) : Type 0 where
    integer : ℕ → Json F
    real : F → Json F
    object : Members F → Json F

  pub data Members (F : Type 0) : Type 0 where
    no_members : Members F
    member : String → Json F → Members F → Members F

abbrev and_then : {A B : Type 0} → Option A → (A → Option B) → Option B
and_then none f = none
and_then (some a) f = f a

infixl 5 ◌>>=◌
abbrev ◌>>=◌ : {A B : Type 0} → Option A → (A → Option B) → Option B
o >>= f = and_then o f

module _ {F : Type 0} where
  unfoldable mutual
    pub print_json : Json F → List (Token F) → List (Token F)
    print_json (integer n) rest = int64 n ∷ rest
    print_json (real x) rest = double x ∷ rest
    print_json (object m) rest = start_object ∷ print_members m rest

    pub print_members : Members F → List (Token F) → List (Token F)
    print_members no_members rest = end_object ∷ rest
    print_members (member key v m) rest = string key ∷ print_json v (print_members m rest)

  -- Enough fuel to read a value.
  unfoldable mutual
    pub size_json : Json F → ℕ
    size_json (integer n) = 1
    size_json (real x) = 1
    size_json (object m) = suc (size_members m)

    pub size_members : Members F → ℕ
    size_members no_members = 1
    size_members (member key v m) = suc (size_json v + size_members m)

  unfoldable mutual
    pub read_json : ℕ → List (Token F) → Option (Json F × List (Token F))
    read_json zero tokens = none
    read_json (suc fuel) (int64 n ∷ rest) = some (integer n, rest)
    read_json (suc fuel) (double x ∷ rest) = some (real x, rest)
    read_json (suc fuel) (start_object ∷ tokens) = do
      (m, rest) ← read_members fuel tokens
      some (object m, rest)
    read_json (suc fuel) _ = none

    pub read_members : ℕ → List (Token F) → Option (Members F × List (Token F))
    read_members zero tokens = none
    read_members (suc fuel) (end_object ∷ rest) = some (no_members, rest)
    read_members (suc fuel) (string key ∷ tokens) = do
      (v, after) ← read_json fuel tokens
      (m, rest) ← read_members fuel after
      some (member key v m, rest)
    read_members (suc fuel) _ = none

module _ {F : Type 0} where
  abbrev then_object : Members F × List (Token F) → Option (Json F × List (Token F))
  then_object (m, rest) = some (object m, rest)

  abbrev then_member :
      String → Json F → Members F × List (Token F) → Option (Members F × List (Token F))
  then_member key v (m, rest) = some (member key v m, rest)

  abbrev then_members : ℕ → String → Json F × List (Token F) → Option (Members F × List (Token F))
  then_members fuel key (v, after) = read_members fuel after >>= then_member key v

  mutual
    unfolding read_json print_json size_json

    read-print_json :
        (fuel : ℕ) (v : Json F) (rest : List (Token F))
        → size_json v ≤ fuel
        → read_json fuel (print_json v rest) ≡ some (v, rest)
    read-print_json zero (integer n) rest enough = ground (arith, enough)
    read-print_json (suc fuel) (integer n) rest enough = refl
    read-print_json zero (real x) rest enough = ground (arith, enough)
    read-print_json (suc fuel) (real x) rest enough = refl
    read-print_json zero (object m) rest enough = ground (arith, enough)
    read-print_json (suc fuel) (object m) rest enough =
        ap (λ o. and_then o then_object) (read-print_members fuel m rest (omega (arith, enough)))

    read-print_members :
        (fuel : ℕ) (m : Members F) (rest : List (Token F))
        → size_members m ≤ fuel
        → read_members fuel (print_members m rest) ≡ some (m, rest)
    read-print_members zero no_members rest enough = ground (arith, enough)
    read-print_members (suc fuel) no_members rest enough = refl
    read-print_members zero (member key v m) rest enough = ground (arith, enough)
    read-print_members (suc fuel) (member key v m) rest enough =
        ap (λ o. and_then o (then_members fuel key))
          (read-print_json fuel v (print_members m rest) (omega (arith, enough)))
        ∙ ap (λ o. and_then o (then_member key v))
            (read-print_members fuel m rest (omega (arith, enough)))

module _ (d : Double) where
  -- The document of a registry: an object of the counters, and one of the timers.
  abbrev pub timer_document : Reading d.F → Json d.F
  timer_document t =
      let seconds = λ (x : d.F). real (d.mul x (factor d)) in
      object (
        member "count" (integer t.count) (
          member "max" (seconds (d.of_int t.largest)) (
            member "mean" (seconds t.average) (
              member "min" (seconds (d.of_int t.least)) (
                member "p50" (seconds t.p50) (
                  member "p75" (seconds t.p75) (
                    member "p95" (seconds t.p95) (
                      member "p99" (seconds t.p99) (
                        member "p999" (seconds t.p999) (
                          member "stdev" (seconds t.deviation) (
                            member "m15_rate" (real t.m15_rate) (
                              member "m5_rate" (real t.m5_rate)
                                (member "m1_rate" (real t.m1_rate) no_members)))))))))))))

  abbrev pub counter_members : List (String × ℕ) → Members d.F
  counter_members [] = no_members
  counter_members ((name, value) ∷ entries) =
      member name (object (member "count" (integer value) no_members)) (counter_members entries)

  abbrev pub timer_members : List (String × Reading d.F) → Members d.F
  timer_members [] = no_members
  timer_members ((name, t) ∷ entries) = member name (timer_document t) (timer_members entries)

  abbrev pub document : Readings d.F → Json d.F
  document r = object (
      member "counters" (object (counter_members r.counter_values))
        (member "timers" (object (timer_members r.timer_readings)) no_members))

  counters-print :
      (entries : List (String × ℕ)) (rest : List (Token d.F))
      → serialize_counters d entries ++ end_object ∷ rest
        ≡ print_members (counter_members entries) rest
  unfolding serialize_counters serialize_counter print_json
  counters-print [] rest = refl
  counters-print ((name, value) ∷ entries) rest =
      ap (λ l. string name ∷ start_object ∷ string "count" ∷ int64 value ∷ end_object ∷ l)
        (counters-print entries rest)

  timers-print :
      (entries : List (String × Reading d.F)) (rest : List (Token d.F))
      → serialize_timers d entries ++ end_object ∷ rest ≡ print_members (timer_members entries) rest
  unfolding serialize_timers serialize_timer print_json
  timers-print [] rest = refl
  timers-print ((name, t) ∷ entries) rest =
      ap (λ l. string name ∷ print_json (timer_document t) l) (timers-print entries rest)

  registry-print : (r : Readings d.F) → serialize_registry d r ≡ print_json (document r) []
  unfolding serialize_registry serialize_counters serialize_timers print_json
  registry-print r =
      let end = end_object ∷ end_object ∷ [] in
      let timers = string "timers" ∷ start_object ∷ (serialize_timers d r.timer_readings ++ end) in
      ap (λ l. start_object ∷ string "counters" ∷ start_object ∷ l)
        (counters-print r.counter_values timers)
      ∙ ap
          (λ l.
            start_object
            ∷ string "counters"
            ∷ start_object
            ∷ print_members (counter_members r.counter_values) (string "timers" ∷ start_object ∷ l))
          (timers-print r.timer_readings (end_object ∷ []))

  -- The calls that serialize a registry read back as one whole document, with nothing left over: an
  -- object of the counters by name, each with its value, and an object of the timers by name, each
  -- with its count, its rates, and its statistics in seconds.
  pub read-serialize_registry :
      (r : Readings d.F)
      → read_json (size_json (document r)) (serialize_registry d r) ≡ some (document r, [])
  read-serialize_registry r =
      ap (read_json (size_json (document r))) (registry-print r)
      ∙ read-print_json (size_json (document r)) (document r) [] (omega arith)
