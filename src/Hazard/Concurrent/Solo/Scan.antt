-- ===== src/Hazard/Concurrent/Solo/Scan.antt =====
-- `scan`, run alone.
use ccmetrics.Base.{
  ℕ, zero, suc, ◌≡◌, refl, sym, ap, ◌∙◌, Bool, false, not, ◌&&◌, ◌||◌, ◌==◌, List, [], ◌∷◌, ◌++◌,
  map, length, if◌then◌else◌, update, arith,
}
use ccmetrics.Hazard.{contains, live_of, live_nodes, swap_pop, sweep, scan}
use ccmetrics.Hazard.Concurrent.{State, Back, reading_head, scanning, slots_from, slots_of, resume}
use ccmetrics.Hazard.Concurrent.Solo.{
  row, record_at, Leads, then-Leads, stay-Leads, put, goto-put, one-Leads,
}

-- What the loads find.
abbrev loads : State → List (ℕ × ℕ) → List ℕ → List ℕ
loads s [] live = live
loads s ((q, k) ∷ todo) live =
    loads s todo (if s.pointers q k == 0 then live else s.pointers q k ∷ live)

abbrev finds : ℕ → State → List (ℕ × ℕ) → Bool
finds a s [] = false
finds a s ((q, k) ∷ todo) = (not (s.pointers q k == 0) && (s.pointers q k == a)) || finds a s todo

contains-loads :
    (a : ℕ) (s : State) (todo : List (ℕ × ℕ)) (live : List ℕ)
    → contains a (loads s todo live) ≡ finds a s todo || contains a live
unfolding contains
contains-loads a s [] live = refl
contains-loads a s ((q, k) ∷ todo) live =
    contains-loads a s todo (if s.pointers q k == 0 then live else s.pointers q k ∷ live)
    ∙ ground arith

contains-append : (a : ℕ) (xs ys : List ℕ) → contains a (xs ++ ys) ≡ contains a xs || contains a ys
unfolding contains
contains-append a [] ys = refl
contains-append a (x ∷ xs) ys = ground (arith, contains-append a xs ys)

finds-slots_from :
    (a : ℕ) (s : State) (k n r : ℕ) (rest : List (ℕ × ℕ))
    → finds a s (slots_from k n r rest)
      ≡ contains a (live_of (row k n (s.pointers r))) || finds a s rest
unfolding contains live_of
finds-slots_from a s k zero r rest = refl
finds-slots_from a s k (suc n) r rest = ground (arith, finds-slots_from a s (suc k) n r rest)

finds-slots_of :
    (a : ℕ) (s : State) (n : ℕ) (lists : ℕ → List ℕ) (active : ℕ → Bool) (records : List ℕ)
    → finds a s (slots_of n records)
      ≡ contains a (live_nodes (map (record_at n s lists active) records))
unfolding contains live_nodes
finds-slots_of a s n lists active [] = refl
finds-slots_of a s n lists active (r ∷ records) =
    let here = live_of (row 0 n (s.pointers r)) in
    let there = live_nodes (map (record_at n s lists active) records) in
    finds-slots_from a s 0 n r (slots_of n records)
    ∙ ap (λ b. contains a here || b) (finds-slots_of a s n lists active records)
    ∙ sym (contains-append a here there)

-- Only what is live counts, not in which order.
sweep-same :
    (fuel : ℕ) (live live' kept at freed : List ℕ)
    → ((a : ℕ) → contains a live ≡ contains a live')
    → sweep fuel live kept at freed ≡ sweep fuel live' kept at freed
unfolding sweep
sweep-same zero live live' kept at freed same = refl
sweep-same (suc fuel) live live' kept [] freed same = refl
sweep-same (suc fuel) live live' kept (x ∷ rest) freed same =
    let keep = sweep-same fuel live live' (kept ++ x ∷ []) rest freed same in
    let drop = sweep-same fuel live live' kept (swap_pop rest) (x ∷ freed) same in
    λ i. if same x i then keep i else drop i

module _ (n : ℕ) (s : State) (r : ℕ) where
  loads-Leads :
      (lists : ℕ → List ℕ) (active : ℕ → Bool) (freed : List ℕ) (back : Back) (todo : List (ℕ × ℕ))
      (live : List ℕ)
      → Leads n r
          (put s r lists active freed (scanning todo live back))
          (put s r lists active freed (scanning [] (loads s todo live) back))
  loads-Leads lists active freed back [] live = stay-Leads refl
  loads-Leads lists active freed back ((q, k) ∷ todo) live =
      let live' = if s.pointers q k == 0 then live else s.pointers q k ∷ live in
      then-Leads
        (one-Leads s r lists active freed (scanning ((q, k) ∷ todo) live back) (
          goto-put s r lists active freed (scanning ((q, k) ∷ todo) live back)
            (scanning todo live' back)))
        (loads-Leads lists active freed back todo live')

  -- The whole of `scan`.
  pub scan-Leads :
      (lists first_lists : ℕ → List ℕ) (active first_active : ℕ → Bool) (freed : List ℕ)
      (back : Back)
      → Leads n r (put s r lists active freed (reading_head back)) (
          put s r
            (update lists r
              (scan
                (map (record_at n s first_lists first_active) s.records)
                (record { retired = lists r; freed = freed })).retired)
            active
            (scan
              (map (record_at n s first_lists first_active) s.records)
              (record { retired = lists r; freed = freed })).freed
            (resume back))
  unfolding scan contains
  scan-Leads lists first_lists active first_active freed back =
      let live = loads s (slots_of n s.records) [] in
      let nodes = live_nodes (map (record_at n s first_lists first_active) s.records) in
      let fuel = length (lists r) in
      let same_live : (a : ℕ) → contains a live ≡ contains a nodes = λ a.
        contains-loads a s (slots_of n s.records) []
        ∙ ground (arith, finds-slots_of a s n first_lists first_active s.records) in
      let swept = sweep-same fuel live nodes [] (lists r) freed same_live in
      then-Leads
        (one-Leads s r lists active freed (reading_head back) (
          goto-put s r lists active freed (reading_head back)
            (scanning (slots_of n s.records) [] back)))
        (then-Leads (loads-Leads lists active freed back (slots_of n s.records) []) (
          one-Leads s r lists active freed (scanning [] live back) (
            goto-put s r (update lists r (sweep fuel live [] (lists r) freed).0) active
              (sweep fuel live [] (lists r) freed).1 (scanning [] live back) (resume back)
            ∙ ap (λ l. put s r (update lists r l.0) active l.1 (resume back)) swept)))
