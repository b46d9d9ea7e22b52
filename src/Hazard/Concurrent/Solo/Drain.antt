-- ===== src/Hazard/Concurrent/Solo/Drain.antt =====
-- `shouldScan`, and the inner loop of `helpScan`, run alone.
use ccmetrics.Base.{
  ℕ, ◌≡◌, refl, ap, ◌∙◌, Bool, true, false, not, ◌&&◌, ◌||◌, ◌==◌, inl, inr, List, [], ◌∷◌, ◌++◌,
  none, some, map, if◌then◌else◌, Bool-cases, update, arith,
}
use mathlib.Core.List.{reverse, reverse-cons}
use ccmetrics.Hazard.{HazardPointer, Local, should_scan, scan, push_and_scan, drain}
use ccmetrics.Hazard.Concurrent.{
  State, Pc, Back, to_drain, testing, reading_head, helping, draining, resume, without_scan,
  pop_back, drain_one,
}
use ccmetrics.Hazard.Concurrent.Solo.{
  record_at, Leads, then-Leads, stay-Leads, put, same-put, goto-put, one-Leads, if-if,
}
use ccmetrics.Hazard.Concurrent.Solo.Scan.{scan-Leads}

pop_back-snoc : (xs : List ℕ) (x : ℕ) → pop_back (xs ++ x ∷ []) ≡ some (xs, x)
pop_back-snoc [] x = refl
pop_back-snoc (y ∷ xs) x =
    ap (λ o. elim o [ none ↦ some ([], y) | some (init, last) ↦ some (y ∷ init, last) ])
      (pop_back-snoc xs x)

pub update-here : {A : Type 0} (f : ℕ → A) (r : ℕ) (a : A) → update f r a r ≡ a
update-here f r a = let same : (r == r) ≡ true = ground arith in rw same refl

-- Two changes, seen at an index where the first one is not.
update-twice :
    {A : Type 0} (f : ℕ → A) (r : ℕ) (a : A) (q : ℕ) (b : A) (j : ℕ)
    → (j == r) ≡ false
    → update (update f r a) q b j ≡ update f q b j
update-twice f r a q b j other = rw other refl

pub update-same : {A : Type 0} (f : ℕ → A) (q : ℕ) (a : A) (j : ℕ) → f q ≡ a → f j ≡ update f q a j
update-same f q a j at = elim (Bool-cases (j == q)) [
  | inl e ↦ let same : j ≡ q = ground (arith, e) in ap f same ∙ at ∙ rw e refl
  | inr e ↦ rw e refl
]

if-one : {A : Type 0} (b : Bool) (x : A) → (if b then x else x) ≡ x
if-one true x = refl
if-one false x = refl

pub if-neither :
    {A : Type 0} (b c : Bool) (x y : A)
    → (if not b && not c then x else y) ≡ (if b || c then y else x)
if-neither true c x y = refl
if-neither false true x y = refl
if-neither false false x y = refl

-- Behind both changes, the own list and the other one.
update-both :
    {A : Type 0} (f g : ℕ → A) (r : ℕ) (a b : A) (j : ℕ)
    → a ≡ b
    → ((j == r) ≡ false → f j ≡ g j)
    → update f r a j ≡ update g r b j
update-both f g r a b j own others = elim (Bool-cases (j == r)) [
  | inl e ↦ rw e own
  | inr e ↦ rw e (others e)
]

abbrev pub pushed_on : ℕ → Local → Local
pushed_on node l = record l { retired = l.retired ++ node ∷ [] }

module _ (n : ℕ) (s : State) (r : ℕ) where
  -- The records as they are at first.
  abbrev pub records_of : List HazardPointer
  records_of = map (record_at n s s.retire_list s.active) s.records

  -- The own lists are `l`, and `lists` says what those of the others are.
  abbrev pub mine : (ℕ → List ℕ) → (ℕ → Bool) → Local → Pc → State
  mine lists active l p = put s r (update lists r l.retired) active l.freed p

  abbrev pub scan_or : Local → Local
  scan_or l = if should_scan n s.hp_count l then scan records_of l else l

  scanned-Leads :
      (lists : ℕ → List ℕ) (active : ℕ → Bool) (l : Local) (back : Back)
      → Leads n r
          (mine lists active l (reading_head back))
          (mine lists active (scan records_of l) (resume back))
  scanned-Leads lists active l back =
      let own : update lists r l.retired r ≡ l.retired = update-here lists r l.retired in
      let l' : Local = record { retired = update lists r l.retired r; freed = l.freed } in
      let same : l' ≡ l = λ i. record { retired = own i; freed = l.freed } in
      then-Leads
        (scan-Leads n s r (update lists r l.retired) s.retire_list active s.active l.freed back)
        (stay-Leads (
          same-put s r (resume back)
            (λ q. if-if (q == r) (scan records_of l').retired l.retired (lists q)) (λ _. refl) refl
          ∙ ap (λ a. mine lists active (scan records_of a) (resume back)) same))

  -- `shouldScan`, and `scan` if it says so.
  pub tested-Leads :
      (lists : ℕ → List ℕ) (active : ℕ → Bool) (l : Local) (back : Back)
      → Leads n r (mine lists active l (testing back)) (
          mine lists active
            (scan_or l)
            (if should_scan n s.hp_count l then resume back else without_scan back))
  tested-Leads lists active l back =
      let own : update lists r l.retired r ≡ l.retired = update-here lists r l.retired in
      let l' : Local = record { retired = update lists r l.retired r; freed = l.freed } in
      let same : l' ≡ l = λ i. record { retired = own i; freed = l.freed } in
      let next = λ (b : Bool). if b then reading_head back else without_scan back in
      then-Leads
        (one-Leads s r (update lists r l.retired) active l.freed (testing back) (
          goto-put s r (update lists r l.retired) active l.freed (testing back)
            (next (should_scan n s.hp_count l'))
          ∙ ap (λ a. mine lists active l (next (should_scan n s.hp_count a))) same))
        (split (should_scan n s.hp_count l))
    where
      split :
          (b : Bool)
          → Leads n r (mine lists active l (if b then reading_head back else without_scan back)) (
              mine lists active
                (if b then scan records_of l else l)
                (if b then resume back else without_scan back))
      split true = scanned-Leads lists active l back
      split false = stay-Leads refl

  -- One element goes over, or the list is empty.
  popped-Leads :
      (lists : ℕ → List ℕ) (active : ℕ → Bool) (l : Local) (q : ℕ) (rest init : List ℕ) (node : ℕ)
      → (q == r) ≡ false
      → lists q ≡ init ++ node ∷ []
      → Leads n r
          (mine lists active l (draining q rest))
          (mine (update lists q init) active (pushed_on node l) (testing (to_drain q rest)))
  popped-Leads lists active l q rest init node other at =
      let own = update lists r l.retired in
      let start = mine lists active l (draining q rest) in
      let its : update lists r l.retired q ≡ init ++ node ∷ [] = rw other at in
      let pops : pop_back (own q) ≡ some (init, node) = ap pop_back its ∙ pop_back-snoc init node in
      let shorter = update own q init in
      let apart : (r == q) ≡ false = ground (arith, other) in
      let here : update own q init r ≡ l.retired = rw apart (update-here lists r l.retired) in
      one-Leads s r own active l.freed (draining q rest) (
        ap (drain_one start r q rest) pops
        ∙ goto-put s r (update shorter r (shorter r ++ node ∷ [])) active l.freed (draining q rest)
            (testing (to_drain q rest))
        ∙ same-put s r (testing (to_drain q rest))
            (λ q'.
              update-both shorter (update lists q init) r (shorter r ++ node ∷ [])
                (l.retired ++ node ∷ []) q' (ap (λ xs. xs ++ node ∷ []) here)
                (update-twice lists r l.retired q init q'))
            (λ _. refl) refl)

  emptied-Leads :
      (lists : ℕ → List ℕ) (active : ℕ → Bool) (l : Local) (q : ℕ) (rest : List ℕ)
      → (q == r) ≡ false
      → lists q ≡ []
      → Leads n r
          (mine lists active l (draining q rest))
          (mine (update lists q []) (update active q false) l (helping rest))
  emptied-Leads lists active l q rest other at =
      let own = update lists r l.retired in
      let start = mine lists active l (draining q rest) in
      let its : update lists r l.retired q ≡ [] = rw other at in
      one-Leads s r own active l.freed (draining q rest) (
        ap (λ xs. drain_one start r q rest (pop_back xs)) its
        ∙ goto-put s r own (update active q false) l.freed (draining q rest) (helping rest)
        ∙ same-put s r (helping rest)
            (λ q'.
              update-both lists (update lists q []) r l.retired l.retired q' refl
                (λ _. update-same lists q [] q' at))
            (λ _. refl) refl)

  -- The loop that empties the retire list of a locked record.
  pub drain-Leads :
      (items : List ℕ) (lists : ℕ → List ℕ) (active : ℕ → Bool) (l : Local) (q : ℕ) (rest : List ℕ)
      → (q == r) ≡ false
      → lists q ≡ reverse items
      → Leads n r (mine lists active l (draining q rest)) (
          mine
            (update lists q [])
            (update active q false)
            (drain n s.hp_count records_of items l)
            (helping rest))
  unfolding drain push_and_scan
  drain-Leads [] lists active l q rest other at = emptied-Leads lists active l q rest other at
  drain-Leads (node ∷ items) lists active l q rest other at =
      let init = reverse items in
      let l' = scan_or (pushed_on node l) in
      let fewer : update lists q init q ≡ init = update-here lists q init in
      then-Leads (popped-Leads lists active l q rest init node other (at ∙ reverse-cons node items))
        (then-Leads (tested-Leads (update lists q init) active (pushed_on node l) (to_drain q rest))
          (then-Leads
            (stay-Leads (
              ap (mine (update lists q init) active l')
                (if-one (should_scan n s.hp_count (pushed_on node l)) (draining q rest))))
            (then-Leads (drain-Leads items (update lists q init) active l' q rest other fewer) (
              stay-Leads (
                same-put s r (helping rest)
                  (λ j.
                    let d = drain n s.hp_count records_of items l' in
                    update-both (update (update lists q init) q []) (update lists q []) r d.retired
                      d.retired j refl (λ _. if-if (j == q) [] init (lists j)))
                  (λ _. refl) refl)))))
