-- ===== src/Hazard/Concurrent/Buffered.antt =====
-- `setHazard` as the release store that it is: it may wait in the store buffer of its processor while
-- the acquire load behind it is performed.
use ccmetrics.Base.{
  ℕ, zero, suc, ◌≤◌, ◌≡◌, refl, ap, ◌∙◌, Bool, true, false, not, ◌==◌, List, [], ◌∷◌, ◌++◌, Option,
  none, some, map, occurrences, occurrences-append, if◌then◌else◌, update, arith,
}
use mathlib.Core.Path.{subst}
use ccmetrics.Hazard.{Local, contains, live_of, live_nodes, should_scan, scan}
use ccmetrics.Hazard.Retire.{scan-Swept}
use ccmetrics.Hazard.Concurrent.{
  State, to_help, testing, retiring, ready, announcing, checking, goto, with_held, removed, step,
  Step, run, remove,
}
use ccmetrics.Hazard.Concurrent.Solo.{solo, row, record_at, Leads, then-Leads}
use ccmetrics.Hazard.Concurrent.Solo.Drain.{mine, tested-Leads, scan_or, records_of, update-here}
use ccmetrics.Hazard.Concurrent.Keeps.{update-slot}

-- The shared state, and for each thread the store that is under way: the slot and the node.
pub record Buffered : Type 0 where
  pub memory : State
  pub buffer : ℕ → Option (ℕ × ℕ)

-- What can happen: all that could before; a store of `setHazard` that goes to the buffer of the thread,
-- and its thread goes on; and its arrival in the slot.
pub data BufferedStep (n : ℕ) (b : Buffered) : Buffered → Type 0 where
  direct : {t : State} → Step n b.memory t → BufferedStep n b (record b { memory = t })
  delay :
      (r : ℕ) (once : Bool) (c k cur : ℕ)
      → b.memory.pc r ≡ announcing once c k cur
      → b.buffer r ≡ none
      → BufferedStep n b (record {
        memory = goto b.memory r (checking once c k cur);
        buffer = update b.buffer r (some (k, cur));
      })
  arrive :
      (r k node : ℕ)
      → b.buffer r ≡ some (k, node)
      → BufferedStep n b (record {
        memory = record b.memory {
          pointers = update b.memory.pointers r (update (b.memory.pointers r) k node);
        };
        buffer = update b.buffer r none;
      })

pub data BufferedRun (n : ℕ) (b : Buffered) : Buffered → Type 0 where
  done : BufferedRun n b b
  next : {t u : Buffered} → BufferedRun n b t → BufferedStep n t u → BufferedRun n b u

solo-BufferedRun :
    (n r m : ℕ) (b0 b : Buffered) (t : State)
    → BufferedRun n b0 (record b { memory = t })
    → BufferedRun n b0 (record b { memory = solo n r m t })
solo-BufferedRun n r zero b0 b t path = path
solo-BufferedRun n r (suc m) b0 b t path =
    solo-BufferedRun n r m b0 b (step n t r (t.pc r)) (next path (direct (run r)))

-- No slot has the node.
abbrev pub Unannounced : State → ℕ → Type 0
Unannounced s node = (q k : ℕ) → (s.pointers q k == node) ≡ false

contains-row :
    (s : State) (q k n node : ℕ)
    → Unannounced s node
    → contains node (live_of (row k n (s.pointers q))) ≡ false
unfolding contains live_of
contains-row s q k zero node clear = refl
contains-row s q k (suc n) node clear =
    ground (arith, clear q k, contains-row s q (suc k) n node clear)

contains-append :
    (a : ℕ) (xs ys : List ℕ)
    → contains a xs ≡ false
    → contains a ys ≡ false
    → contains a (xs ++ ys) ≡ false
unfolding contains
contains-append a [] ys h h' = h'
contains-append a (x ∷ xs) ys h h' = ground (arith, h, contains-append a xs ys)

contains-live_nodes :
    (s : State) (n node : ℕ) (lists : ℕ → List ℕ) (active : ℕ → Bool) (records : List ℕ)
    → Unannounced s node
    → contains node (live_nodes (map (record_at n s lists active) records)) ≡ false
unfolding contains live_nodes
contains-live_nodes s n node lists active [] clear = refl
contains-live_nodes s n node lists active (q ∷ records) clear =
    contains-append node (live_of (row 0 n (s.pointers q)))
      (live_nodes (map (record_at n s lists active) records)) (contains-row s q 0 n node clear)
      (contains-live_nodes s n node lists active records clear)

-- The steps of `retireNode` by thread `w`, through its `scan`, delete a node that no slot has.
retire-Leads :
    (n : ℕ) (s : State) (w node : ℕ)
    → s.pc w ≡ retiring node
    → should_scan n s.hp_count (record { retired = s.retire_list w ++ node ∷ []; freed = s.freed })
      ≡ true
    → Unannounced s node
    → (m : ℕ) × (1 ≤ occurrences node (solo n w m s).freed) × ((solo n w m s).held ≡ s.held)
retire-Leads n s w node at full clear =
    let l : Local = record { retired = s.retire_list w ++ node ∷ []; freed = s.freed } in
    let first : Leads n w s (mine n s w s.retire_list s.active l (testing to_help)) = record {
      moves = 1;
      arrives = ap (step n s w) at;
    } in
    let all = then-Leads first (tested-Leads n s w s.retire_list s.active l to_help) in
    let (_, freed) = scan-Swept (records_of n s w) l node in
    let dead = contains-live_nodes s n node s.retire_list s.active s.records clear in
    let scans : (scan_or n s w l).freed ≡ (scan (records_of n s w) l).freed =
      ap (λ b. (if b then scan (records_of n s w) l else l).freed) full in
    let last : (solo n w all.moves s).freed ≡ (scan (records_of n s w) l).freed =
      ap (λ t. t.freed) all.arrives ∙ scans in
    let listed_here = occurrences-append node (s.retire_list w) (node ∷ []) in
    let deleted_now : 1 ≤ occurrences node (solo n w all.moves s).freed =
      ground (arith, ap (occurrences node) last, freed, dead, listed_here) in
    (all.moves, deleted_now, ap (λ t. t.held) all.arrives)

-- Thread `r` has loaded a node of a cell that no slot has, and is about to announce it, and thread `w`
-- can retire a node, with a list that is long enough for `scan`. Then there is a run in which the second
-- load of `loadAndSetHazard` confirms the node, while the store of `setHazard` is still in the buffer,
-- and `w` takes the node out of the cell and deletes it. So thread `r` relies on a deleted node.
pub lost_store :
    (n : ℕ) (b : Buffered) (r w : ℕ) (once : Bool) (c k : ℕ)
    → b.memory.pc r ≡ announcing once c k (b.memory.cell c)
    → b.buffer r ≡ none
    → (b.memory.cell c == 0) ≡ false
    → (w == r) ≡ false
    → b.memory.owned w ≡ true
    → b.memory.pc w ≡ ready
    → Unannounced b.memory (b.memory.cell c)
    → should_scan n b.memory.hp_count (record {
      retired = b.memory.retire_list w ++ b.memory.cell c ∷ [];
      freed = b.memory.freed;
    })
      ≡ true
    → (t : Buffered) × BufferedRun n b t
      × (t.memory.held r k ≡ true)
      × (t.buffer r ≡ some (k, b.memory.cell c))
      × (1 ≤ occurrences (b.memory.cell c) t.memory.freed)
lost_store n b r w once c k at empty real other own idle clear full =
    let s = b.memory in
    let cur = s.cell c in
    let s1 = goto s r (checking once c k cur) in
    let b1 : Buffered = record { memory = s1; buffer = update b.buffer r (some (k, cur)) } in
    let here : s1.pc r ≡ checking once c k cur = ground arith in
    let s2 = goto (with_held s1 r k (not (cur == 0))) r ready in
    let same : (cur == cur) ≡ true = ground arith in
    let checked : step n s1 r (s1.pc r) ≡ s2 = ap (step n s1 r) here ∙ rw same refl in
    let s3 = removed s2 w c in
    let idle2 : s2.pc w ≡ ready = rw other idle in
    let ready3 : s3.pc w ≡ retiring cur = ground arith in
    let (m, dead, still) = retire-Leads n s3 w cur ready3 full clear in
    let path1 : BufferedRun n b b1 = next done (delay r once c k cur at empty) in
    let path2 : BufferedRun n b (record b1 { memory = s2 }) =
      subst (λ t. BufferedRun n b (record b1 { memory = t })) checked
        (next path1 (direct (run r))) in
    let path3 : BufferedRun n b (record b1 { memory = s3 }) =
      next path2 (direct (remove w c own idle2 real)) in
    (
      record b1 { memory = solo n w m s3 },
      solo-BufferedRun n w m b b1 s3 path3,
      ap (λ h. h r k) still ∙ update-slot s.held r k (not (cur == 0)) r k ∙ ground (arith, real),
      update-here b.buffer r (some (k, cur)),
      dead,
    )
