-- ===== src/Hazard/Concurrent/Solo.antt =====
-- The steps of one thread while the others stand still, and the state as the operations of
-- src/hazard_pointers.h see it that run at once.
pub mod Scan
pub mod Drain
pub mod Help
pub mod Retire
use ccmetrics.Base.{
  ℕ, zero, suc, ◌+◌, ◌≡◌, refl, sym, ap, ◌∙◌, Bool, true, false, ◌==◌, List, [], ◌∷◌, map,
  if◌then◌else◌, update, arith,
}
use ccmetrics.Hazard.{HazardPointer, HazardPointers}
use ccmetrics.Hazard.Concurrent.{State, Pc, goto, step}

-- Thread `r` makes `m` steps.
abbrev pub solo : (n r m : ℕ) → State → State
solo n r zero s = s
solo n r (suc m) s = solo n r m (step n s r (s.pc r))

-- The slots of one record, from slot `k` on.
abbrev pub row : (k n : ℕ) → (ℕ → ℕ) → List ℕ
row k zero slots = []
row k (suc n) slots = slots k ∷ row (suc k) n slots

abbrev pub record_at : (n : ℕ) → State → (ℕ → List ℕ) → (ℕ → Bool) → ℕ → HazardPointer
record_at n s lists active q = record {
  id = q;
  pointers = row 0 n (s.pointers q);
  active = active q;
  retire_list = lists q;
}

-- The state between two operations.
abbrev pub view : ℕ → State → HazardPointers
view n s = record {
  records = map (record_at n s s.retire_list s.active) s.records;
  hp_count = s.hp_count;
  freed = s.freed;
}

-- Thread `r` alone gets from one state to the other.
pub record Leads (n r : ℕ) (s t : State) : Type 0 where
  pub moves : ℕ
  pub arrives : solo n r moves s ≡ t

solo-add : (n r m m' : ℕ) (s : State) → solo n r (m + m') s ≡ solo n r m' (solo n r m s)
solo-add n r zero m' s = let none_yet : 0 + m' ≡ m' = omega arith in ap (λ a. solo n r a s) none_yet
solo-add n r (suc m) m' s =
    let one_yet : suc m + m' ≡ suc (m + m') = omega arith in
    ap (λ a. solo n r a s) one_yet ∙ solo-add n r m m' (step n s r (s.pc r))

pub then-Leads : {n r : ℕ} {s t u : State} → Leads n r s t → Leads n r t u → Leads n r s u
then-Leads {n} {r} {s} first second = record {
  moves = first.moves + second.moves;
  arrives =
      solo-add n r first.moves second.moves s
      ∙ ap (solo n r second.moves) first.arrives
      ∙ second.arrives;
}

pub stay-Leads : {n r : ℕ} {s t : State} → s ≡ t → Leads n r s t
stay-Leads e = record { moves = 0; arrives = e }

-- What a thread changes by itself that retires a node.
abbrev pub put : State → (r : ℕ) → (ℕ → List ℕ) → (ℕ → Bool) → List ℕ → Pc → State
put s r lists active freed p = record s {
  retire_list = lists;
  active = active;
  freed = freed;
  pc = update s.pc r p;
}

pub if-if {ℓ} :
    {A : Type ℓ} (b : Bool) (x y z : A)
    → (if b then x else if b then y else z) ≡ (if b then x else z)
if-if true x y z = refl
if-if false x y z = refl

pub same-put :
    (s : State) (r : ℕ) (p : Pc) {lists lists' : ℕ → List ℕ} {active active' : ℕ → Bool}
    {freed freed' : List ℕ}
    → ((q : ℕ) → lists q ≡ lists' q)
    → ((q : ℕ) → active q ≡ active' q)
    → freed ≡ freed'
    → put s r lists active freed p ≡ put s r lists' active' freed' p
same-put s r p l a f = λ i. put s r (λ q. l q i) (λ q. a q i) (f i) p

pub goto-put :
    (s : State) (r : ℕ) (lists : ℕ → List ℕ) (active : ℕ → Bool) (freed : List ℕ) (p p' : Pc)
    → goto (put s r lists active freed p) r p' ≡ put s r lists active freed p'
goto-put s r lists active freed p p' = λ i. record s {
  retire_list = lists;
  active = active;
  freed = freed;
  pc = λ q. if-if (q == r) p' p (s.pc q) i;
}

pub one-Leads :
    {n : ℕ} (s : State) (r : ℕ) (lists : ℕ → List ℕ) (active : ℕ → Bool) (freed : List ℕ) (p : Pc)
    {t : State}
    → step n (put s r lists active freed p) r p ≡ t
    → Leads n r (put s r lists active freed p) t
one-Leads {n} s r lists active freed p e =
    let here : update s.pc r p r ≡ p = ground arith in
    record { moves = 1; arrives = ap (step n (put s r lists active freed p) r) here ∙ e }
