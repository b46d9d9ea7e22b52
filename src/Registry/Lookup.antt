-- ===== src/Registry/Lookup.antt =====
-- Asking for a metric by name.
use ccmetrics.Base.{
  ◌∙◌, inl, inr, Bool-cases, sym, if◌then◌else◌, ==_iff, ℕ, ◌≡◌, refl, ap, true, [], ◌∷◌, Option,
  none, some, arith,
}
use ccmetrics.Registry.{Name, MetricMap, same_name, find, found_or_new, get_or_create}

same_name_refl : (n : Name) → same_name n n ≡ true
unfolding same_name
same_name_refl [] = refl
same_name_refl (a ∷ s) = ground (arith, same_name_refl s)

find-head : (name : Name) (p : ℕ) (m : MetricMap) → find name ((name, p) ∷ m) ≡ some p
unfolding find
find-head name p m = rw (same_name_refl name) refl

found_or_new-find :
    (name : Name) (m : MetricMap) (fresh : ℕ) (o : Option ℕ)
    → find name m ≡ o
    → find name (found_or_new name m fresh o).1 ≡ some (found_or_new name m fresh o).0
unfolding found_or_new
found_or_new-find name m fresh none e = find-head name fresh m
found_or_new-find name m fresh (some p) e = e

same_name_sound : (a b : Name) → same_name a b ≡ true → a ≡ b
unfolding same_name
same_name_sound [] [] e = refl
same_name_sound [] (b ∷ t) e = cc
same_name_sound (a ∷ s) [] e = cc
same_name_sound (a ∷ s) (b ∷ t) e =
    let head : a ≡ b = (==_iff a b).0 (ground (arith, e)) in
    let tail : s ≡ t = same_name_sound s t (ground (arith, e)) in rw (head, tail) refl

found_or_new-other :
    (name other : Name) (m : MetricMap) (fresh : ℕ) (o : Option ℕ)
    → find name m ≡ o
    → find other (found_or_new name m fresh o).1
      ≡ (if same_name name other then some (found_or_new name m fresh o).0 else find other m)
unfolding found_or_new
found_or_new-other name other m fresh none e = unfold find in refl
found_or_new-other name other m fresh (some p) e = elim (Bool-cases (same_name name other)) [
  | inl same ↦ rw same (ap (λ n. find n m) (sym (same_name_sound name other same)) ∙ e)
  | inr differ ↦ rw differ refl
]

get_or_create-found :
    (name : Name) (m : MetricMap) (later p : ℕ)
    → find name m ≡ some p
    → get_or_create name m later ≡ (p, m, later)
unfolding get_or_create found_or_new
get_or_create-found name m later p e = ap (found_or_new name m later) e

-- Asking for a name finds it from then on, at the address that was returned; asking again returns
-- the same metric and changes nothing; and the other names keep their metrics.
pub get_or_create_lem :
    (name : Name) (m : MetricMap) (fresh : ℕ)
    → (find name (get_or_create name m fresh).1 ≡ some (get_or_create name m fresh).0)
      × ((later : ℕ)
          → get_or_create name (get_or_create name m fresh).1 later
            ≡ ((get_or_create name m fresh).0, (get_or_create name m fresh).1, later))
      × ((other : Name)
          → find other (get_or_create name m fresh).1
            ≡ (if same_name name other then some (get_or_create name m fresh).0 else find other m))
unfolding get_or_create
get_or_create_lem name m fresh =
    let found = found_or_new-find name m fresh (find name m) refl in
    (
      found,
      (λ later. get_or_create-found name _ later _ found),
      λ other. found_or_new-other name other m fresh (find name m) refl,
    )
