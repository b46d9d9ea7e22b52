-- ===== src/SkipList/Walks.antt =====
-- One node of a walk along level 0, and a walk past the nodes below a key.
use ccmetrics.Base.{ℕ, suc, ◌≡◌, Bool, true, false, ◌∷◌, update, arith}
use ccmetrics.SkipList.{
  Link, link, null, clear, SkipList, ok, load, exchange, load_key, is_dead, has_level,
}
use ccmetrics.SkipList.Search.{arrived, walk, unlink, release}

module _ {K V : Type 0} where
  -- There is a node at `a`.
  abbrev pub Alive : SkipList K V → ℕ → Type 0
  Alive s a = has_level s a 0 ≡ true

  abbrev pub with_hazard : SkipList K V → (ℕ → Link) → SkipList K V
  with_hazard s h = record s { hazard = h }

module _ {K V : Type 0} (lt : K → K → Bool) where
  pub walk-next :
      (m : ℕ) (key : K) (prev c : ℕ) (y nx : Link) (s : SkipList K V)
      → Alive s prev
      → Alive s c
      → s.next prev 0 ≡ link c
      → s.next c 0 ≡ y
      → y.bit ≡ false
      → lt (s.key c) key ≡ true
      → walk lt (suc m) key 0 prev (link c) nx s
        ≡ walk lt m key 0 c y y
            (with_hazard s (update (update (update s.hazard 0 y) 2 (link c)) 1 y))
  unfolding walk load is_dead load_key
  walk-next m key prev c y nx s alive_prev alive_c at_prev at_c plain below = ground arith

  pub walk-stop :
      (m : ℕ) (key : K) (prev c : ℕ) (y nx : Link) (s : SkipList K V)
      → Alive s prev
      → Alive s c
      → s.next prev 0 ≡ link c
      → s.next c 0 ≡ y
      → y.bit ≡ false
      → lt (s.key c) key ≡ false
      → walk lt (suc m) key 0 prev (link c) nx s
        ≡ ok (arrived prev (link c) y) (with_hazard s (update s.hazard 0 y))
  unfolding walk load is_dead load_key
  walk-stop m key prev c y nx s alive_prev alive_c at_prev at_c plain above = ground arith

  pub walk-dead :
      (m : ℕ) (key : K) (prev c : ℕ) (y nx : Link) (s : SkipList K V)
      → Alive s prev
      → Alive s c
      → s.next prev 0 ≡ link c
      → s.next c 0 ≡ y
      → y.bit ≡ true
      → s.link_count c ≡ 1
      → walk lt (suc m) key 0 prev (link c) nx s
        ≡ ok (arrived prev null y) (record s {
          next = update s.next prev (update (s.next prev) 0 (clear y));
          link_count = update s.link_count c 0;
          hazard = update (update s.hazard 0 y) 1 null;
          retired = c ∷ s.retired;
        })
  unfolding walk load is_dead load_key unlink release exchange
  walk-dead m key prev c y nx s alive_prev alive_c at_prev at_c dead linked = ground arith
