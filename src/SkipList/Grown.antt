-- ===== src/SkipList/Grown.antt =====
-- The list at level 0 with a node more, as `insert` leaves it.
use ccmetrics.Base.{
  ℕ, ◌+◌, ◌≤◌, ◌<◌, ◌≡◌, ◌∙◌, List, ◌∷◌, ◌++◌, ◌==◌, update, occurrences, occurrences-append, arith,
  Bool-cases, inl, inr,
}
use ccmetrics.SkipList.{Link, link, null, SkipList, max_height}
use ccmetrics.SkipList.Walks.{Alive}
use ccmetrics.SkipList.Shape.{
  head_link, last, Leads, AllAlive-front, AllAlive-back, Leads-front, Leads-back, Leads-join, IsMap,
}
use ccmetrics.SkipList.Paths.{
  occurrences-last, occurrences-apart, Leads-moved, Leads-reroute, AllAlive-frame, AllAlive-join,
}
use ccmetrics.SkipList.Linked.{with_node, with_new}

-- The state with the new node behind `xs`.
abbrev pub grown :
    {K V : Type 0}
    → SkipList K V
    → (xs ys : List ℕ) → (level height : ℕ) → K
    → V
    → (ℕ → Link)
    → (ℕ → ℕ)
    → SkipList K V
grown s xs ys level height key value h lc =
    record (with_node (with_new s level key value) s.next_address (last s.head xs)
      (head_link ys null)) { height = height; link_count = lc; hazard = h }

module _ {K V : Type 0} (s : SkipList K V) (xs ys : List ℕ) (m : IsMap s (xs ++ ys)) where
  -- No node stands at the next address, or twice.
  pub fresh : (x : ℕ) → 1 ≤ occurrences x (s.head ∷ xs ++ ys) → x < s.next_address
  fresh x inside = ground (arith, m.named x, inside)

  split : (x : ℕ) → occurrences x (xs ++ ys) ≡ occurrences x xs + occurrences x ys
  split x = occurrences-append x xs ys

  old-back : (x : ℕ) → 1 ≤ occurrences x ys → x < s.next_address
  old-back x inside = fresh x (omega (arith, inside, occurrences-append x xs ys))

  pub apart : (x : ℕ) → occurrences x (s.head ∷ xs) + occurrences x ys ≤ 1
  apart x = omega (arith, m.once x, occurrences-append x xs ys)

  pub last-old : last s.head xs < s.next_address
  last-old =
      fresh (last s.head xs)
        (omega (arith, occurrences-last s.head xs, occurrences-append (last s.head xs) xs ys))

  module _ (level height : ℕ) (key : K) (value : V) (h : ℕ → Link) (lc : ℕ → ℕ)
      (low : height < max_height)
      (counts : (x : ℕ) → lc x ≡ update s.link_count s.next_address 1 x) where
    abbrev state : SkipList K V
    state = grown s xs ys level height key value h lc

    state-Leads : Leads state s.head (xs ++ s.next_address ∷ ys) null
    state-Leads =
        Leads-join state s.head xs (s.next_address ∷ ys) null
          (Leads-reroute s state s.head xs (head_link ys null) (link s.next_address)
            (λ x. omega (arith, apart x))
            (λ x inside other.
              ground (arith, fresh x (omega (arith, inside, occurrences-append x xs ys)), other))
            ground arith (Leads-front s s.head xs ys null m.path))
          (
            ground arith,
            Leads-moved s state (last s.head xs) s.next_address ys ground (arith, last-old)
                (λ x inside. ground (
                  arith,
                  old-back x inside,
                  occurrences-apart x (last s.head xs) (s.head ∷ xs)
                      (omega (arith, apart x, inside)) (occurrences-last s.head xs),
                ))
                (Leads-back s s.head xs ys null m.path),
          )

    stays : (x : ℕ) → Alive s x → Alive state x
    stays x here = ground (arith, here)

    counted :
        (x : ℕ)
        → 1 ≤ occurrences x (xs ++ s.next_address ∷ ys)
        → update s.link_count s.next_address 1 x ≡ 1
    counted x inside = elim (Bool-cases (x == s.next_address)) [
      | inl e ↦ ground (arith, e)
      | inr e ↦ ground (
        arith,
        e,
        m.linked x
            (ground (arith, e, inside, occurrences-append x xs (s.next_address ∷ ys), split x)),
      )
    ]

    pub IsMap-grown : IsMap (grown s xs ys level height key value h lc) (xs ++ s.next_address ∷ ys)
    IsMap-grown =
        let (here, all) = m.alive in
        record {
          path = state-Leads;
          once = λ x.
              ground (
                arith,
                split x,
                occurrences-append x xs (s.next_address ∷ ys),
                m.once x,
                m.named x,
              );
          alive = (
            stays s.head here,
            AllAlive-join state xs (s.next_address ∷ ys)
                (AllAlive-frame s state xs (λ x inside. stays x) (AllAlive-front s xs ys all))
                (
                  ground (arith, last-old),
                  AllAlive-frame s state ys (λ x inside. stays x) (AllAlive-back s xs ys all),
                ),
          );
          named = λ x above. ground (
            arith,
            occurrences-append x xs (s.next_address ∷ ys),
            occurrences-append x xs ys,
            m.named x (omega (arith, above)),
          );
          owned = λ x. ground (
            arith,
            m.owned x,
            split x,
            occurrences-append x xs (s.next_address ∷ ys),
            fresh s.head (ground arith),
            here,
          );
          linked = λ x inside. counts x ∙ counted x inside;
          low = low;
          tall = ground (arith, m.tall, fresh s.head (ground arith));
          bare = λ i. ground (arith, m.bare i, fresh s.head (ground arith));
        }
