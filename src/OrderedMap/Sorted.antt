-- ===== src/OrderedMap/Sorted.antt =====
-- Maps whose keys rise along the list, by a relation `R` on the keys; and what `update` of
-- OrderedMap.antt keeps.
use mathlib.Core.List.{reverse-cons}
use match_engine.Prelude.{
  ◌≡◌, Bool, true, false, Option, none, some, [], ◌∷◌, ◌++◌, reverse, All, All-append, Bool-cases,
  inl, inr,
}
use match_engine.OrderedMap.{OrderedMap, update}

module _ {K V : Type 0} where
  abbrev pub AllKeys : (K → Type 0) → OrderedMap K V → Type 0
  AllKeys Q = All λ (k, v). Q k

  abbrev pub Sorted : (K → K → Type 0) → OrderedMap K V → Type 0
  Sorted R [] = Unit
  Sorted R ((k, v) ∷ m) = AllKeys (R k) m × Sorted R m

  pub AllKeys-map :
      (P Q : K → Type 0) (m : OrderedMap K V) → ((k : K) → P k → Q k) → AllKeys P m → AllKeys Q m
  AllKeys-map P Q [] f h = tt
  AllKeys-map P Q ((k, v) ∷ m) f (p, h) = (f k p, AllKeys-map P Q m f h)

  pub All-reverse : (P : K × V → Type 0) (m : OrderedMap K V) → All P m → All P (reverse m)
  All-reverse P [] h = tt
  All-reverse P ((k, v) ∷ m) (p, h) =
      rw (reverse-cons (k, v) m)
        (All-append P (reverse m) ((k, v) ∷ []) (All-reverse P m h) (p, tt))

  Sorted-snoc :
      (R : K → K → Type 0) (m : OrderedMap K V) (k : K) (v : V)
      → Sorted R m
      → AllKeys (λ j. R j k) m
      → Sorted R (m ++ (k, v) ∷ [])
  Sorted-snoc R [] k v s h = (tt, tt)
  Sorted-snoc R ((j, w) ∷ m) k v (a, s) (r, h) =
      (All-append (λ (i, u). R j i) m ((k, v) ∷ []) a (r, tt), Sorted-snoc R m k v s h)

  pub Sorted-reverse :
      (R : K → K → Type 0) (m : OrderedMap K V) → Sorted R m → Sorted (λ a b. R b a) (reverse m)
  Sorted-reverse R [] s = tt
  Sorted-reverse R ((k, v) ∷ m) (a, s) = rw (reverse-cons (k, v) m) (
      Sorted-snoc (λ a b. R b a) (reverse m) k v (Sorted-reverse R m s)
        (All-reverse (λ (j, w). R k j) m a))

  -- Facts about single keys, joined to the relation.
  pub Sorted-with :
      (Q : K → Type 0) (R : K → K → Type 0) (m : OrderedMap K V)
      → AllKeys Q m
      → Sorted R m
      → Sorted (λ a b. Q a × Q b × R a b) m
  Sorted-with Q R [] h s = tt
  Sorted-with Q R ((k, v) ∷ m) (q, h) (a, s) = (joined m h a, Sorted-with Q R m h s)
    where
      joined :
          (m : OrderedMap K V) → AllKeys Q m → AllKeys (R k) m → AllKeys (λ b. Q k × Q b × R k b) m
      joined [] h a = tt
      joined ((j, w) ∷ m) (p, h) (r, a) = ((q, p, r), joined m h a)

  module _ (before : K → K → Bool) where
    -- A predicate that the new entry has, and that `f` keeps in the entry which it changes.
    pub update-All :
        (P : K → V → Type 0) (k : K) (f : Option V → V) (m : OrderedMap K V)
        → P k (f none)
        → ((j : K) (v : V) → before k j ≡ false → before j k ≡ false → P j v → P j (f (some v)))
        → All (λ (j, v). P j v) m
        → All (λ (j, v). P j v) (update before k f m)
    unfolding update
    update-All P k f [] p q h = (p, tt)
    update-All P k f ((j, v) ∷ m) p q (r, h) = elim (Bool-cases (before k j)) [
      | inl e ↦ rw e (p, (r, h))
      | inr e ↦ elim (Bool-cases (before j k)) [
        | inl e' ↦ rw (e, e') (r, update-All P k f m p q h)
        | inr e' ↦ rw (e, e') (q j v e e' r, h)
      ]
    ]

    -- Rising keys keep rising, where `R` is what `before` tests between keys of `Q`.
    pub update-Sorted :
        (Q : K → Type 0) (R : K → K → Type 0) (k : K) (f : Option V → V) (m : OrderedMap K V)
        → ((j : K) → Q j → before k j ≡ true → R k j)
        → ((j : K) → Q j → before j k ≡ true → R j k)
        → ((i j : K) → R k i → R i j → R k j)
        → AllKeys Q m
        → Sorted R m
        → Sorted R (update before k f m)
    unfolding update
    update-Sorted Q R k f [] up down trans q s = (tt, tt)
    update-Sorted Q R k f ((j, v) ∷ m) up down trans (q, qs) (a, s) =
        elim (Bool-cases (before k j)) [
          | inl e ↦ rw e ((up j q e, All-trans m (up j q e) a), (a, s))
          | inr e ↦ elim (Bool-cases (before j k)) [
            | inl e' ↦
                rw (e, e')
                  (
                    update-All (λ i w. R j i) k f m (down j q e') (λ i w _ _ r. r) a,
                    update-Sorted Q R k f m up down trans qs s,
                  )
            | inr e' ↦ rw (e, e') (a, s)
          ]
        ]
      where
        All-trans : (m : OrderedMap K V) → R k j → AllKeys (R j) m → AllKeys (R k) m
        All-trans [] r h = tt
        All-trans ((i, w) ∷ m) r (q, h) = (trans j i r q, All-trans m r h)
