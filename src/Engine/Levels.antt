-- ===== src/Engine/Levels.antt =====
-- The inner loop of Engine/Match.antt: what `match_level` makes of the order and of one level.
use match_engine.Prelude.{
  ℕ, suc, ◌+◌, ◌-◌, ◌<◌, ◌≡◌, refl, inl, inr, [], ◌∷◌, arith, All, Bool-cases, ◌∙◌, ap,
}
use match_engine.Double.{Double, IsExact}
use match_engine.Order.{Order}
use match_engine.OrderedMap.Sorted.{AllKeys, Sorted}
use match_engine.Engine.Trade.{Env, process_trade}
use match_engine.Engine.Match.{Level, Matched, wants_more, keep_open, match_level}
use match_engine.Engine.Exact.{
  IsLive, remaining, wants_more-remaining, filled_test, process_trade-IsLive,
}

module _ {D : Type 0} where
  -- `b` is `a` but for its filled quantity.
  abbrev pub SameTerms : Order D → Order D → Type 0
  SameTerms a b = b ≡ record a { filled_quantity = b.filled_quantity }

  pub SameTerms-trans : (a b c : Order D) → SameTerms a b → SameTerms b c → SameTerms a c
  SameTerms-trans a b c e e' =
      e' ∙ ap (λ (o : Order D). record o { filled_quantity = c.filled_quantity }) e

  -- `P` does not look at the filled quantity.
  abbrev pub IsStatic : (ℕ → Order D → Type 0) → Type 0
  IsStatic P = (id : ℕ) (o : Order D) (q : D) → P id o → P id (record o { filled_quantity = q })

module _ {D : Type 0} ⦃d : Double D⦄ where
  pub process_trade-SameTerms :
      (env : Env) (n : ℕ) (order opposite : Order D)
      → SameTerms order (process_trade env n order opposite).order
  unfolding process_trade
  process_trade-SameTerms env n order opposite = refl

  pub match_level-SameTerms :
      (env : Env) (n : ℕ) (order : Order D) (level : Level D)
      → SameTerms order (match_level env n order level).order
  unfolding match_level process_trade
  match_level-SameTerms env n order [] = refl
  match_level-SameTerms env n order ((id, resting) ∷ rest) =
      let t = process_trade env n order resting in
      elim (Bool-cases (wants_more order)) [
        | inl e ↦ ground (arith, match_level-SameTerms env (suc n) t.order rest)
        | inr e ↦ ground arith
      ]

  keep_open-All :
      (P : ℕ → Order D → Type 0) (id : ℕ) (o : Order D) (level : Level D)
      → P id o
      → All (λ (id, o). P id o) level
      → All (λ (id, o). P id o) (keep_open id o level)
  unfolding keep_open
  keep_open-All P id o level p h = elim (Bool-cases (d.le o.quantity o.filled_quantity)) [
    | inl e ↦ rw e h
    | inr e ↦ rw e (p, h)
  ]

  -- What does not depend on the filled quantity stays true of the orders that stay.
  pub match_level-All :
      (P : ℕ → Order D → Type 0)
      → IsStatic P
      → (env : Env) (n : ℕ) (order : Order D) (level : Level D) → All (λ (id, o). P id o) level
      → All (λ (id, o). P id o) (match_level env n order level).left
  unfolding match_level process_trade
  match_level-All P s env n order [] h = tt
  match_level-All P s env n order ((id, resting) ∷ rest) (p, h) =
      let t = process_trade env n order resting in
      let ih = match_level-All P s env (suc n) t.order rest h in
      elim (Bool-cases (wants_more order)) [
        | inl e ↦
            rw e (keep_open-All P id t.opposite _ (s id resting t.opposite.filled_quantity p) ih)
        | inr e ↦ rw e (p, h)
      ]

  keep_open-Sorted :
      (id : ℕ) (o : Order D) (level : Level D)
      → AllKeys (◌<◌ id) level
      → Sorted ◌<◌ level
      → Sorted ◌<◌ (keep_open id o level)
  unfolding keep_open
  keep_open-Sorted id o level a s = elim (Bool-cases (d.le o.quantity o.filled_quantity)) [
    | inl e ↦ rw e s
    | inr e ↦ rw e (a, s)
  ]

  pub match_level-Sorted :
      (env : Env) (n : ℕ) (order : Order D) (level : Level D)
      → Sorted ◌<◌ level
      → Sorted ◌<◌ (match_level env n order level).left
  unfolding match_level
  match_level-Sorted env n order [] s = tt
  match_level-Sorted env n order ((id, resting) ∷ rest) (a, s) =
      let t = process_trade env n order resting in
      let ih = match_level-Sorted env (suc n) t.order rest s in
      let ids = match_level-All (λ j o. id < j) (λ j o q h. h) env (suc n) t.order rest a in
      elim (Bool-cases (wants_more order)) [
        | inl e ↦ rw e (keep_open-Sorted id t.opposite _ ids ih)
        | inr e ↦ rw e (a, s)
      ]

module _ {D : Type 0} ⦃d : Double D⦄ (x : IsExact D) where
  -- A resting order has something left to be filled.
  pub record IsOpen (o : Order D) : Type 0 where
    pub live : IsLive x o
    pub remaining_pos : 0 < remaining x o

  abbrev pub AllOpen : Level D → Type 0
  AllOpen = All λ (id, o). IsOpen o

  -- What a level has left, in units.
  abbrev pub open_units : Level D → ℕ
  open_units [] = 0
  open_units ((id, o) ∷ level) = remaining x o + open_units level

  pub open_units-zero : (level : Level D) → AllOpen level → open_units level ≡ 0 → level ≡ []
  open_units-zero [] h e = refl
  open_units-zero ((id, o) ∷ level) (p, h) e = let pos = p.remaining_pos in absurd (omega arith)

  -- Taker and level lose the same units, as many as the smaller of what they have left.
  pub record LevelOutcome (order : Order D) (level : Level D) (r : Matched D (Level D))
      : Type 0 where
    pub order_live : IsLive x r.order
    pub left_open : AllOpen r.left
    pub order_units : remaining x r.order ≡ remaining x order - open_units level
    pub left_units : open_units r.left ≡ open_units level - remaining x order

  keep_open-units :
      (id : ℕ) (o : Order D) (level : Level D)
      → IsLive x o
      → AllOpen level
      → AllOpen (keep_open id o level)
        × (open_units (keep_open id o level) ≡ remaining x o + open_units level)
  unfolding keep_open
  keep_open-units id o level v h = ground (arith, filled_test x o v)

  pub match_level-outcome :
      (env : Env) (n : ℕ) (order : Order D) (level : Level D)
      → IsLive x order
      → AllOpen level
      → LevelOutcome order level (match_level env n order level)
  unfolding match_level
  match_level-outcome env n order [] v h = record {
    order_live = v;
    left_open = tt;
    order_units = omega arith;
    left_units = omega arith;
  }
  match_level-outcome env n order ((id, resting) ∷ rest) v (p, h) =
      let t = process_trade env n order resting in
      let (la, lb, ra, rb) = process_trade-IsLive x env n order resting v p.live in
      let ih = match_level-outcome env (suc n) t.order rest la h in
      let (ko, ku) =
        keep_open-units id t.opposite (match_level env (suc n) t.order rest).left lb ih.left_open in
      let w = wants_more-remaining x order v in
      elim (Bool-cases (wants_more order)) [
        | inl e ↦ rw e (record {
          order_live = ih.order_live;
          left_open = ko;
          order_units = omega (arith, ih.order_units);
          left_units = omega (arith, ku, ih.left_units);
        })
        | inr e ↦
            let full : remaining x order ≡ 0 = ground arith in
            rw e (record {
              order_live = v;
              left_open = (p, h);
              order_units = omega arith;
              left_units = omega arith;
            })
      ]
