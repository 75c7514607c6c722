-- ===== src/Engine/Booking.antt =====
-- `add_order_to_book` of Engine/Book.antt and the invariant of a side.
use match_engine.Prelude.{ℕ, ◌≤◌, ◌<◌, ◌≡◌, refl, Bool, true, false, [], ◌∷◌, arith, ltb}
use match_engine.Double.{Double, IsRanked, IsExact}
use match_engine.Order.{Order}
use match_engine.OrderedMap.Sorted.{AllKeys, update-All, update-Sorted}
use match_engine.Engine.Match.{Level, Book}
use match_engine.Engine.Book.{put_order, level_of, add_order_to_book}
use match_engine.Engine.Process.{is_buy}
use match_engine.Engine.Exact.{remaining}
use match_engine.Engine.Levels.{IsOpen, AllOpen, open_units}
use match_engine.Engine.Invariant.{IsEntry, IsLevel, Rises, IsBook}
use match_engine.Engine.Sides.{prices_known}

module _ {D : Type 0} ⦃d : Double D⦄ where
  pub add_order_to_book-AllKeys :
      (Q : D → Type 0) (o : Order D) (book : Book D)
      → Q o.price
      → AllKeys Q book
      → AllKeys Q (add_order_to_book o book)
  unfolding add_order_to_book
  add_order_to_book-AllKeys Q o book q h =
      update-All d.lt (λ p l. Q p) o.price (λ old. put_order o (level_of old)) book q
        (λ p l _ _ r. r) h

module _ {D : Type 0} ⦃d : Double D⦄ (k : IsRanked D) (x : IsExact D) where
  open k use {is_price, rank}

  put_order-AllOpen :
      (o : Order D) (level : Level D) → IsOpen x o → AllOpen x level → AllOpen x (put_order o level)
  unfolding put_order
  put_order-AllOpen o level p h =
      update-All ltb (λ id a. IsOpen x a) o.order_id (λ old. o) level p (λ j a _ _ _. p) h

  put_order-units :
      (o : Order D) (level : Level D) → remaining x o ≤ open_units x (put_order o level)
  unfolding put_order
  put_order-units o [] = omega arith
  put_order-units o ((id, a) ∷ level) = ground (arith, put_order-units o level)

  put_order-IsLevel :
      (buying : Bool) (price : D) (o : Order D) (level : Level D)
      → IsEntry k x buying price o.order_id o
      → IsLevel k x buying price level
      → IsLevel k x buying price (put_order o level)
  unfolding put_order
  put_order-IsLevel buying price o level e h = record {
    price_known = h.price_known;
    ids_rise =
        update-Sorted ltb (λ j. Unit {0}) ◌<◌ o.order_id (λ old. o) level (λ j _ b. ground arith)
          (λ j _ b. ground arith) (λ i j p q. omega arith) (all_unit level) h.ids_rise;
    entries =
        update-All ltb (λ id a. IsEntry k x buying price id a) o.order_id (λ old. o) level e
          (λ j a p q _. same_id j p q) h.entries;
  }
    where
      all_unit : (l : Level D) → AllKeys (λ j. Unit {0}) l
      all_unit [] = tt
      all_unit ((id, a) ∷ l) = (tt, all_unit l)

      same_id :
          (j : ℕ)
          → ltb o.order_id j ≡ false
          → ltb j o.order_id ≡ false
          → IsEntry k x buying price j o
      same_id j p q = record {
        own_id = ground arith;
        own_price = e.own_price;
        own_rank = e.own_rank;
        own_side = e.own_side;
      }

  -- An open order goes into its own side without breaking it.
  pub add_order_to_book-IsBook :
      (buying : Bool) (o : Order D) (book : Book D)
      → is_price o.price ≡ true
      → is_buy o.order_side ≡ buying
      → IsOpen x o
      → IsBook k x buying book
      → IsBook k x buying (add_order_to_book o book)
  unfolding add_order_to_book
  add_order_to_book-IsBook buying o book known side p h = record {
    prices_rise =
        update-Sorted d.lt (λ q. is_price q ≡ true) (Rises k x) o.price
          (λ old. put_order o (level_of old)) book
          (λ q hq b. ground (arith, k.lt_rank o.price q known hq))
          (λ q hq b. ground (arith, k.lt_rank q o.price hq known)) (λ i j p q. omega arith)
          (prices_known k x buying book h.levels) h.prices_rise;
    levels =
        update-All d.lt (λ q l. IsLevel k x buying q l) o.price (λ old. put_order o (level_of old))
          book
          (put_order-IsLevel buying o.price o []
            (record { own_id = refl; own_price = known; own_rank = refl; own_side = side })
            (record { price_known = known; ids_rise = tt; entries = tt }))
          (λ q l a b v. put_order-IsLevel buying q o l (entry_at q l a b v) v) h.levels;
    orders_open =
        update-All d.lt (λ q l. AllOpen x l × (0 < open_units x l)) o.price
          (λ old. put_order o (level_of old)) book (opened [] tt) (λ q l _ _ v. opened l v.0)
          h.orders_open;
  }
    where
      opened :
          (l : Level D)
          → AllOpen x l
          → AllOpen x (put_order o l) × (0 < open_units x (put_order o l))
      opened l v = (put_order-AllOpen o l p v, omega (arith, put_order-units o l, p.remaining_pos))

      entry_at :
          (q : D) (l : Level D)
          → d.lt o.price q ≡ false
          → d.lt q o.price ≡ false
          → IsLevel k x buying q l
          → IsEntry k x buying q o.order_id o
      entry_at q l a b v = record {
        own_id = refl;
        own_price = known;
        own_rank = ground (
          arith,
          k.lt_rank o.price q known v.price_known,
          k.lt_rank q o.price v.price_known known,
        );
        own_side = side;
      }
