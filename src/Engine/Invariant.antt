-- ===== src/Engine/Invariant.antt =====
-- What holds of the state of Engine/Process.antt between two orders.
use match_engine.Prelude.{ℕ, ◌<◌, ◌≡◌, Bool, true, false, All}
use match_engine.Double.{Double, IsRanked, IsExact}
use match_engine.Order.{Order}
use match_engine.OrderedMap.Sorted.{AllKeys, Sorted}
use match_engine.Engine.Match.{Level, Book}
use match_engine.Engine.Process.{Engine, is_buy}
use match_engine.Engine.Exact.{IsLive, remaining}
use match_engine.Engine.Sweep.{AllOpenBook}

module _ {D : Type 0} ⦃d : Double D⦄ (k : IsRanked D) (x : IsExact D) where
  open k use {is_price, rank}

  -- An entry stands under its order's id, at its order's price, on its order's side.
  pub record IsEntry (buying : Bool) (price : D) (id : ℕ) (o : Order D) : Type 0 where
    pub own_id : id ≡ o.order_id
    pub own_price : is_price o.price ≡ true
    pub own_rank : rank o.price ≡ rank price
    pub own_side : is_buy o.order_side ≡ buying

  pub record IsLevel (buying : Bool) (price : D) (level : Level D) : Type 0 where
    pub price_known : is_price price ≡ true
    pub ids_rise : Sorted ◌<◌ level
    pub entries : All (λ (id, o). IsEntry buying price id o) level

  abbrev pub Rises : D → D → Type 0
  Rises a b = rank a < rank b

  -- Prices rise, no price is without orders, and every order has something left to be filled.
  pub record IsBook (buying : Bool) (book : Book D) : Type 0 where
    pub prices_rise : Sorted Rises book
    pub levels : All (λ (price, level). IsLevel buying price level) book
    pub orders_open : AllOpenBook x book

  -- Every bid is below every ask.
  abbrev pub IsUncrossed : (buys sells : Book D) → Type 0
  IsUncrossed buys sells = AllKeys (λ bid. AllKeys (λ ask. rank bid < rank ask) sells) buys

  pub record IsValid (e : Engine D) : Type 0 where
    pub buys : IsBook true e.buy_orders
    pub sells : IsBook false e.sell_orders
    pub uncrossed : IsUncrossed e.buy_orders e.sell_orders

  -- An order that asks for something: its price a number, its quantities exact, not yet filled.
  pub record IsAdmissible (o : Order D) : Type 0 where
    pub price_known : is_price o.price ≡ true
    pub live : IsLive x o
    pub wants : 0 < remaining x o
