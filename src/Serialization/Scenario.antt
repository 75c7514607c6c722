-- ===== src/Serialization/Scenario.antt =====
-- Test data: a calendar two hours east of UTC, an order and a trade record.
use match_engine.Prelude.{ℕ, ap, ◌-◌}
use match_engine.Prelude.Int.{ℤ, pos, pos_part}
use match_engine.Double.Whole.{whole, strokes, count_strokes, count_strokes-strokes}
use match_engine.Json.Coded.{coded}
use match_engine.Order.{Order, TradeRecord, buy, limit, initial}
use match_engine.Serialization.Times.{Tm, Calendar, IsCalendar}

abbrev pub seconds_only : ℤ → Tm
seconds_only t = record {
  tm_year = pos 0;
  tm_mon = pos 0;
  tm_mday = pos 0;
  tm_hour = pos 0;
  tm_min = pos 0;
  tm_sec = t;
}

instance abbrev pub east : Calendar
unfolding strokes count_strokes
east = record {
  to_time_t = λ t. t;
  from_time_t = λ t. t;
  gmtime = seconds_only;
  mktime = λ tm. pos (pos_part tm.tm_sec - 7200);
  put_time = λ tm. strokes (pos_part tm.tm_sec);
  get_time = λ s. seconds_only (pos (count_strokes s));
}

pub east-IsCalendar : IsCalendar
unfolding strokes count_strokes
east-IsCalendar = record {
  mktime_text = λ tp.
      ap (λ (n : ℕ). pos (n - 7200))
        (count_strokes-strokes (pos_part (east.gmtime (east.to_time_t tp)).tm_sec));
}

abbrev pub sample_order : Order ℕ
sample_order = record {
  order_id = 10001;
  user_id = 7;
  price = 50_000;
  quantity = 3;
  fee_rate = 1;
  order_side = buy;
  order_type = limit;
  status = initial;
  create_time = pos 1_700_000_000;
  update_time = pos 1_700_000_060;
  filled_quantity = 1;
}

abbrev pub sample_trade : TradeRecord ℕ
sample_trade = record {
  trade_id = 5;
  buyer_user_id = 7;
  seller_user_id = 8;
  buyer_order_id = 10001;
  seller_order_id = 10002;
  order_type = "BUY";
  trade_price = 50_000;
  trade_quantity = 2;
  buyer_fee = 1;
  seller_fee = 1;
  trade_time = pos 1_700_000_000;
}
