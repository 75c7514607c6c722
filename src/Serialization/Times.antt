-- ===== src/Serialization/Times.antt =====
-- src/Serialization.cpp: time points as text. The C library's calendar is a parameter: `put_time` and `get_time` are `strftime` and `std::get_time` with the format of the
-- sources, and `mktime` reads a broken-down time as local time.
use match_engine.Prelude.{◌≡◌, ap, String}
use match_engine.Prelude.Int.{ℤ}

-- `std::tm`, in the fields that the format names.
pub record Tm : Type 0 where
  pub tm_year : ℤ
  pub tm_mon : ℤ
  pub tm_mday : ℤ
  pub tm_hour : ℤ
  pub tm_min : ℤ
  pub tm_sec : ℤ

pub record Calendar : Type 0 where
  pub to_time_t : ℤ → ℤ
  pub from_time_t : ℤ → ℤ
  pub gmtime : ℤ → Tm
  pub mktime : Tm → ℤ
  pub put_time : Tm → String
  pub get_time : String → Tm

module _ ⦃c : Calendar⦄ where
  unfoldable pub time_point_to_string : ℤ → String
  time_point_to_string tp = c.put_time (c.gmtime (c.to_time_t tp))

  unfoldable pub string_to_time_point : String → ℤ
  string_to_time_point s = c.from_time_t (c.mktime (c.get_time s))

-- The text of a time that `gmtime` gives has all that `mktime` reads of it.
pub record IsCalendar ⦃c : Calendar⦄ : Type 0 where
  pub mktime_text :
      (tp : ℤ)
      → let tm = c.gmtime (c.to_time_t tp) in c.mktime (c.get_time (c.put_time tm)) ≡ c.mktime tm

module _ ⦃c : Calendar⦄ where
  -- What a time point becomes on its way through a message: whole seconds in UTC, taken for local
  -- time.
  unfoldable pub reread_time : ℤ → ℤ
  reread_time tp = c.from_time_t (c.mktime (c.gmtime (c.to_time_t tp)))

  pub string_to_time_point-time_point_to_string :
      IsCalendar → (tp : ℤ) → string_to_time_point (time_point_to_string tp) ≡ reread_time tp
  unfolding string_to_time_point time_point_to_string reread_time
  string_to_time_point-time_point_to_string laws tp = ap c.from_time_t (laws.mktime_text tp)
