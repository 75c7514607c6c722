-- ===== src/Serialization/Enums.antt =====
-- src/Serialization.cpp: the names of the enumerators, and back.
use text.Mathlib.Text.{◌==◌}
use match_engine.Prelude.{◌≡◌, refl, String, if◌then◌else◌}
use match_engine.Order.{
  OrderSide, buy, sell, OrderType, limit, market, OrderStatus, initial, matching, partially_filled,
  fully_filled, canceled, partially_filled_canceled,
}

unfoldable pub order_side_to_string : OrderSide → String
order_side_to_string buy = "BUY"
order_side_to_string sell = "SELL"
order_side_to_string OrderSide.unknown = "UNKNOWN"

unfoldable pub string_to_order_side : String → OrderSide
string_to_order_side s = if s == "BUY" then buy else if s == "SELL" then sell else OrderSide.unknown

unfoldable pub order_type_to_string : OrderType → String
order_type_to_string limit = "LIMIT"
order_type_to_string market = "MARKET"
order_type_to_string OrderType.unknown = "UNKNOWN"

unfoldable pub string_to_order_type : String → OrderType
string_to_order_type s =
    if s == "LIMIT" then limit else if s == "MARKET" then market else OrderType.unknown

unfoldable pub order_status_to_string : OrderStatus → String
order_status_to_string initial = "INITIAL"
order_status_to_string matching = "MATCHING"
order_status_to_string partially_filled = "PARTIALLY_FILLED"
order_status_to_string fully_filled = "FULLY_FILLED"
order_status_to_string canceled = "CANCELED"
order_status_to_string partially_filled_canceled = "PARTIALLY_FILLED_CANCELED"
order_status_to_string OrderStatus.unknown = "UNKNOWN"

unfoldable pub string_to_order_status : String → OrderStatus
string_to_order_status s =
    if s == "INITIAL"
    then initial
    else if s == "MATCHING"
    then matching
    else if s == "PARTIALLY_FILLED"
    then partially_filled
    else if s == "FULLY_FILLED"
    then fully_filled
    else if s == "CANCELED"
    then canceled
    else if s == "PARTIALLY_FILLED_CANCELED"
    then partially_filled_canceled
    else OrderStatus.unknown

-- Every enumerator is read back from its name, `UNKNOWN` included.
pub enum_names :
    ((a : OrderSide) → string_to_order_side (order_side_to_string a) ≡ a)
    × ((a : OrderType) → string_to_order_type (order_type_to_string a) ≡ a)
    × ((a : OrderStatus) → string_to_order_status (order_status_to_string a) ≡ a)
unfolding order_side_to_string string_to_order_side order_type_to_string string_to_order_type
    order_status_to_string string_to_order_status
enum_names = (
  elim [ buy ↦ refl | sell ↦ refl | OrderSide.unknown ↦ refl ],
  elim [ limit ↦ refl | market ↦ refl | OrderType.unknown ↦ refl ],
  elim [
    | initial ↦ refl
    | matching ↦ refl
    | partially_filled ↦ refl
    | fully_filled ↦ refl
    | canceled ↦ refl
    | partially_filled_canceled ↦ refl
    | OrderStatus.unknown ↦ refl
  ],
)
