-- ===== src/Servers/Health.antt =====
-- src/HealthCheckServer.cpp: the page with the order book that was received last.
use match_engine.Prelude.{◌<>◌, String, Option, none, some}

pub record HealthCheckServer : Type 0 where
  pub latest_order_book : String

-- A round of `receiveOrderBook`. Without a message, and after an exception, nothing changes.
unfoldable pub receive_order_book : Option String → HealthCheckServer → HealthCheckServer
receive_order_book none s = s
receive_order_book (some text) s = record { latest_order_book = text }

-- The answer to GET /.
unfoldable pub page : HealthCheckServer → String
page s =
    "<html><head><title>Health Check</title></head><body>" <> "<pre>" <> s.latest_order_book
    <> "</pre>" <> "</body></html>"
