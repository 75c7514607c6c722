-- ===== src/Servers/Socket.antt =====
-- src/WebSocketServer.cpp. The receiver's thread and the handlers run under locks, so what happens to
-- the server is a sequence of events. A connection is a number, in the order of `std::owner_less`.
use match_engine.Prelude.{ℕ, Bool, String, List, [], ◌∷◌, ◌++◌, if◌then◌else◌, ltb, ◌==◌}

pub record WebSocketServer : Type 0 where
  pub latest_order_book : String
  pub connections : List ℕ
  -- What was sent, to which connection.
  pub sent : List (ℕ × String)

-- `received fails text` is a book, where `fails` says for which connections `send` throws; `skipped` is
-- a call of `recv` that gives nothing or throws.
pub data Event : Type 0 where
  opened closed : ℕ → Event
  payload : ℕ → String → Event
  received : (fails : ℕ → Bool) → String → Event
  skipped : Event

abbrev pub new_server : WebSocketServer
new_server = record { latest_order_book = ""; connections = []; sent = [] }

-- `std::set::insert` and `erase`.
unfoldable pub insert : ℕ → List ℕ → List ℕ
insert hdl [] = hdl ∷ []
insert hdl (c ∷ rest) =
    let later = insert hdl rest in
    if ltb hdl c then hdl ∷ c ∷ rest else if hdl == c then c ∷ rest else c ∷ later

unfoldable pub erase : ℕ → List ℕ → List ℕ
erase hdl [] = []
erase hdl (c ∷ rest) = let later = erase hdl rest in if hdl == c then rest else c ∷ later

-- An exception of `send` ends the loop.
unfoldable pub send_to_all : (fails : ℕ → Bool) → String → List ℕ → List (ℕ × String)
send_to_all fails text [] = []
send_to_all fails text (c ∷ rest) =
    let later = send_to_all fails text rest in if fails c then [] else (c, text) ∷ later

unfoldable pub handle_event : Event → WebSocketServer → WebSocketServer
unfolding insert erase send_to_all
handle_event (opened hdl) s = record s { connections = insert hdl s.connections }
handle_event (closed hdl) s = record s { connections = erase hdl s.connections }
handle_event (payload hdl text) s = s
handle_event (received fails text) s = record s {
  latest_order_book = text;
  sent = s.sent ++ send_to_all fails text s.connections;
}
handle_event skipped s = s

unfoldable pub handle_events : List Event → WebSocketServer → WebSocketServer
unfolding handle_event
handle_events [] s = s
handle_events (e ∷ rest) s = handle_events rest (handle_event e s)
