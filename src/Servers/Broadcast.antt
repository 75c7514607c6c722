-- ===== src/Servers/Broadcast.antt =====
-- Which connections of Servers/Socket.antt a book goes to.
use match_engine.Prelude.{
  ℕ, ◌<◌, ◌≡◌, refl, Bool, true, false, String, List, [], ◌∷◌, ◌++◌, map, All, if◌then◌else◌, ltb,
  ◌==◌, arith, ap, ◌∙◌,
}
use match_engine.Servers.Socket.{
  WebSocketServer, Event, opened, closed, payload, received, skipped, insert, erase, send_to_all,
  handle_event, handle_events, new_server,
}

pub member : ℕ → List ℕ → Bool
member hdl [] = false
member hdl (c ∷ rest) = if hdl == c then true else member hdl rest

-- What the last event that opens or closes a connection makes of it.
pub is_open : ℕ → List Event → Bool → Bool
is_open hdl [] before = before
is_open hdl (opened k ∷ rest) before = is_open hdl rest (if hdl == k then true else before)
is_open hdl (closed k ∷ rest) before = is_open hdl rest (if hdl == k then false else before)
is_open hdl (payload k text ∷ rest) before = is_open hdl rest before
is_open hdl (received fails text ∷ rest) before = is_open hdl rest before
is_open hdl (skipped ∷ rest) before = is_open hdl rest before

-- In the order of a set, each connection once.
abbrev pub Rising : List ℕ → Type 0
Rising [] = Unit
Rising (c ∷ rest) = All (λ k. c < k) rest × Rising rest

if_either {ℓ κ} :
    {A : Type ℓ} (Q : A → Type κ) (b : Bool) (x y : A)
    → (b ≡ true → Q x)
    → (b ≡ false → Q y)
    → Q (if b then x else y)
if_either Q true x y h k = h refl
if_either Q false x y h k = k refl

insert-All : (P : ℕ → Type 0) (hdl : ℕ) (cs : List ℕ) → P hdl → All P cs → All P (insert hdl cs)
unfolding insert
insert-All P hdl [] p h = (p, tt)
insert-All P hdl (c ∷ rest) p (q, h) =
    if_either (All P) (ltb hdl c) (hdl ∷ c ∷ rest) _ (λ e. (p, (q, h)))
      (λ e.
        if_either (All P) (hdl == c) (c ∷ rest) (c ∷ insert hdl rest) (λ e'. (q, h))
          (λ e'. (q, insert-All P hdl rest p h)))

above-All : (a b : ℕ) (cs : List ℕ) → a < b → All (λ k. b < k) cs → All (λ k. a < k) cs
above-All a b [] h all = tt
above-All a b (c ∷ rest) h (q, all) = (omega arith, above-All a b rest h all)

insert-Rising : (hdl : ℕ) (cs : List ℕ) → Rising cs → Rising (insert hdl cs)
unfolding insert
insert-Rising hdl [] h = (tt, tt)
insert-Rising hdl (c ∷ rest) (a, h) =
    if_either Rising (ltb hdl c) (hdl ∷ c ∷ rest) _
      (λ e. let below : hdl < c = ground arith in ((below, above-All hdl c rest below a), (a, h)))
      (λ e.
        if_either Rising (hdl == c) (c ∷ rest) (c ∷ insert hdl rest) (λ e'. (a, h))
          (λ e'.
            let over : c < hdl = ground arith in
            (insert-All (λ k. c < k) hdl rest over a, insert-Rising hdl rest h)))

member-insert :
    (hdl k : ℕ) (cs : List ℕ)
    → member hdl (insert k cs) ≡ (if hdl == k then true else member hdl cs)
unfolding insert member
member-insert hdl k [] = refl
member-insert hdl k (c ∷ rest) = ground (arith, member-insert hdl k rest)

above-member : (hdl : ℕ) (cs : List ℕ) → All (λ k. hdl < k) cs → member hdl cs ≡ false
unfolding member
above-member hdl [] h = refl
above-member hdl (c ∷ rest) (q, h) = ground (arith, above-member hdl rest h)

erase-All : (P : ℕ → Type 0) (hdl : ℕ) (cs : List ℕ) → All P cs → All P (erase hdl cs)
unfolding erase
erase-All P hdl [] h = tt
erase-All P hdl (c ∷ rest) (q, h) =
    if_either (All P) (hdl == c) rest (c ∷ erase hdl rest) (λ e. h)
      (λ e. (q, erase-All P hdl rest h))

erase-Rising : (hdl : ℕ) (cs : List ℕ) → Rising cs → Rising (erase hdl cs)
unfolding erase
erase-Rising hdl [] h = tt
erase-Rising hdl (c ∷ rest) (a, h) =
    if_either Rising (hdl == c) rest (c ∷ erase hdl rest) (λ e. h)
      (λ e. (erase-All (λ k. c < k) hdl rest a, erase-Rising hdl rest h))

member-erase :
    (hdl k : ℕ) (cs : List ℕ)
    → Rising cs
    → member hdl (erase k cs) ≡ (if hdl == k then false else member hdl cs)
unfolding erase member
member-erase hdl k [] h = ground arith
member-erase hdl k (c ∷ rest) (a, h) =
    let none_left = above-member c rest a in ground (arith, member-erase hdl k rest h, none_left)

handle_events-Rising :
    (events : List Event) (s : WebSocketServer)
    → Rising s.connections
    → Rising (handle_events events s).connections
unfolding handle_events
handle_events-Rising [] s h = h
handle_events-Rising (opened k ∷ rest) s h =
    handle_events-Rising rest (handle_event (opened k) s) (insert-Rising k s.connections h)
handle_events-Rising (closed k ∷ rest) s h =
    handle_events-Rising rest (handle_event (closed k) s) (erase-Rising k s.connections h)
handle_events-Rising (payload k text ∷ rest) s h = handle_events-Rising rest s h
handle_events-Rising (received fails text ∷ rest) s h =
    handle_events-Rising rest (handle_event (received fails text) s) h
handle_events-Rising (skipped ∷ rest) s h = handle_events-Rising rest s h

member-handle_events :
    (hdl : ℕ) (events : List Event) (s : WebSocketServer)
    → Rising s.connections
    → member hdl (handle_events events s).connections
      ≡ is_open hdl events (member hdl s.connections)
unfolding handle_events is_open
member-handle_events hdl [] s h = refl
member-handle_events hdl (opened k ∷ rest) s h =
    member-handle_events hdl rest (handle_event (opened k) s) (insert-Rising k s.connections h)
    ∙ ap (is_open hdl rest) (member-insert hdl k s.connections)
member-handle_events hdl (closed k ∷ rest) s h =
    member-handle_events hdl rest (handle_event (closed k) s) (erase-Rising k s.connections h)
    ∙ ap (is_open hdl rest) (member-erase hdl k s.connections h)
member-handle_events hdl (payload k text ∷ rest) s h = member-handle_events hdl rest s h
member-handle_events hdl (received fails text ∷ rest) s h =
    member-handle_events hdl rest (handle_event (received fails text) s) h
member-handle_events hdl (skipped ∷ rest) s h = member-handle_events hdl rest s h

send_to_all-map :
    (fails : ℕ → Bool) (text : String) (cs : List ℕ)
    → All (λ c. fails c ≡ false) cs
    → send_to_all fails text cs ≡ map (λ c. (c, text)) cs
unfolding send_to_all
send_to_all-map fails text [] h = refl
send_to_all-map fails text (c ∷ rest) (q, h) =
    rw q (ap (λ l. (c, text) ∷ l) (send_to_all-map fails text rest h))

-- After any events the connections of a new server are those whose last event opened them, each once.
-- If `send` throws for none of them, then a book that is received next goes to each of them once, in
-- their order, and to no other.
pub broadcast_lem :
    (events : List Event) (fails : ℕ → Bool) (text : String)
    → let s = handle_events events new_server in
      All (λ c. fails c ≡ false) s.connections
      → ((handle_event (received fails text) s).sent ≡ s.sent ++ map (λ c. (c, text)) s.connections)
        × Rising s.connections
        × ((hdl : ℕ) → member hdl s.connections ≡ is_open hdl events false)
unfolding member handle_event handle_events
broadcast_lem events fails text h =
    let s = handle_events events new_server in
    (
      ap (λ l. s.sent ++ l) (send_to_all-map fails text s.connections h),
      handle_events-Rising events new_server tt,
      λ hdl. member-handle_events hdl events new_server tt,
    )

-- If `send` throws for a connection, then a book goes to the connections before it, if it throws for
-- none of these, and to none behind it, whether or not they are well.
pub send_to_all_failure :
    (fails : ℕ → Bool) (text : String) (before after : List ℕ) (c : ℕ)
    → All (λ k. fails k ≡ false) before
    → fails c ≡ true
    → send_to_all fails text (before ++ c ∷ after) ≡ map (λ k. (k, text)) before
unfolding send_to_all
send_to_all_failure fails text [] after c h e = rw e refl
send_to_all_failure fails text (k ∷ before) after c (q, h) e =
    rw q (ap (λ l. (k, text) ∷ l) (send_to_all_failure fails text before after c h e))
