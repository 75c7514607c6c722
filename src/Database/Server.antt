-- ===== src/Database/Server.antt =====
-- A concrete MySQL client whose server takes a number of connections, with the laws of
-- Database/Handles.antt, and the theorems of that file on it.
use match_engine.Prelude.{
  ℕ, zero, suc, ◌+◌, ◌<◌, ◌≡◌, ◌≢◌, refl, Bool, true, false, none, some, List, [], ◌∷◌, ◌==◌,
  if◌then◌else◌, arith,
}
use match_engine.Prelude.Result.{std_error}
use match_engine.Database.Scenario.{config}
use match_engine.Database.Connection.{Pointer, Mysql, new_connection}
use match_engine.Database.Pool.{fill_pool, new_pool}
use match_engine.Database.Handles.{IsClient, new_pool_leak}

record Server : Type 0 where
  opened : List ℕ
  room : ℕ

abbrev member : ℕ → List ℕ → Bool
member h [] = false
member h (n ∷ rest) = let later = member h rest in if n == h then true else later

abbrev without : ℕ → List ℕ → List ℕ
without h [] = []
without h (n ∷ rest) = let later = without h rest in if n == h then later else n ∷ later

-- A handle behind all others.
abbrev next : List ℕ → ℕ
next [] = 1
next (n ∷ rest) = n + next rest

abbrev connecting : ℕ → (room : ℕ) → List ℕ → Bool × Server
connecting h zero opened = (true, record { opened = opened; room = zero })
connecting h (suc room) opened = (false, record { opened = h ∷ opened; room = room })

abbrev closing : Pointer → Server → Server
closing none s = s
closing (some h) s = record s { opened = without h s.opened }

instance abbrev small : Mysql Server
small = record {
  init = λ s. (some (next s.opened), s);
  real_connect = λ handle host user password database port s. connecting handle s.room s.opened;
  close = closing;
  query = λ p text s. (false, s);
  is_lost = λ p s. false;
  store_result = λ p s. none;
}

next-pos : (l : List ℕ) → 0 < next l
next-pos [] = omega arith
next-pos (n ∷ rest) = omega (arith, next-pos rest)

member-next : (h : ℕ) (l : List ℕ) → member h l ≡ true → h < next l
member-next h [] e = cc
member-next h (n ∷ rest) e = ground (arith, next-pos rest, member-next h rest)

member-without : (h : ℕ) (l : List ℕ) → member h (without h l) ≡ false
member-without h [] = refl
member-without h (n ∷ rest) = ground (arith, member-without h rest)

member-without_other : (h h' : ℕ) (l : List ℕ) → h' ≢ h → member h (without h' l) ≡ member h l
member-without_other h h' [] other = refl
member-without_other h h' (n ∷ rest) other = ground (arith, member-without_other h h' rest other)

connecting-opens :
    (h room : ℕ) (opened : List ℕ)
    → (connecting h room opened).0 ≡ false
    → member h (connecting h room opened).1.opened ≡ true
connecting-opens h zero opened e = cc
connecting-opens h (suc room) opened e = ground arith

connecting-keeps :
    (h h' room : ℕ) (opened : List ℕ)
    → member h opened ≡ true
    → member h (connecting h' room opened).1.opened ≡ true
connecting-keeps h h' zero opened e = e
connecting-keeps h h' (suc room) opened e = ground arith

not_next :
    (h h' : ℕ) (opened : List ℕ) → member h opened ≡ true → some (next opened) ≡ some h' → h' ≢ h
not_next h h' opened o e =
    let made : next opened ≡ h' = cc in
    let after = member-next h opened o in λ same. omega (arith, made, same, after)

small-IsClient : IsClient Server
small-IsClient = record {
  is_open = λ h s. member h s.opened;
  init_other = λ h h' s o e. not_next h h' s.opened o e;
  init_keeps = λ h s. refl;
  connect_opens = λ h host user password database port s e. connecting-opens h s.room s.opened e;
  connect_keeps =
      λ h h' host user password database port s o. connecting-keeps h h' s.room s.opened o;
  close_closes = λ h s. member-without h s.opened;
  close_keeps = λ h h' s other. member-without_other h h' s.opened other;
}

-- The server takes two connections, and the pool wants three.
abbrev two_rooms : Server
two_rooms = record { opened = []; room = 2 }

new_pool_leak_example : small-IsClient.is_open 1 (new_pool config 3 two_rooms).1 ≡ true
unfolding new_connection new_pool fill_pool
new_pool_leak_example =
    new_pool_leak small-IsClient config 3 1 two_rooms
      (std_error "Failed to create database connection") refl refl
