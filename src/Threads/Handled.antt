-- ===== src/Threads/Handled.antt =====
-- The messages that the thread of Threads.antt receives, and those that it handles.
use mathlib.Core.List.{append_assoc, append-nil}
use match_engine.Prelude.{
  ◌≡◌, refl, ap, sym, ◌∙◌, subst, Bool, true, false, some, none, List, [], ◌∷◌, ◌++◌, Option-cases,
  inl, inr,
}
use match_engine.Threads.{
  Phase, absent, testing, receiving, handling, ended, Threads, Action, call_start, call_stop,
  joined, test, received, missed, done, start, stop, join, loop_test, loop_receive, loop_handle,
  act, act_all, new_threads,
}

module _ {M : Type 0} where
  abbrev pub messages_of : List (Action M) → List M
  messages_of [] = []
  messages_of (received m ∷ rest) = m ∷ messages_of rest
  messages_of (call_start ∷ rest) = messages_of rest
  messages_of (call_stop ∷ rest) = messages_of rest
  messages_of (joined ∷ rest) = messages_of rest
  messages_of (test ∷ rest) = messages_of rest
  messages_of (missed ∷ rest) = messages_of rest
  messages_of (done ∷ rest) = messages_of rest

  -- The message in hand.
  abbrev pub in_hand : Phase M → List M
  in_hand absent = []
  in_hand testing = []
  in_hand receiving = []
  in_hand (handling m) = m ∷ []
  in_hand ended = []

module _ {S M : Type 0} (handle : M → S → S) where
  abbrev pub handle_all : List M → S → S
  handle_all [] s = s
  handle_all (m ∷ rest) s = handle_all rest (handle m s)

  -- From `t` to `u`, where `arrived` are the messages received in between.
  pub record IsHandled (arrived : List M) (t u : Threads S M) : Type 0 where
    pub more : List M
    pub in_order : u.handled ≡ t.handled ++ more
    pub effect : u.state ≡ handle_all more t.state
    pub none_lost : in_hand t.phase ++ arrived ≡ more ++ in_hand u.phase

  reached :
      (arrived : List M) (t t' u : Threads S M)
      → some t' ≡ some u
      → IsHandled arrived t t'
      → IsHandled arrived t u
  reached arrived t t' u e h = let same : t' ≡ u = cc in subst (IsHandled arrived t) same h

  quiet :
      (t : Threads S M) (running joining : Bool) (phase : Phase M) (u : Threads S M)
      → in_hand t.phase ≡ in_hand phase
      → some (record t { running = running; joining = joining; phase = phase }) ≡ some u
      → IsHandled [] t u
  quiet t running joining phase u same e = reached [] t _ u e (record {
    more = [];
    in_order = sym (append-nil t.handled);
    effect = refl;
    none_lost = append-nil (in_hand t.phase) ∙ same;
  })

  act-IsHandled :
      (a : Action M) (state : S) (handled : List M) (running joining : Bool) (phase : Phase M)
      (u : Threads S M)
      → let t : Threads S M = record {
        state = state;
        handled = handled;
        running = running;
        phase = phase;
        joining = joining;
      } in
        act handle a t ≡ some u → IsHandled (messages_of (a ∷ [])) t u
  unfolding act start stop join loop_test loop_receive loop_handle
  act-IsHandled call_start state handled running false absent u e =
      quiet _ true false testing u refl e
  act-IsHandled call_stop state handled running false phase u e = quiet _ false true phase u refl e
  act-IsHandled joined state handled running true absent u e = quiet _ running false absent u refl e
  act-IsHandled joined state handled running true ended u e = quiet _ running false absent u refl e
  act-IsHandled test state handled true joining testing u e =
      quiet _ true joining receiving u refl e
  act-IsHandled test state handled false joining testing u e = quiet _ false joining ended u refl e
  act-IsHandled missed state handled running joining receiving u e =
      quiet _ running joining testing u refl e
  act-IsHandled (received m) state handled running joining receiving u e =
      reached (m ∷ []) _ _ u e
        (record { more = []; in_order = sym (append-nil handled); effect = refl; none_lost = refl })
  act-IsHandled done state handled running joining (handling m) u e =
      reached [] _ _ u e
        (record { more = m ∷ []; in_order = refl; effect = refl; none_lost = refl })
  act-IsHandled _ state handled running joining phase u e = cc

  handle_all-append : (a b : List M) (s : S) → handle_all (a ++ b) s ≡ handle_all b (handle_all a s)
  handle_all-append [] b s = refl
  handle_all-append (m ∷ a) b s = handle_all-append a b (handle m s)

  IsHandled-compose :
      (first later : List M) (t w u : Threads S M)
      → IsHandled first t w
      → IsHandled later w u
      → IsHandled (first ++ later) t u
  IsHandled-compose first later t w u f s = record {
    more = f.more ++ s.more;
    in_order = s.in_order ∙ ap (λ l. l ++ s.more) f.in_order ∙ append_assoc t.handled f.more s.more;
    effect =
        s.effect ∙ ap (handle_all s.more) f.effect ∙ sym (handle_all-append f.more s.more t.state);
    none_lost =
        sym (append_assoc (in_hand t.phase) first later)
        ∙ ap (λ l. l ++ later) f.none_lost
        ∙ append_assoc f.more (in_hand w.phase) later
        ∙ ap (λ l. f.more ++ l) s.none_lost
        ∙ sym (append_assoc f.more s.more (in_hand u.phase));
  }

  messages_of-cons :
      (a : Action M) (rest : List (Action M))
      → messages_of (a ∷ rest) ≡ messages_of (a ∷ []) ++ messages_of rest
  messages_of-cons call_start rest = refl
  messages_of-cons call_stop rest = refl
  messages_of-cons joined rest = refl
  messages_of-cons test rest = refl
  messages_of-cons (received m) rest = refl
  messages_of-cons missed rest = refl
  messages_of-cons done rest = refl

  act_all-IsHandled :
      (actions : List (Action M)) (t u : Threads S M)
      → act_all handle actions t ≡ some u
      → IsHandled (messages_of actions) t u
  unfolding act_all
  act_all-IsHandled [] t u e = quiet t t.running t.joining t.phase u refl e
  act_all-IsHandled (a ∷ rest) t u e = elim (Option-cases (act handle a t)) [
    | inl none_next ↦
        let stuck : act_all handle (a ∷ rest) t ≡ none = rw (act_all, none_next) refl in cc
    | inr (w, next) ↦
        let onward : act_all handle (a ∷ rest) t ≡ act_all handle rest w =
          rw (act_all, next) refl in
        let first = act-IsHandled a t.state t.handled t.running t.joining t.phase w next in
        let later = act_all-IsHandled rest w u (sym onward ∙ e) in
        subst (λ l. IsHandled l t u) (sym (messages_of-cons a rest))
          (IsHandled-compose (messages_of (a ∷ [])) (messages_of rest) t w u first later)
  ]

  -- However the thread and the calls of start and stop interleave, also over several starts: the messages
  -- received are those handled, in their order, and the one in hand if there is one; none is lost and none
  -- is handled twice. The state is what handling these messages one after the other makes of the first.
  pub act_all-handled :
      (state : S) (actions : List (Action M)) (u : Threads S M)
      → act_all handle actions (new_threads state) ≡ some u
      → (messages_of actions ≡ u.handled ++ in_hand u.phase)
        × (u.state ≡ handle_all u.handled state)
  act_all-handled state actions u e =
      let h = act_all-IsHandled actions (new_threads state) u e in
      (
        h.none_lost ∙ ap (λ l. l ++ in_hand u.phase) (sym h.in_order),
        h.effect ∙ ap (λ l. handle_all l state) (sym h.in_order),
      )
