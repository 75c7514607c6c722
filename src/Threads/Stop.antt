-- ===== src/Threads/Stop.antt =====
-- What may happen in Threads.antt while a call of `stop` lasts, and after it.
use match_engine.Prelude.{
  ℕ, ◌+◌, ◌≤◌, ◌<◌, ◌≡◌, refl, ap, sym, ◌∙◌, subst, Bool, true, false, none, some, List, [], ◌∷◌,
  arith, All, length, length-append, if◌then◌else◌, Option-cases, inl, inr,
}
use match_engine.Threads.{
  Phase, absent, testing, receiving, handling, ended, Threads, Action, call_start, call_stop,
  joined, test, received, missed, done, stop, act, act_all,
}

module _ {M : Type 0} where
  -- No call of `start` and no other call of `stop`.
  abbrev pub IsInner : Action M → Type 0
  IsInner call_start = ⊥
  IsInner call_stop = ⊥
  IsInner joined = Unit
  IsInner test = Unit
  IsInner (received m) = Unit
  IsInner missed = Unit
  IsInner done = Unit

  -- How many actions are left, at most, and how many messages.
  abbrev actions_left : Bool → Phase M → ℕ
  actions_left false absent = 0
  actions_left true absent = 1
  actions_left joining ended = 1
  actions_left joining testing = 2
  actions_left joining (handling m) = 3
  actions_left joining receiving = 4

  abbrev pub messages_left : Phase M → ℕ
  messages_left absent = 0
  messages_left ended = 0
  messages_left testing = 0
  messages_left (handling m) = 1
  messages_left receiving = 1

  at_most_four : (p : Phase M) → actions_left true p ≤ 4
  at_most_four absent = omega arith
  at_most_four ended = omega arith
  at_most_four testing = omega arith
  at_most_four (handling m) = omega arith
  at_most_four receiving = omega arith

  at_most_one : (p : Phase M) → messages_left p ≤ 1
  at_most_one absent = omega arith
  at_most_one ended = omega arith
  at_most_one testing = omega arith
  at_most_one (handling m) = omega arith
  at_most_one receiving = omega arith

  -- A sequence in which a call of `stop` returns, where `recv` gives nothing.
  abbrev pub way_out : Phase M → List (Action M)
  way_out absent = joined ∷ []
  way_out ended = joined ∷ []
  way_out testing = test ∷ joined ∷ []
  way_out (handling m) = done ∷ test ∷ joined ∷ []
  way_out receiving = missed ∷ test ∷ joined ∷ []

  pub way_out-IsInner : (phase : Phase M) → All IsInner (way_out phase)
  way_out-IsInner absent = (tt, tt)
  way_out-IsInner ended = (tt, tt)
  way_out-IsInner testing = (tt, (tt, tt))
  way_out-IsInner (handling m) = (tt, (tt, (tt, tt)))
  way_out-IsInner receiving = (tt, (tt, (tt, tt)))

module _ {S M : Type 0} (handle : M → S → S) where
  -- A call of `stop` that has not returned, or one that has: then there is no thread.
  record IsStopping (t : Threads S M) : Type 0 where
    told : t.running ≡ false
    returned : t.joining ≡ false → t.phase ≡ absent

  record IsNearer (t u : Threads S M) : Type 0 where
    stopping : IsStopping u
    fewer : actions_left u.joining u.phase < actions_left t.joining t.phase
    messages : length u.handled + messages_left u.phase ≤ length t.handled + messages_left t.phase

  reached : (t t' u : Threads S M) → some t' ≡ some u → IsNearer t t' → IsNearer t u
  reached t t' u e n = let same : t' ≡ u = cc in subst (IsNearer t) same n

  act-IsNearer :
      (a : Action M) (state : S) (handled : List M) (running joining : Bool) (phase : Phase M)
      (u : Threads S M)
      → let t : Threads S M = record {
        state = state;
        handled = handled;
        running = running;
        phase = phase;
        joining = joining;
      } in
        IsInner a → IsStopping t → act handle a t ≡ some u → IsNearer t u
  unfolding act
  act-IsNearer joined state handled running true absent u i v e = reached _ _ u e (record {
    stopping = record { told = v.told; returned = λ h. refl };
    fewer = omega arith;
    messages = omega arith;
  })
  act-IsNearer joined state handled running true ended u i v e = reached _ _ u e (record {
    stopping = record { told = v.told; returned = λ h. refl };
    fewer = omega arith;
    messages = omega arith;
  })
  act-IsNearer test state handled running true testing u i v e =
      let t : Threads S M = record {
        state = state;
        handled = handled;
        running = running;
        phase = testing;
        joining = true;
      } in
      let next : Phase M = if running then receiving else ended in
      let leaves : next ≡ ended = rw v.told refl in
      reached t (record t { phase = ended }) u
        (ap (λ p. some (record t { phase = p })) (sym leaves) ∙ e)
        (record {
          stopping = record { told = v.told; returned = λ h. cc };
          fewer = omega arith;
          messages = omega arith;
        })
  act-IsNearer (received m) state handled running true receiving u i v e = reached _ _ u e (record {
    stopping = record { told = v.told; returned = λ h. cc };
    fewer = omega arith;
    messages = omega arith;
  })
  act-IsNearer missed state handled running true receiving u i v e = reached _ _ u e (record {
    stopping = record { told = v.told; returned = λ h. cc };
    fewer = omega arith;
    messages = omega arith;
  })
  act-IsNearer done state handled running true (handling m) u i v e = reached _ _ u e (record {
    stopping = record { told = v.told; returned = λ h. cc };
    fewer = omega arith;
    messages = omega (arith, length-append handled (m ∷ []));
  })
  act-IsNearer _ state handled running false phase u i v e = ground (arith, v.returned refl)
  act-IsNearer _ state handled running true phase u i v e = ground arith

  act_all-IsNearer :
      (actions : List (Action M)) (t u : Threads S M)
      → All IsInner actions
      → IsStopping t
      → act_all handle actions t ≡ some u
      → IsStopping u
        × (length actions + actions_left u.joining u.phase ≤ actions_left t.joining t.phase)
        × (length u.handled + messages_left u.phase ≤ length t.handled + messages_left t.phase)
  unfolding act_all
  act_all-IsNearer [] t u i v e =
      let same : t ≡ u = cc in
      subst
        (λ (w : Threads S M).
          IsStopping w
          × (0 + actions_left w.joining w.phase ≤ actions_left t.joining t.phase)
          × (length w.handled + messages_left w.phase ≤ length t.handled + messages_left t.phase))
        same (v, omega arith, omega arith)
  act_all-IsNearer (a ∷ rest) t u (i, is) v e = elim (Option-cases (act handle a t)) [
    | inl none_next ↦
        let stuck : act_all handle (a ∷ rest) t ≡ none = rw (act_all, none_next) refl in cc
    | inr (w, next) ↦
        let n = act-IsNearer a t.state t.handled t.running t.joining t.phase w i v next in
        let onward : act_all handle (a ∷ rest) t ≡ act_all handle rest w =
          rw (act_all, next) refl in
        let (v', few, sent) = act_all-IsNearer rest w u is n.stopping (sym onward ∙ e) in
        (v', omega (arith, n.fewer, few), omega (arith, n.messages, sent))
  ]

  stop-IsStopping : (t : Threads S M) → IsStopping (stop t)
  unfolding stop
  stop-IsStopping t = record { told = refl; returned = λ h. cc }

  stop-left :
      (t : Threads S M)
      → (actions_left (stop t).joining (stop t).phase ≤ 4)
        × (length (stop t).handled + messages_left (stop t).phase ≤ length t.handled + 1)
  unfolding stop
  stop-left t = (at_most_four t.phase, omega (arith, at_most_one t.phase))

  way_out-returns :
      (phase : Phase M) (state : S) (handled : List M)
      → let s : Threads S M = record {
        state = state;
        handled = handled;
        running = false;
        phase = phase;
        joining = true;
      } in
        (w : Threads S M) × (act_all handle (way_out phase) s ≡ some w) × (w.joining ≡ false)
  unfolding act_all act
  way_out-returns absent state handled = (_, refl, refl)
  way_out-returns ended state handled = (_, refl, refl)
  way_out-returns testing state handled = (_, refl, refl)
  way_out-returns (handling m) state handled = (_, refl, refl)
  way_out-returns receiving state handled = (_, refl, refl)

  -- From a call of `stop` until its return, whatever the thread is at, where each test of `running` reads
  -- what was written last: there are at most four actions, at most one message is handled, and when it has
  -- returned there is no thread. It can return.
  pub stop_bounds :
      (t u : Threads S M) (actions : List (Action M))
      → All IsInner actions
      → act_all handle actions (stop t) ≡ some u
      → (length actions ≤ 4)
        × (length u.handled ≤ length t.handled + 1)
        × (u.joining ≡ false → u.phase ≡ absent)
        × (w : Threads S M) × (act_all handle (way_out t.phase) (stop t) ≡ some w)
        × (w.joining ≡ false)
  unfolding stop
  stop_bounds t u actions i e =
      let (v, few, sent) = act_all-IsNearer actions (stop t) u i (stop-IsStopping t) e in
      let (four, one) = stop-left t in
      let (w, go, over) = way_out-returns t.phase t.state t.handled in
      (omega (arith, few, four), omega (arith, sent, one), v.returned, w, go, over)
