-- ===== src/Threads/Serving.antt =====
-- The thread of Threads.antt while nothing calls `stop`.
use match_engine.Prelude.{
  ◌≡◌, refl, subst, sym, ◌∙◌, Bool, true, false, none, some, List, [], ◌∷◌, arith, All,
  Option-cases, inl, inr,
}
use match_engine.Threads.{
  Phase, absent, testing, receiving, handling, ended, Threads, Action, call_start, joined, test,
  received, missed, done, act, act_all, new_threads, start,
}
use match_engine.Threads.Stop.{IsInner}

module _ {M : Type 0} where
  -- In its loop.
  abbrev pub IsLooping : Phase M → Type 0
  IsLooping absent = ⊥
  IsLooping testing = Unit
  IsLooping receiving = Unit
  IsLooping (handling m) = Unit
  IsLooping ended = ⊥

module _ {S M : Type 0} (handle : M → S → S) where
  pub record IsServing (t : Threads S M) : Type 0 where
    pub runs : t.running ≡ true
    pub waited : t.joining ≡ false
    pub looping : IsLooping t.phase

  act-IsServing :
      (a : Action M) (state : S) (handled : List M) (running joining : Bool) (phase : Phase M)
      (u : Threads S M)
      → let t : Threads S M = record {
        state = state;
        handled = handled;
        running = running;
        phase = phase;
        joining = joining;
      } in
        IsInner a → IsServing t → act handle a t ≡ some u → IsServing u
  unfolding act
  act-IsServing joined state handled running joining phase u i v e = ground (arith, v.waited)
  act-IsServing test state handled running joining testing u i v e =
      ground (arith, v.runs, v.waited)
  act-IsServing (received m) state handled running joining receiving u i v e =
      ground (arith, v.runs, v.waited)
  act-IsServing missed state handled running joining receiving u i v e =
      ground (arith, v.runs, v.waited)
  act-IsServing done state handled running joining (handling m) u i v e =
      ground (arith, v.runs, v.waited)
  act-IsServing _ state handled running joining phase u i v e = ground arith

  reached : (t u : Threads S M) → some t ≡ some u → IsServing t → IsServing u
  reached t u e v = let same : t ≡ u = cc in subst IsServing same v

  -- However the two threads interleave.
  pub act_all-IsServing :
      (actions : List (Action M)) (t u : Threads S M)
      → All IsInner actions
      → IsServing t
      → act_all handle actions t ≡ some u
      → IsServing u
  unfolding act_all
  act_all-IsServing [] t u i v e = reached t u e v
  act_all-IsServing (a ∷ rest) t u (i, is) v e = elim (Option-cases (act handle a t)) [
    | inl none_next ↦
        let stuck : act_all handle (a ∷ rest) t ≡ none = rw (act_all, none_next) refl in cc
    | inr (w, next) ↦
        let served = act-IsServing a t.state t.handled t.running t.joining t.phase w i v next in
        let onward : act_all handle (a ∷ rest) t ≡ act_all handle rest w =
          rw (act_all, next) refl in
        act_all-IsServing rest w u is served (sym onward ∙ e)
  ]

  pub started-IsServing :
      (state : S) (actions : List (Action M)) (u : Threads S M)
      → All IsInner actions
      → act_all handle (call_start ∷ actions) (new_threads state) ≡ some u
      → IsServing u
  unfolding act_all act start
  started-IsServing state actions u i e =
      act_all-IsServing actions (record (new_threads state) { running = true; phase = testing }) u i
        (record { runs = refl; waited = refl; looping = tt }) e
