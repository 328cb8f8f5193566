-- ===== src/Breaker/Machine.antt =====
-- The state machine of the breaker: which transitions its functions make, and the callbacks.
use leetsheet.Prelude.{
  ℕ, ◌≡◌, refl, Bool, true, false, List, [], ◌∷◌, ◌++◌, some, arith, inl, inr, Bool-cases,
  Option-cases, some-eq, ◌&&◌,
}
use leetsheet.Prelude.Int.{leb_ℤ, sub_ℕ}
use mathlib.Core.Path.{subst}
use leetsheet.Prelude.Text.{Bytes}
use leetsheet.Prelude.Float.{Float64}
use leetsheet.Breaker.{
  State, closed, open_state, half_open, state_eq, Config, CircuitBreaker, new, should_trip,
  transition, maybe_advance_to_half_open, admit, before_call, settle, conclude, after_call,
  state_of,
}
use leetsheet.Breaker.Window.{record_call}

-- The arrows of the diagram in the package comment.
pub data Edge : State → State → Type 0 where
  trip : Edge closed open_state
  wait : Edge open_state half_open
  recover : Edge half_open closed
  relapse : Edge half_open open_state

-- The callbacks, oldest first, walk along arrows from one state to another, under one name.
abbrev pub Walk : Bytes → State → List (Bytes × State × State) → State → Type 0
Walk name from [] to = from ≡ to
Walk name from ((who, a, b) ∷ log) to = (who ≡ name) × (from ≡ a) × Edge a b × Walk name b log to

Walk-step :
    (name : Bytes) (from : State) (log : List (Bytes × State × State)) (a b : State)
    → Walk name from log a
    → Edge a b
    → Walk name from (log ++ (name, a, b) ∷ []) b
Walk-step name from [] a b h e = (refl, h, e, refl)
Walk-step name from ((who, c, d) ∷ log) a b h e = (h.0, h.1, h.2, Walk-step name d log a b h.3 e)

Edge-ne : {a b : State} → Edge a b → state_eq a b ≡ false
unfolding state_eq
Edge-ne trip = refl
Edge-ne wait = refl
Edge-ne recover = refl
Edge-ne relapse = refl

state_eq→eq : (a b : State) → state_eq a b ≡ true → a ≡ b
unfolding state_eq
state_eq→eq a b h = ground arith

module _ {float : Float64} where
  -- With a callback set, the callbacks lead from Closed to the current state; without one there are
  -- none.
  pub record IsTraced (cb : CircuitBreaker float) : Type 0 where
    pub walked : cb.cfg.on_state_change ≡ true → Walk cb.name closed cb.fired cb.state
    pub silent : cb.cfg.on_state_change ≡ false → cb.fired ≡ []

  new-IsTraced : (name : Bytes) (c : Config float) → IsTraced (new float name c)
  unfolding new
  new-IsTraced name c = record { walked = λ h. refl; silent = λ h. refl }

  transition-IsTraced :
      (cb : CircuitBreaker float) (s : State) (now : ℕ)
      → Edge cb.state s
      → IsTraced cb
      → IsTraced (transition float cb s now)
  unfolding transition
  transition-IsTraced cb s now e t = rw (Edge-ne e) (record {
    walked = λ h. rw h (Walk-step cb.name closed cb.fired cb.state s (t.walked h) e);
    silent = λ h. rw h (t.silent h);
  })

  -- Fields that the callbacks do not read may change.
  same-IsTraced :
      (cb cb' : CircuitBreaker float)
      → cb'.name ≡ cb.name
      → cb'.cfg ≡ cb.cfg
      → cb'.state ≡ cb.state
      → cb'.fired ≡ cb.fired
      → IsTraced cb
      → IsTraced cb'
  same-IsTraced cb cb' n c s f t = record {
    walked = λ h. rw (n, s, f) (t.walked (rw (← c) h));
    silent = λ h. rw f (t.silent (rw (← c) h));
  }

  advance-IsTraced :
      (cb : CircuitBreaker float) (now : ℕ)
      → IsTraced cb
      → IsTraced (maybe_advance_to_half_open float cb now)
  unfolding maybe_advance_to_half_open
  advance-IsTraced cb now t =
      elim (Bool-cases
        (state_eq cb.state open_state && leb_ℤ cb.cfg.open_timeout (sub_ℕ now cb.opened_at))) [
          | inl h ↦
              let at : cb.state ≡ open_state = state_eq→eq cb.state open_state (ground arith) in
              rw h (transition-IsTraced cb half_open now (rw at wait) t)
          | inr h ↦ rw h t
        ]

  admit-IsTraced :
      (s : State) (cb : CircuitBreaker float) → IsTraced cb → IsTraced (admit float s cb).0
  unfolding admit
  admit-IsTraced closed cb t = t
  admit-IsTraced open_state cb t = t
  admit-IsTraced half_open cb t = ground (arith, t)

  settle-IsTraced :
      (cb : CircuitBreaker float) (now : ℕ)
      → cb.state ≡ closed
      → IsTraced cb
      → IsTraced (settle float cb now)
  unfolding settle
  settle-IsTraced cb now e t = elim (Bool-cases (should_trip float cb)) [
    | inl h ↦ rw (h, settle) (transition-IsTraced cb open_state now (rw e trip) t)
    | inr h ↦ rw (h, settle) t
  ]

  conclude-IsTraced :
      (s : State) (cb cb' : CircuitBreaker float) (success : Bool) (now : ℕ)
      → cb.state ≡ s
      → conclude float s cb success now ≡ some cb'
      → IsTraced cb
      → IsTraced cb'
  unfolding conclude
  conclude-IsTraced closed cb cb' success now e h t =
      elim (Option-cases (record_call cb.win success)) [
        | inl panicked ↦ absurd (ground (arith, panicked))
        | inr (w, written) ↦
            let done : settle float (record cb { win = w }) now ≡ cb' = ground (arith, written) in
            rw (← done) (
              settle-IsTraced (record cb { win = w }) now e
                (same-IsTraced cb _ refl refl refl refl t))
      ]
  conclude-IsTraced open_state cb cb' success now e h t = subst IsTraced (some-eq h) t
  conclude-IsTraced half_open cb cb' true now e h t =
      subst IsTraced (some-eq h)
        (transition-IsTraced _ closed now (rw e recover) (same-IsTraced cb _ refl refl refl refl t))
  conclude-IsTraced half_open cb cb' false now e h t = subst IsTraced (some-eq h) (
      transition-IsTraced _ open_state now (rw e relapse)
        (same-IsTraced cb _ refl refl refl refl t))

  -- One call of a function of breaker.go that may change the state.
  pub data Event (cb cb' : CircuitBreaker float) : Type 0 where
    entered : (now : ℕ) → cb' ≡ (before_call float cb now).0 → Event cb cb'
    left : (success : Bool) (now : ℕ) → after_call float cb success now ≡ some cb' → Event cb cb'
    asked : (now : ℕ) → cb' ≡ (state_of float cb now).0 → Event cb cb'

  -- The breakers that any interleaving of such calls makes of a new one.
  pub data Reach (name : Bytes) (c : Config float) : CircuitBreaker float → Type 0 where
    fresh : Reach name c (new float name c)
    event : {cb cb' : CircuitBreaker float} → Reach name c cb → Event cb cb' → Reach name c cb'

  Event-IsTraced : (cb cb' : CircuitBreaker float) → Event cb cb' → IsTraced cb → IsTraced cb'
  unfolding before_call after_call state_of
  Event-IsTraced cb cb' (entered now e) t =
      rw e (
        admit-IsTraced (maybe_advance_to_half_open float cb now).state _
          (advance-IsTraced cb now t))
  Event-IsTraced cb cb' (left success now e) t =
      conclude-IsTraced cb.state cb cb' success now refl e t
  Event-IsTraced cb cb' (asked now e) t = rw e (advance-IsTraced cb now t)

  -- However callers interleave, a breaker only ever moves along the arrows of the documented
  -- diagram: the callbacks that it has launched, in order, lead along arrows from Closed to its
  -- current state, each with the name that the last breaker has; without a callback there are none.
  pub Reach-IsTraced :
      (name : Bytes) (c : Config float) (cb : CircuitBreaker float) → Reach name c cb → IsTraced cb
  Reach-IsTraced name c cb r = go r
    where
      go : {cb : CircuitBreaker float} → Reach name c cb → IsTraced cb
      go fresh = new-IsTraced name c
      go (event {cb = a} {cb' = b} r e) = Event-IsTraced a b e (go r)
