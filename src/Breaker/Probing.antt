-- ===== src/Breaker/Probing.antt =====
-- How the functions of breaker.go change the flag `probing`.
use leetsheet.Prelude.{ℕ, ◌≡◌, refl, Bool, true, false, none, some, arith, inl, inr, Option-cases}
use leetsheet.Prelude.Float.{Float64}
use leetsheet.Breaker.{
  State, closed, open_state, half_open, circuit_open, CircuitBreaker, maybe_advance_to_half_open,
  admit, settle, conclude, after_call,
}
use leetsheet.Breaker.Window.{record_call}
use leetsheet.Breaker.Invariant.{IsValid}

module _ (float : Float64) where
  -- How `probing` changes, by what beforeCall answers.
  pub admit-refused :
      (st : State) (cb cb' : CircuitBreaker float)
      → admit float st cb ≡ (cb', some circuit_open)
      → cb'.probing ≡ cb.probing
  unfolding admit
  admit-refused closed cb cb' h = cc
  admit-refused open_state cb cb' h = cc
  admit-refused half_open cb cb' h = ground arith

  pub admit-plain :
      (st : State) (cb cb' : CircuitBreaker float)
      → cb.state ≡ st
      → admit float st cb ≡ (cb', none)
      → cb'.state ≡ closed
      → cb'.probing ≡ cb.probing
  unfolding admit
  admit-plain closed cb cb' e h c = cc
  admit-plain open_state cb cb' e h c = cc
  admit-plain half_open cb cb' e h c = ground arith

  pub admit-probe :
      (st : State) (cb cb' : CircuitBreaker float)
      → cb.state ≡ st
      → admit float st cb ≡ (cb', none)
      → cb'.state ≡ half_open
      → (cb.probing ≡ false) × (cb'.probing ≡ true)
  unfolding admit
  admit-probe closed cb cb' e h c = ground arith
  admit-probe open_state cb cb' e h c = ground arith
  admit-probe half_open cb cb' e h c = ground arith

  pub probing-advance :
      (cb : CircuitBreaker float) (now : ℕ)
      → (maybe_advance_to_half_open float cb now).probing ≡ cb.probing
  unfolding maybe_advance_to_half_open
  probing-advance cb now = ground arith

  probing-settle :
      (cb : CircuitBreaker float) (now : ℕ) → (settle float cb now).probing ≡ cb.probing
  unfolding settle
  probing-settle cb now = ground arith

  conclude-probing :
      (st : State) (cb cb' : CircuitBreaker float) (success : Bool) (now : ℕ)
      → cb.state ≡ st
      → IsValid cb
      → conclude float st cb success now ≡ some cb'
      → cb'.probing ≡ false
  unfolding conclude
  conclude-probing closed cb cb' success now e v h =
      elim (Option-cases (record_call cb.win success)) [
        | inl panicked ↦ absurd (ground (arith, panicked))
        | inr (w, written) ↦ ground (arith, written, v, probing-settle (record cb { win = w }) now)
      ]
  conclude-probing open_state cb cb' success now e v h = ground (arith, v)
  conclude-probing half_open cb cb' success now e v h = ground arith

  pub probing-after :
      (cb cb' : CircuitBreaker float) (success : Bool) (now : ℕ)
      → IsValid cb
      → after_call float cb success now ≡ some cb'
      → cb'.probing ≡ false
  unfolding after_call
  probing-after cb cb' success now v h = conclude-probing cb.state cb cb' success now refl v h
