-- ===== src/Limiters/Sliding.antt =====
-- The sliding window against a limiter that remembers every request it has ever allowed.
use leetsheet.Prelude.{
  ℕ, ◌+◌, ◌≤◌, ◌≡◌, refl, ◌∙◌, Bool, true, false, List, [], ◌∷◌, ◌++◌, arith, inl, inr, Bool-cases,
  ltb, leb, if◌then◌else◌, length, drop, All, All-append, All-map,
}
use leetsheet.Limiters.{SlidingWindow, new_sliding_window, stale_prefix, allow_sliding}

-- The times that are not before the time `size` before `now`.
pub recent : ℕ → ℕ → List ℕ → List ℕ
recent size now [] = []
recent size now (t ∷ ts) =
    let rest = recent size now ts in if leb now (t + size) then t ∷ rest else rest

-- Allow a request if fewer than `limit` were allowed recently, given all that were allowed before.
pub recall_allow : ℕ → ℕ → List ℕ → ℕ → List ℕ × Bool
unfolding recent
recall_allow limit size grants now =
    if ltb (length (recent size now grants)) limit
    then (grants ++ (now ∷ []), true)
    else (grants, false)

-- What a limiter answers to requests at the given times.
module _ {L : Type 0} (allow : L → ℕ → L × Bool) where
  pub answers : L → List ℕ → List Bool
  answers l [] = []
  answers l (now ∷ times) = let (l', ok) = allow l now in ok ∷ answers l' times

-- The times do not decrease from `now` on.
abbrev pub Ascending : ℕ → List ℕ → Type 0
Ascending now [] = Unit {0}
Ascending now (t ∷ times) = (now ≤ t) × Ascending t times

IsSorted : List ℕ → Type 0
IsSorted [] = Unit {0}
IsSorted (t ∷ ts) = All (λ x. t ≤ x) ts × IsSorted ts

All-recent : (size now : ℕ) (ts : List ℕ) → All (λ t. now ≤ t + size) ts → recent size now ts ≡ ts
unfolding recent
All-recent size now [] h = refl
All-recent size now (t ∷ ts) h = ground (arith, h.0, All-recent size now ts h.1)

drop-stale_prefix :
    (size now : ℕ) (ts : List ℕ)
    → IsSorted ts
    → drop (stale_prefix size now ts) ts ≡ recent size now ts
unfolding recent stale_prefix IsSorted
drop-stale_prefix size now [] v = refl
drop-stale_prefix size now (t ∷ ts) v = elim (Bool-cases (ltb (t + size) now)) [
  | inl old ↦ ground (arith, drop-stale_prefix size now ts v.1)
  | inr fresh ↦
      let rest =
        All-recent size now ts
          (All-map (λ x. t ≤ x) (λ x. now ≤ x + size) ts (λ x h. ground arith) v.0) in
      ground (arith, rest)
]

recent-recent :
    (size last now : ℕ) (ts : List ℕ)
    → last ≤ now
    → recent size now (recent size last ts) ≡ recent size now ts
unfolding recent
recent-recent size last now [] h = refl
recent-recent size last now (t ∷ ts) h = ground (arith, recent-recent size last now ts h)

recent-append :
    (size now : ℕ) (ts us : List ℕ)
    → recent size now (ts ++ us) ≡ recent size now ts ++ recent size now us
unfolding recent
recent-append size now [] us = refl
recent-append size now (t ∷ ts) us = ground (arith, recent-append size now ts us)

recent-All : (P : ℕ → Type 0) (size now : ℕ) (ts : List ℕ) → All P ts → All P (recent size now ts)
unfolding recent
recent-All P size now [] h = tt
recent-All P size now (t ∷ ts) h = elim (Bool-cases (leb now (t + size))) [
  | inl e ↦ rw e (h.0, recent-All P size now ts h.1)
  | inr e ↦ rw e (recent-All P size now ts h.1)
]

recent-IsSorted : (size now : ℕ) (ts : List ℕ) → IsSorted ts → IsSorted (recent size now ts)
unfolding recent IsSorted
recent-IsSorted size now [] v = tt
recent-IsSorted size now (t ∷ ts) v = elim (Bool-cases (leb now (t + size))) [
  | inl e ↦ rw e (recent-All (λ x. t ≤ x) size now ts v.0, recent-IsSorted size now ts v.1)
  | inr e ↦ rw e (recent-IsSorted size now ts v.1)
]

append-IsSorted :
    (now : ℕ) (ts : List ℕ) → All (λ t. t ≤ now) ts → IsSorted ts → IsSorted (ts ++ (now ∷ []))
unfolding IsSorted
append-IsSorted now [] h v = (tt, tt)
append-IsSorted now (t ∷ ts) h v =
    (All-append (λ x. t ≤ x) ts (now ∷ []) v.0 (h.0, tt), append-IsSorted now ts h.1 v.1)

-- The window's log is the recent part of all that was allowed up to the last request.
record Tracks (limit size last : ℕ) (sw : SlidingWindow) (grants : List ℕ) : Type 0 where
  limited : sw.limit ≡ limit
  sized : sw.window_size ≡ size
  log : sw.timestamps ≡ recent size last grants
  sorted : IsSorted grants
  past : All (λ t. t ≤ last) grants

kept-recent :
    (limit size last now : ℕ) (sw : SlidingWindow) (grants : List ℕ)
    → last ≤ now
    → Tracks limit size last sw grants
    → drop (stale_prefix sw.window_size now sw.timestamps) sw.timestamps ≡ recent size now grants
kept-recent limit size last now sw grants h v =
    rw (v.sized, v.log)
      (drop-stale_prefix size now (recent size last grants)
          (recent-IsSorted size last grants v.sorted)
        ∙ recent-recent size last now grants h)

recent-append_now :
    (size now : ℕ) (ts : List ℕ)
    → recent size now ts ++ (now ∷ []) ≡ recent size now (ts ++ (now ∷ []))
unfolding recent
recent-append_now size now ts = ground (arith, recent-append size now ts (now ∷ []))

allow-Tracks :
    (limit size last now : ℕ) (sw : SlidingWindow) (grants : List ℕ)
    → last ≤ now
    → Tracks limit size last sw grants
    → ((allow_sliding sw now).1 ≡ (recall_allow limit size grants now).1)
      × Tracks limit size now (allow_sliding sw now).0 (recall_allow limit size grants now).0
unfolding allow_sliding recall_allow
allow-Tracks limit size last now sw grants h v =
    let past : All (λ t. t ≤ now) grants =
      All-map (λ t. t ≤ last) (λ t. t ≤ now) grants (λ t k. omega arith) v.past in
    elim (Bool-cases (ltb (length (recent size now grants)) limit)) [
      | inl room ↦
          rw (kept-recent limit size last now sw grants h v, v.limited, room)
            (
              refl,
              record {
                limited = refl;
                sized = v.sized;
                log = recent-append_now size now grants;
                sorted = append-IsSorted now grants past v.sorted;
                past = All-append (λ t. t ≤ now) grants (now ∷ []) past (omega arith, tt);
              },
            )
      | inr full ↦
          rw (kept-recent limit size last now sw grants h v, v.limited, full)
            (
              refl,
              record {
                limited = refl;
                sized = v.sized;
                log = refl;
                sorted = v.sorted;
                past = past;
              },
            )
    ]

answers-Tracks :
    (limit size last : ℕ) (sw : SlidingWindow) (grants times : List ℕ)
    → Ascending last times
    → Tracks limit size last sw grants
    → answers allow_sliding sw times ≡ answers (recall_allow limit size) grants times
unfolding answers
answers-Tracks limit size last sw grants [] h v = refl
answers-Tracks limit size last sw grants (now ∷ times) h v =
    let (same, v') = allow-Tracks limit size last now sw grants h.0 v in
    let rest =
      answers-Tracks limit size now (allow_sliding sw now).0 (recall_allow limit size grants now).0
        times h.1 v' in
    rw (same, rest) refl

-- Asked at times that do not decrease, a new sliding window answers each request as a limiter that
-- forgets nothing: yes exactly if fewer than the limit were allowed within the window before it.
pub answers-sliding :
    (limit size start : ℕ) (times : List ℕ)
    → Ascending start times
    → answers allow_sliding (new_sliding_window limit size) times
      ≡ answers (recall_allow limit size) [] times
unfolding new_sliding_window recent IsSorted
answers-sliding limit size start times h =
    answers-Tracks limit size start (new_sliding_window limit size) [] times h
      (record { limited = refl; sized = refl; log = refl; sorted = tt; past = tt })
