-- ===== src/Breaker/Window/History.antt =====
-- A window after a whole history of calls.
use leetsheet.Prelude.{
  ℕ, zero, suc, ◌-◌, ◌≤◌, ◌<◌, ◌≡◌, refl, ap, ◌∙◌, Bool, false, List, [], ◌∷◌, ◌++◌, Option, none,
  some, arith, min, length, drop, length-append, length-replicate,
}
use mathlib.Core.List.{append_assoc, append-nil}
use native.Mathlib.Decide.{dec_lt}
use leetsheet.Breaker.Window.{Window, new_window, record_call, count}
use leetsheet.Breaker.Window.Contents.{
  push, fails, contents, IsValid, length-contents, length-drop, record_call-total, contents-after,
  after, length-ring-after, after-IsValid, new_window-IsValid, contents-new_window,
}

-- `record` called for each outcome of a history.
unfoldable pub record_all : Window → List Bool → Option Window
record_all w [] = some w
record_all w (s ∷ hs) = elim (record_call w s) [ none ↦ none | some w' ↦ record_all w' hs ]

-- The last `n` outcomes of a history.
unfoldable pub last_n : ℕ → List Bool → List Bool
last_n n hs = drop (length hs - n) hs

drop-append : (k : ℕ) (xs ys : List Bool) → k ≤ length xs → drop k (xs ++ ys) ≡ drop k xs ++ ys
drop-append zero xs ys h = refl
drop-append (suc k) [] ys h = absurd (omega arith)
drop-append (suc k) (x ∷ xs) ys h = drop-append k xs ys (omega arith)

drop-suc : (k : ℕ) (xs : List Bool) → drop (suc k) xs ≡ drop 1 (drop k xs)
drop-suc zero xs = refl
drop-suc (suc k) [] = refl
drop-suc (suc k) (x ∷ xs) = drop-suc k xs

-- Pushing one more outcome moves the last `n` along by one.
push-last_n :
    (n : ℕ) (hs : List Bool) (s : Bool) → 0 < n → push n (last_n n hs) s ≡ last_n n (hs ++ (s ∷ []))
unfolding push last_n
push-last_n n hs s h = elim (dec_lt (length hs) n) [
  | yes q ↦
      let none_lost : length hs - n ≡ 0 = omega arith in
      let none_lost' : length (hs ++ (s ∷ [])) - n ≡ 0 =
        omega (arith, length-append {0} hs (s ∷ [])) in
      rw (none_lost, none_lost') (ground arith)
  | no q ↦
      let k : length (hs ++ (s ∷ [])) - n ≡ suc (length hs - n) =
        omega (arith, length-append {0} hs (s ∷ [])) in
      rw
        (
          k,
          drop-append (suc (length hs - n)) hs (s ∷ []) (omega arith),
          drop-suc (length hs - n) hs,
        )
        (ground (arith, length-drop (length hs - n) hs))
]

record Holds (n : ℕ) (hs : List Bool) (w : Window) : Type 0 where
  valid : IsValid w
  size : length w.ring ≡ n
  last : contents w ≡ last_n n hs

record_call-Holds :
    (n : ℕ) (past : List Bool) (w : Window) (s : Bool)
    → 0 < n
    → Holds n past w
    → (w' : Window) × (record_call w s ≡ some w') × Holds n (past ++ (s ∷ [])) w'
record_call-Holds n past w s h v = (
  after w s v.valid,
  record_call-total w s v.valid,
  record {
    valid = after-IsValid w s v.valid;
    size = length-ring-after w s v.valid ∙ v.size;
    last = rw (contents-after w s v.valid, v.size, v.last) (push-last_n n past s h);
  },
)

record_all-Holds :
    (n : ℕ) (past hs : List Bool) (w : Window)
    → 0 < n
    → Holds n past w
    → (w' : Window) × (record_all w hs ≡ some w') × Holds n (past ++ hs) w'
unfolding record_all
record_all-Holds n past [] w h v = (w, refl, rw (append-nil past) v)
record_all-Holds n past (s ∷ hs) w h v =
    let (w', e, v') = record_call-Holds n past w s h v in
    let (w'', e', v'') = record_all-Holds n (past ++ (s ∷ [])) hs w' h v' in
    (w'', rw (e, record_all) e', rw (append_assoc past (s ∷ []) hs) at v'')

length-last_n : (n : ℕ) (hs : List Bool) → length (last_n n hs) ≡ min n (length hs)
unfolding last_n
length-last_n n hs = omega (arith, length-drop (length hs - n) hs)

new_window-Holds : (n : ℕ) → 0 < n → Holds n [] (new_window n)
unfolding new_window last_n
new_window-Holds n h = record {
  valid = new_window-IsValid n h;
  size = length-replicate n false;
  last = let e : 0 - n ≡ 0 = omega arith in rw e (contents-new_window n h);
}

-- However many outcomes are recorded into a new window of positive size n, no index is out of
-- range, the window holds exactly the last n of them in order, `count` is their number, at most n,
-- and `failures` is the number of failures among them.
pub record_all_keeps_last :
    (n : ℕ) (hs : List Bool)
    → 0 < n
    → (w : Window) × (record_all (new_window n) hs ≡ some w)
      × (contents w ≡ last_n n hs)
      × (count w ≡ min n (length hs))
      × (w.failures ≡ fails (last_n n hs))
unfolding count
record_all_keeps_last n hs h =
    let (w, e, v) = record_all-Holds n [] hs (new_window n) h (new_window-Holds n h) in
    (
      w,
      e,
      v.last,
      omega (arith, length-contents v.valid, ap length v.last, length-last_n n hs),
      v.valid.counted ∙ ap fails v.last,
    )
