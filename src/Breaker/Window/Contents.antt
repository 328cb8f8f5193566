-- ===== src/Breaker/Window/Contents.antt =====
-- The outcomes that a window holds, oldest first, and what each operation does to them.
use leetsheet.Prelude.{
  ℕ, zero, suc, ◌+◌, ◌-◌, ◌%◌, ◌≤◌, ◌<◌, ◌≡◌, refl, sym, ap, ◌∙◌, Bool, true, false, List, [], ◌∷◌,
  ◌++◌, some, arith, ◌==◌, if◌then◌else◌, ==_iff, length, get_or, set, take, drop, length-append,
  length-set, length-replicate, length-take, get_elem?-eq-get_or,
}
use mathlib.Core.List.{append-nil, append_assoc}
use native.Mathlib.Decide.{ℕ_discrete, dec_lt}
use native.Mathlib.Nat.{mod-eq_of_lt, mod-lt, mod_self}
use native.Mathlib.Numerals.{add-one}
use leetsheet.Breaker.Window.{Window, new_window, overwrite, record_call, reset}

-- A bounded history: at most `n` outcomes, the oldest dropped first.
unfoldable pub push : ℕ → List Bool → Bool → List Bool
push n c s = if length c == n then drop 1 c ++ (s ∷ []) else c ++ (s ∷ [])

unfoldable pub fails : List Bool → ℕ
fails [] = 0
fails (true ∷ c) = fails c
fails (false ∷ c) = fails c + 1

-- A full ring from its oldest entry on.
abbrev rotated : List Bool → ℕ → List Bool
rotated r h = drop h r ++ take h r

unfoldable pub contents : Window → List Bool
contents w = if w.total == length w.ring then rotated w.ring w.head else take w.total w.ring

pub record IsValid (w : Window) : Type 0 where
  pub room : w.head < length w.ring
  pub bounded : w.total ≤ length w.ring
  pub filling : w.total < length w.ring → w.head ≡ w.total
  pub counted : w.failures ≡ fails (contents w)

pub fails-append : (c d : List Bool) → fails (c ++ d) ≡ fails c + fails d
unfolding fails
fails-append [] d = omega arith
fails-append (true ∷ c) d = omega (arith, fails-append c d)
fails-append (false ∷ c) d = omega (arith, fails-append c d)

drop-set : (h : ℕ) (r : List Bool) (s : Bool) → drop (suc h) (set r h s) ≡ drop (suc h) r
drop-set h [] s = refl
drop-set zero (x ∷ r) s = refl
drop-set (suc h) (x ∷ r) s = drop-set h r s

take-set :
    (h : ℕ) (r : List Bool) (s : Bool)
    → h < length r
    → take (suc h) (set r h s) ≡ take h r ++ (s ∷ [])
take-set h [] s p = absurd (omega arith)
take-set zero (x ∷ r) s p = refl
take-set (suc h) (x ∷ r) s p = ap (◌∷◌ x) (take-set h r s (omega arith))

drop-get_or : (h : ℕ) (r : List Bool) → h < length r → drop h r ≡ get_or r h false ∷ drop (suc h) r
drop-get_or h [] p = absurd (omega arith)
drop-get_or zero (x ∷ r) p = refl
drop-get_or (suc h) (x ∷ r) p = drop-get_or h r (omega arith)

pub take_all : (n : ℕ) (r : List Bool) → length r ≡ n → take n r ≡ r
take_all zero [] p = refl
take_all zero (x ∷ r) p = absurd (omega arith)
take_all (suc n) [] p = refl
take_all (suc n) (x ∷ r) p = ap (◌∷◌ x) (take_all n r (omega arith))

pub drop_all : (n : ℕ) (r : List Bool) → length r ≡ n → drop n r ≡ []
drop_all zero [] p = refl
drop_all zero (x ∷ r) p = absurd (omega arith)
drop_all (suc n) [] p = refl
drop_all (suc n) (x ∷ r) p = drop_all n r (omega arith)

pub length-drop : (n : ℕ) (r : List Bool) → length (drop n r) ≡ length r - n
length-drop zero r = omega arith
length-drop (suc n) [] = omega arith
length-drop (suc n) (x ∷ r) = omega (arith, length-drop n r)

contents_full : (w : Window) → w.total ≡ length w.ring → contents w ≡ rotated w.ring w.head
unfolding contents
contents_full w e = rw ((==_iff w.total (length w.ring)).1 e)

contents_filling : (w : Window) → w.total < length w.ring → contents w ≡ take w.total w.ring
unfolding contents
contents_filling w h = ground arith

-- The contents have `total` entries.
pub length-contents : {w : Window} → IsValid w → length (contents w) ≡ w.total
length-contents {w} v = elim (ℕ_discrete w.total (length w.ring)) [
  | yes e ↦ rw (contents_full w e) (
      omega (
        arith,
        length-append {0} (drop w.head w.ring) (take w.head w.ring),
        length-drop w.head w.ring,
        length-take {0} w.head w.ring,
        v.room,
      ))
  | no ne ↦
      rw (contents_filling w (omega (arith, v.bounded)))
        (omega (arith, length-take {0} w.total w.ring, v.bounded))
]

-- A write at `h` followed by the step of `head` drops the oldest entry and appends the new one.
rotated-set :
    (r : List Bool) (h : ℕ) (s : Bool)
    → h < length r
    → rotated (set r h s) ((h + 1) % length r) ≡ drop (suc h) r ++ (take h r ++ (s ∷ []))
rotated-set r h s p = elim (dec_lt (suc h) (length r)) [
  | yes q ↦
      let e : (h + 1) % length r ≡ suc h =
        mod-eq_of_lt {n = h + 1} {m = length r} (omega arith) ∙ omega arith in
      rw (e, drop-set h r s, take-set h r s p)
  | no q ↦
      let last : length r ≡ suc h = omega arith in
      let e : (h + 1) % length r ≡ 0 = rw (last, add-one h) (mod_self (suc h)) in
      let whole : take (suc h) (set r h s) ≡ set r h s =
        take_all (suc h) (set r h s) (length-set r h s ∙ last) in
      rw (e, append-nil (set r h s), drop_all (suc h) r last) (sym whole ∙ take-set h r s p)
]

module _ (w : Window) (success : Bool) (v : IsValid w) where
  abbrev pub after : Window
  after = overwrite w (get_or w.ring w.head false) success

  -- The slot that `record` reads and writes lies inside the ring.
  pub record_call-total : record_call w success ≡ some after
  unfolding record_call
  record_call-total = rw (get_elem?-eq-get_or w.ring w.head false v.room, record_call)

  total_full : w.total ≡ length w.ring → after.total ≡ w.total
  unfolding overwrite
  total_full e = ground arith

  total_filling : w.total < length w.ring → after.total ≡ w.total + 1
  unfolding overwrite
  total_filling h = ground arith

  pub length-ring-after : length after.ring ≡ length w.ring
  unfolding overwrite
  length-ring-after = length-set w.ring w.head success

  rotated-after :
      rotated after.ring after.head
      ≡ drop (suc w.head) w.ring ++ (take w.head w.ring ++ (success ∷ []))
  unfolding overwrite
  rotated-after = rotated-set w.ring w.head success v.room

  pub contents_when_full :
      w.total ≡ length w.ring → contents after ≡ drop 1 (contents w) ++ (success ∷ [])
  contents_when_full e =
      let e' : after.total ≡ length after.ring = omega (arith, total_full e, length-ring-after) in
      rw
        (contents_full after e', contents_full w e, rotated-after, drop-get_or w.head w.ring v.room)
        (sym (append_assoc (drop (suc w.head) w.ring) (take w.head w.ring) (success ∷ [])))

  take-after :
      w.head ≡ w.total → take (suc w.head) after.ring ≡ take w.total w.ring ++ (success ∷ [])
  unfolding overwrite
  take-after e = take-set w.head w.ring success v.room ∙ ap (λ n. take n w.ring ++ (success ∷ [])) e

  -- While the ring fills up `head` equals `total`.
  pub contents_when_filling :
      w.total < length w.ring → contents after ≡ contents w ++ (success ∷ [])
  contents_when_filling h =
      let at : w.head ≡ w.total = v.filling h in
      let grown = total_filling h in
      elim (dec_lt (suc w.total) (length w.ring)) [
        | yes q ↦
            let n : after.total ≡ suc w.head = omega (arith, total_filling h) in
            rw
              (
                contents_filling after (omega (arith, total_filling h, length-ring-after)),
                contents_filling w h,
              )
              (ap (λ n. take n after.ring) n ∙ take-after at)
        | no q ↦
            let last : length w.ring ≡ suc w.head = omega arith in
            rw
              (
                contents_full after (omega (arith, total_filling h, length-ring-after)),
                contents_filling w h,
                rotated-after,
                drop_all (suc w.head) w.ring last,
              )
              (ap (λ n. take n w.ring ++ (success ∷ [])) at)
      ]

  -- `record` appends the outcome, and drops the oldest one once the ring is full.
  pub contents-after : contents after ≡ push (length w.ring) (contents w) success
  unfolding push
  contents-after = elim (ℕ_discrete w.total (length w.ring)) [
    | yes e ↦ ground (arith, length-contents v, contents_when_full e)
    | no ne ↦
        ground
          (arith, length-contents v, contents_when_filling (omega (arith, v.bounded)), v.bounded)
  ]

  abbrev oldest : Bool
  oldest = get_or w.ring w.head false

  contents_from_oldest :
      w.total ≡ length w.ring
      → contents w ≡ oldest ∷ (drop (suc w.head) w.ring ++ take w.head w.ring)
  contents_from_oldest e = rw (contents_full w e, drop-get_or w.head w.ring v.room)

  -- The failure that `failures--` takes away was counted.
  pub evicted_was_counted : w.total ≡ length w.ring → oldest ≡ false → 0 < w.failures
  unfolding fails
  evicted_was_counted e old = omega (
    arith,
    v.counted,
    ap fails (
        contents_from_oldest e
        ∙ ap (λ b. b ∷ (drop (suc w.head) w.ring ++ take w.head w.ring)) old),
  )

  counted_when_full : w.total ≡ length w.ring → after.failures ≡ fails (contents after)
  unfolding overwrite fails
  counted_when_full e =
      let rest = drop (suc w.head) w.ring ++ take w.head w.ring in
      rw (contents_when_full e, contents_from_oldest e, fails-append rest (success ∷ []))
        (ground (arith, v.counted, contents_from_oldest e))

  counted_when_filling : w.total < length w.ring → after.failures ≡ fails (contents after)
  unfolding overwrite fails
  counted_when_filling h =
      rw (contents_when_filling h, fails-append (contents w) (success ∷ []))
        (ground (arith, v.counted))

  head-after : after.head ≡ (w.head + 1) % length w.ring
  unfolding overwrite
  head-after = refl

  filling-after : after.total < length after.ring → after.head ≡ after.total
  filling-after h = elim (ℕ_discrete w.total (length w.ring)) [
    | yes e ↦ absurd (omega (arith, total_full e, length-ring-after))
    | no ne ↦
        let below : w.total < length w.ring = omega (arith, v.bounded) in
        let small : w.head + 1 < length w.ring =
          omega (arith, total_filling below, length-ring-after, v.filling below) in
        omega (arith, head-after, mod-eq_of_lt small, total_filling below, v.filling below)
  ]

  -- `record` keeps the invariant: `failures` is the number of failures that the window holds.
  pub after-IsValid : IsValid after
  after-IsValid = elim (ℕ_discrete w.total (length w.ring)) [
    | yes e ↦ record {
      room = room-after;
      bounded = omega (arith, total_full e, length-ring-after);
      filling = filling-after;
      counted = counted_when_full e;
    }
    | no ne ↦
        let below : w.total < length w.ring = omega (arith, v.bounded) in
        record {
          room = room-after;
          bounded = omega (arith, total_filling below, length-ring-after);
          filling = filling-after;
          counted = counted_when_filling below;
        }
  ]
    where
      room-after : after.head < length after.ring
      room-after = omega (
        arith,
        head-after,
        length-ring-after,
        mod-lt (w.head + 1) {m = length w.ring} (omega (arith, v.room)),
      )

pub contents-new_window : (n : ℕ) → 0 < n → contents (new_window n) ≡ []
unfolding new_window contents
contents-new_window n h = ground (arith, length-replicate n false)

pub new_window-IsValid : (n : ℕ) → 0 < n → IsValid (new_window n)
unfolding new_window fails
new_window-IsValid n h = record {
  room = omega (arith, length-replicate n false);
  bounded = omega (arith, length-replicate n false);
  filling = λ _. refl;
  counted = rw (contents-new_window n h);
}

pub contents-reset : {w : Window} → IsValid w → contents (reset w) ≡ []
unfolding reset contents
contents-reset {w} v = ground (arith, v.room)

pub reset-IsValid : {w : Window} → IsValid w → IsValid (reset w)
unfolding reset fails
reset-IsValid {w} v = record {
  room = omega (arith, v.room);
  bounded = omega arith;
  filling = λ _. refl;
  counted = rw (contents-reset v);
}
