-- ===== src/Puzzles/Longest.antt =====
-- pkg/length_of_longest_substring.go: the longest segment of a text in which no byte occurs twice.
use native.Mathlib.Decide.{dec_lt}
use leetsheet.Prelude.{
  ℕ, suc, ◌+◌, ◌-◌, ◌<◌, ◌≤◌, ◌≡◌, ◌≢◌, refl, sym, ap, ◌∙◌, List, [], ◌∷◌, Option, none, some,
  arith, inl, inr, Bool-cases, ltb, leb, length, get_elem?, if◌then◌else◌, ◌⊎◌,
}
use leetsheet.Prelude.Maps.{lookup, insert, nat_eq, insert-cases}
use leetsheet.Prelude.Text.{Bytes}

-- `left` after the byte at `right` has been looked up.
pub new_left : Option ℕ → ℕ → ℕ
new_left none left = left
new_left (some idx) left = if leb left idx then idx + 1 else left

pub longest_loop : List (ℕ × ℕ) → ℕ → ℕ → ℕ → Bytes → ℕ
unfolding new_left
longest_loop index left longest right [] = longest
longest_loop index left longest right (c ∷ s) =
    let start = new_left (lookup c index) left in
    let current = right - start + 1 in
    longest_loop (insert c right index) start (if ltb longest current then current else longest)
      (right + 1) s

-- LengthOfLongestSubstring
unfoldable pub longest_substring : Bytes → ℕ
unfolding longest_loop
longest_substring s = longest_loop [] 0 0 0 s

-- No byte occurs twice from index `i` to below `j`.
abbrev pub IsFree : Bytes → ℕ → ℕ → Type 0
IsFree s i j = (a b c : ℕ) → i ≤ a → a < b → b < j → get_elem? s a ≡ some c → get_elem? s b ≢ some c

-- The loop before index `right`.
record IsScanned (s : Bytes) (index : List (ℕ × ℕ)) (left longest right : ℕ) : Type 0 where
  held : (c idx : ℕ) → lookup c index ≡ some idx → (idx < right) × (get_elem? s idx ≡ some c)
  last :
      (a c : ℕ)
      → a < right
      → get_elem? s a ≡ some c
      → (idx : ℕ) × (lookup c index ≡ some idx) × (a ≤ idx)
  ordered : left ≤ right
  free : IsFree s left right
  tight : (i : ℕ) → i < left → ¬ (IsFree s i right)
  best : (i j : ℕ) → j ≤ right → IsFree s i j → j ≤ i + longest
  met : (i : ℕ) × (i + longest ≤ right) × IsFree s i (i + longest)

some_index : {x y : ℕ} → some x ≡ some y → x ≡ y
some_index h = cc

clash : {x : ℕ} {o : Option ℕ} → o ≡ none → o ≡ some x → ⊥
clash h k = cc

-- The two ways to go on: the byte is not in the segment, or the segment begins after it.
left-cases :
    (o : Option ℕ) (left : ℕ)
    → ((new_left o left ≡ left) × ((idx : ℕ) → o ≡ some idx → idx < left))
      ⊎ ((idx : ℕ) × (o ≡ some idx) × (left ≤ idx) × (new_left o left ≡ idx + 1))
unfolding new_left
left-cases none left = inl (refl, λ idx h. absurd (clash refl h))
left-cases (some idx) left = elim (Bool-cases (leb left idx)) [
  | inl e ↦ inr (idx, refl, ground (arith, e), rw e refl)
  | inr e ↦ inl (rw e refl, λ i h. ground (arith, e, some_index h))
]

module _ (s : Bytes) (index : List (ℕ × ℕ)) (left longest right c : ℕ)
    (v : IsScanned s index left longest right) (here : get_elem? s right ≡ some c) where
  abbrev start : ℕ
  start = new_left (lookup c index) left

  below : (b r : ℕ) → b < r + 1 → (b < r) ⊎ (b ≡ r)
  below b r h = ground arith

  start_ordered : (left ≤ start) × (start ≤ right)
  start_ordered = elim (left-cases (lookup c index) left) [
    | inl (e, _) ↦ (omega (arith, e), omega (arith, e, v.ordered))
    | inr (idx, found, h, e) ↦ (omega (arith, e, h), omega (arith, e, (v.held c idx found).0))
  ]

  -- The last place of the byte before `right` is before the new start.
  before_start : (a : ℕ) → a < right → get_elem? s a ≡ some c → a < start
  before_start a h k =
      let (idx, found, later) = v.last a c h k in
      elim (left-cases (lookup c index) left) [
        | inl (e, out) ↦ omega (arith, e, out idx found, later)
        | inr (i, found', _, e) ↦ omega (arith, e, some_index (sym found ∙ found'), later)
      ]

  IsFree-next : IsFree s start (right + 1)
  IsFree-next a b d h p q ea eb = elim (below b right q) [
    | inl inside ↦ v.free a b d (omega (arith, start_ordered.0, h)) p inside ea eb
    | inr same ↦
        let at_c : d ≡ c = some_index (sym eb ∙ ap (get_elem? s) same ∙ here) in
        absurd (omega (arith, h, before_start a (omega (arith, p, same)) (ea ∙ ap some at_c)))
  ]

  tight_next : (i : ℕ) → i < start → ¬ (IsFree s i (right + 1))
  tight_next i h f = elim (left-cases (lookup c index) left) [
    | inl (e, _) ↦ v.tight i (omega (arith, h, e)) (λ a b d p q r. f a b d p q (omega (arith, r)))
    | inr (idx, found, _, e) ↦
        let (inside, at_idx) = v.held c idx found in
        f idx right c (omega (arith, h, e)) inside (omega arith) at_idx here
  ]

  abbrev best_now : ℕ
  best_now = if ltb longest (right - start + 1) then right - start + 1 else longest

  best_ge : (longest ≤ best_now) × (right - start + 1 ≤ best_now)
  best_ge = (ground arith, ground arith)

  best_next : (i j : ℕ) → j ≤ right + 1 → IsFree s i j → j ≤ i + best_now
  best_next i j h f = elim (dec_lt right j) [
    | no out ↦ omega (arith, v.best i j (omega arith) f, best_ge.0)
    | yes at_end ↦ elim (dec_lt i start) [
      | yes early ↦
          absurd (tight_next i early (λ a b d p q r. f a b d p q (omega (arith, r, at_end))))
      | no late ↦ omega (arith, best_ge.1, start_ordered.1)
    ]
  ]

  met_next : (i : ℕ) × (i + best_now ≤ right + 1) × IsFree s i (i + best_now)
  met_next = elim (Bool-cases (ltb longest (right - start + 1))) [
    | inl e ↦ (
      start,
      rw e (omega (arith, start_ordered.1)),
      rw e (λ a b d p q r. IsFree-next a b d p q (omega (arith, r, start_ordered.1))),
    )
    | inr e ↦ let (i, h, f) = v.met in (i, rw e (omega (arith, h)), rw e f)
  ]

  last_next :
      (a d : ℕ)
      → a < right + 1
      → get_elem? s a ≡ some d
      → (idx : ℕ) × (lookup d (insert c right index) ≡ some idx) × (a ≤ idx)
  last_next a d h k = elim (insert-cases c d right index) [
    | inl (_, e) ↦ (right, e, omega arith)
    | inr (n, e) ↦ elim (below a right h) [
      | inl inside ↦ let (idx, found, later) = v.last a d inside k in (idx, e ∙ found, later)
      | inr same ↦ absurd (n (some_index (sym here ∙ ap (get_elem? s) (sym same) ∙ k)))
    ]
  ]

  held_next :
      (d idx : ℕ)
      → lookup d (insert c right index) ≡ some idx
      → (idx < right + 1) × (get_elem? s idx ≡ some d)
  held_next d idx k = elim (insert-cases c d right index) [
    | inl (same, e) ↦
        let at_right : right ≡ idx = some_index (sym e ∙ k) in
        (omega (arith, at_right), ap (get_elem? s) (sym at_right) ∙ here ∙ ap some same)
    | inr (_, e) ↦ let (inside, found) = v.held d idx (sym e ∙ k) in (omega (arith, inside), found)
  ]

  IsScanned-next : IsScanned s (insert c right index) start best_now (right + 1)
  IsScanned-next = record {
    held = held_next;
    last = last_next;
    ordered = omega (arith, start_ordered.1);
    free = IsFree-next;
    tight = tight_next;
    best = best_next;
    met = met_next;
  }

-- The longest length of a segment in which no byte occurs twice.
pub record IsLongest (s : Bytes) (n : ℕ) : Type 0 where
  pub met : (i : ℕ) × (i + n ≤ length s) × IsFree s i (i + n)
  pub best : (i j : ℕ) → j ≤ length s → IsFree s i j → j ≤ i + n

longest_loop-IsLongest :
    (s : Bytes) (index : List (ℕ × ℕ)) (left longest right : ℕ) (rest : Bytes)
    → ((k : ℕ) → get_elem? rest k ≡ get_elem? s (right + k))
    → right + length rest ≡ length s
    → IsScanned s index left longest right
    → IsLongest s (longest_loop index left longest right rest)
unfolding longest_loop
longest_loop-IsLongest s index left longest right [] tail all v =
    let (i, h, f) = v.met in
    record { met = (i, omega (arith, h), f); best = λ i j h. v.best i j (omega arith) }
longest_loop-IsLongest s index left longest right (c ∷ rest) tail all v =
    let here : get_elem? s right ≡ some c = ap (get_elem? s) (omega arith) ∙ sym (tail 0) in
    longest_loop-IsLongest s (insert c right index) (start s index left longest right c v here)
      (best_now s index left longest right c v here) (right + 1) rest
      (λ k. tail (suc k) ∙ ap (get_elem? s) (omega arith)) (omega arith)
      (IsScanned-next s index left longest right c v here)

-- LengthOfLongestSubstring returns the length of some segment without repeated bytes, and no such
-- segment is longer.
pub longest_substring-IsLongest : (s : Bytes) → IsLongest s (longest_substring s)
unfolding longest_substring lookup
longest_substring-IsLongest s =
    longest_loop-IsLongest s [] 0 0 0 s (λ k. ap (get_elem? s) (omega arith)) (omega arith)
      (record {
        held = λ c idx h. absurd (clash refl h);
        last = λ a c h. absurd (omega arith);
        ordered = omega arith;
        free = λ a b c h p q. absurd (omega arith);
        tight = λ i h. absurd (omega arith);
        best = λ i j h f. omega arith;
        met = (0, omega arith, λ a b c h p q. absurd (omega arith));
      })
