-- ===== src/Puzzles/Reverse.antt =====
-- pkg/reverse_array.go and pkg/reverse_mid.go: two pointers that move towards each other. An index out
-- of range is a panic, `none`. Where the source starts the right pointer at -1, it is 0 here, and the
-- left one is not below it either.
use leetsheet.Prelude.{
  ℕ, zero, suc, ◌+◌, ◌-◌, ◌<◌, ◌≤◌, ◌≡◌, ◌≢◌, refl, ap, ◌∙◌, Bool, ◌&&◌, ◌||◌, List, [], ◌∷◌,
  Option, none, some, arith, inl, inr, Bool-cases, ltb, ◌==◌, if◌then◌else◌, ◌⊎◌, length,
  length-set, get_or, get_elem?, set,
}
use leetsheet.Prelude.Text.{Bytes}

module _ {A : Type 0} where
  -- `a[i], a[j] = a[j], a[i]`, with the values read there.
  exchange : List A → ℕ → ℕ → Option A → Option A → Option (List A)
  exchange a i j (some x) (some y) = some (set (set a i y) j x)
  exchange a i j _ _ = none

  pub reverse_loop : ℕ → List A → ℕ → ℕ → Option (List A)
  unfolding exchange
  reverse_loop zero a left right = some a
  reverse_loop (suc k) a left right =
      if ltb left right
      then elim (exchange a left right (get_elem? a left) (get_elem? a right)) [
        | none ↦ none
        | some swapped ↦ reverse_loop k swapped (left + 1) (right - 1)
      ]
      else some a

  -- ReverseArray
  unfoldable pub reverse_array : List A → Option (List A)
  unfolding reverse_loop
  reverse_array nums = reverse_loop (length nums) nums 0 (length nums - 1)

  get_elem?-set :
      (a : List A) (i c : ℕ) (v : A)
      → i < length a
      → get_elem? (set a i v) c ≡ (if i == c then some v else get_elem? a c)
  get_elem?-set [] i c v h = absurd (omega arith)
  get_elem?-set (x ∷ a) zero zero v h = refl
  get_elem?-set (x ∷ a) zero (suc c) v h = ground arith
  get_elem?-set (x ∷ a) (suc i) zero v h = ground arith
  get_elem?-set (x ∷ a) (suc i) (suc c) v h = ground (arith, get_elem?-set a i c v)

  value_at : (a : List A) (i : ℕ) → i < length a → (x : A) × (get_elem? a i ≡ some x)
  value_at [] i h = absurd (omega arith)
  value_at (x ∷ a) zero h = (x, refl)
  value_at (x ∷ a) (suc i) h = value_at a i (omega arith)

  -- The list between two indices, both included, turned around.
  pub record IsTurned (a b : List A) (left right : ℕ) : Type 0 where
    pub size : length b ≡ length a
    pub inside : (c : ℕ) → left ≤ c → c ≤ right → get_elem? b c ≡ get_elem? a (left + right - c)
    pub outside : (c : ℕ) → (c < left) ⊎ (right < c) → get_elem? b c ≡ get_elem? a c

  -- One exchange at the ends, and the rest between them.
  module _ (a b : List A) (left right : ℕ) (x y : A) (p : left < right) (q : right < length a)
      (ex : get_elem? a left ≡ some x) (ey : get_elem? a right ≡ some y) where
    abbrev exchanged : List A
    exchanged = set (set a left y) right x

    get-exchanged :
        (c : ℕ)
        → get_elem? exchanged c
          ≡ (if right == c then some x else if left == c then some y else get_elem? a c)
    get-exchanged c =
        get_elem?-set (set a left y) right c x (omega (arith, length-set a left y))
        ∙ ap (λ r. if right == c then some x else r) (get_elem?-set a left c y (omega arith))

    get-other : (c : ℕ) → c ≢ left → c ≢ right → get_elem? exchanged c ≡ get_elem? a c
    get-other c n m = get-exchanged c ∙ ground arith

    get-left : get_elem? exchanged left ≡ get_elem? a right
    get-left = get-exchanged left ∙ ground (arith, ey)

    get-right : get_elem? exchanged right ≡ get_elem? a left
    get-right = get-exchanged right ∙ ground (arith, ex)

    length-exchanged : length exchanged ≡ length a
    length-exchanged = length-set (set a left y) right x ∙ length-set a left y

    where_in :
        (c : ℕ) → left ≤ c → c ≤ right → (c ≡ left) ⊎ ((c ≡ right) ⊎ ((left < c) × (c < right)))
    where_in c h h' = ground arith

    IsTurned-exchanged : IsTurned exchanged b (left + 1) (right - 1) → IsTurned a b left right
    IsTurned-exchanged t = record {
      size = t.size ∙ length-exchanged;
      inside = λ c h h'. elim (where_in c h h') [
        | inl e ↦
            t.outside c (inl (omega arith))
            ∙ ap (get_elem? exchanged) e
            ∙ get-left
            ∙ ap (get_elem? a) (omega arith)
        | inr (inl e) ↦
            t.outside c (inr (omega arith))
            ∙ ap (get_elem? exchanged) e
            ∙ get-right
            ∙ ap (get_elem? a) (omega arith)
        | inr (inr (above, below)) ↦
            t.inside c (omega arith) (omega arith)
            ∙ get-other (left + 1 + (right - 1) - c) (omega arith) (omega arith)
            ∙ ap (get_elem? a) (omega arith)
      ];
      outside = λ c h. t.outside c (beyond c h) ∙ get-other c (off_left c h) (off_right c h);
    }
      where
        beyond : (c : ℕ) → (c < left) ⊎ (right < c) → (c < left + 1) ⊎ (right - 1 < c)
        beyond c (inl h) = inl (omega arith)
        beyond c (inr h) = inr (omega arith)

        off_left : (c : ℕ) → (c < left) ⊎ (right < c) → c ≢ left
        off_left c (inl h) = omega arith
        off_left c (inr h) = omega arith

        off_right : (c : ℕ) → (c < left) ⊎ (right < c) → c ≢ right
        off_right c (inl h) = omega arith
        off_right c (inr h) = omega arith

  bounded :
      (a : List A) (left right : ℕ)
      → left < right
      → (right < length a) ⊎ (right ≤ left)
      → right < length a
  bounded a left right p (inl h) = h
  bounded a left right p (inr h) = absurd (omega arith)

  pub reverse_loop-IsTurned :
      (k : ℕ) (a : List A) (left right : ℕ)
      → right ≤ left + k
      → (right < length a) ⊎ (right ≤ left)
      → (b : List A) × (reverse_loop k a left right ≡ some b) × IsTurned a b left right
  unfolding reverse_loop exchange
  reverse_loop-IsTurned zero a left right fuel inside = (
    a,
    refl,
    record {
      size = refl;
      inside = λ c h h'. ap (get_elem? a) (omega arith);
      outside = λ c h. refl;
    },
  )
  reverse_loop-IsTurned (suc k) a left right fuel inside = elim (Bool-cases (ltb left right)) [
    | inr e ↦ (
      a,
      rw e refl,
      record {
        size = refl;
        inside = λ c h h'. ap (get_elem? a) (ground (arith, e));
        outside = λ c h. refl;
      },
    )
    | inl e ↦
        let p : left < right = ground (arith, e) in
        let q : right < length a = bounded a left right p inside in
        let (x, ex) = value_at a left (omega arith) in
        let (y, ey) = value_at a right q in
        let s : List A = set (set a left y) right x in
        let (b, eb, t) =
          reverse_loop-IsTurned k s (left + 1) (right - 1) (omega arith)
            (inl (omega (arith, length-set (set a left y) right x, length-set a left y))) in
        (b, rw (e, ex, ey, exchange) eb, IsTurned-exchanged a b left right x y p q ex ey t)
  ]

  -- ReverseArray does not panic, and the slice it leaves is as long as before and has each value at the
  -- index that mirrors its own.
  pub reverse_array-mirror :
      (nums : List A)
      → (b : List A) × (reverse_array nums ≡ some b)
        × (length b ≡ length nums)
        × ((c : ℕ) → c < length nums → get_elem? b c ≡ get_elem? nums (length nums - 1 - c))
  unfolding reverse_array
  reverse_array-mirror nums =
      let (b, e, t) =
        reverse_loop-IsTurned (length nums) nums 0 (length nums - 1) (omega arith) (ends nums) in
      (
        b,
        e,
        t.size,
        λ c h. t.inside c (omega arith) (omega arith) ∙ ap (get_elem? nums) (omega arith),
      )
    where
      ends : (nums : List A) → (length nums - 1 < length nums) ⊎ (length nums - 1 ≤ 0)
      ends [] = inr (omega arith)
      ends (x ∷ xs) = inl (omega arith)

-- isVowel
pub is_vowel : ℕ → Bool
is_vowel c =
    c == 97
    || c == 101
    || c == 105
    || c == 111
    || c == 117
    || c == 65
    || c == 69
    || c == 73
    || c == 79
    || c == 85

-- One word of ReverseMiddle; the empty word has no byte at index 0.
pub reverse_word : Bytes → Option Bytes
unfolding is_vowel reverse_loop
reverse_word [] = none
reverse_word (c ∷ word) =
    let n = length (c ∷ word) in
    if is_vowel c && is_vowel (get_or (c ∷ word) (n - 1) 0)
    then reverse_loop n (c ∷ word) 1 (n - 2)
    else some (c ∷ word)

unfoldable pub reverse_middle : List Bytes → Option (List Bytes)
unfolding reverse_word
reverse_middle [] = some []
reverse_middle (word ∷ text) = elim (reverse_word word) [
  | none ↦ none
  | some turned ↦ elim (reverse_middle text) [ none ↦ none | some rest ↦ some (turned ∷ rest) ]
]

-- A word that begins and ends with a vowel keeps both and has what is between them mirrored; any
-- other word that is not empty stays as it is.
pub reverse_word-IsTurned :
    (c : ℕ) (word : Bytes)
    → (b : Bytes) × (reverse_word (c ∷ word) ≡ some b)
      × (if is_vowel c && is_vowel (get_or (c ∷ word) (length (c ∷ word) - 1) 0)
          then IsTurned (c ∷ word) b 1 (length (c ∷ word) - 2)
          else (b ≡ c ∷ word))
unfolding reverse_word
reverse_word-IsTurned c word =
    elim (Bool-cases (is_vowel c && is_vowel (get_or (c ∷ word) (length (c ∷ word) - 1) 0))) [
      | inl e ↦
          let (b, made, turned) =
            reverse_loop-IsTurned (length (c ∷ word)) (c ∷ word) 1 (length (c ∷ word) - 2)
              (omega arith) (ends word) in
          (b, rw e made, rw e turned)
      | inr e ↦ (c ∷ word, rw e refl, rw e refl)
    ]
  where
    ends : (w : Bytes) → (length (c ∷ w) - 2 < length (c ∷ w)) ⊎ (length (c ∷ w) - 2 ≤ 1)
    ends w = inl (omega arith)
