-- ===== src/JobQueue/Schedule.antt =====
-- The scheduled list of queue.go: insertion by binary search, and promotion.
use leetsheet.Prelude.{
  ℕ, zero, suc, ◌+◌, ◌/◌, ◌≤◌, ◌<◌, ◌≡◌, refl, sym, ap, ◌∙◌, Bool, true, false, List, [], ◌∷◌, ◌++◌,
  arith, inl, inr, Bool-cases, ltb, ltb→lt, if◌then◌else◌, length, take, drop, All, All-map,
}
use mathlib.Core.Path.{subst}
use leetsheet.JobQueue.{Job, less, search_loop, not_before, insert_scheduled, promote_loop}
use leetsheet.JobQueue.Less.{less-IsOrder}
use leetsheet.JobQueue.Heap.{at, push}
use leetsheet.JobQueue.Heap.Laws.{IsHeapList, push_lem}
use leetsheet.JobQueue.Heap.Arrays.{count, is}

-- A test that stays true once it is true, up to `n`.
abbrev IsMonotone : ℕ → (ℕ → Bool) → Type 0
IsMonotone n test = (x y : ℕ) → x ≤ y → y < n → test x ≡ true → test y ≡ true

-- `r` is the first index at which the test holds, or `n`.
record IsFirst (n : ℕ) (test : ℕ → Bool) (r : ℕ) : Type 0 where
  inside : r ≤ n
  below : (h : ℕ) → h < r → test h ≡ false
  found : r < n → test r ≡ true

-- Binary search finds the first index at which a monotone test holds.
search_loop-IsFirst :
    (k n : ℕ) (test : ℕ → Bool) (i j : ℕ)
    → IsMonotone n test
    → i ≤ j
    → j ≤ n
    → j ≤ k + i
    → ((h : ℕ) → h < i → test h ≡ false)
    → (j < n → test j ≡ true)
    → IsFirst n test (search_loop k test i j)
unfolding search_loop
search_loop-IsFirst zero n test i j mono ij jn f below found =
    let e : j ≡ i = omega arith in
    record {
      inside = omega arith;
      below = below;
      found = subst (λ x. x < n → test x ≡ true) e found;
    }
search_loop-IsFirst (suc k) n test i j mono ij jn f below found =
    let h = (i + j) / 2 in
    elim (Bool-cases (ltb i j)) [
      | inr stop ↦
          let e : j ≡ i = ground arith in
          rw stop (record {
            inside = omega arith;
            below = below;
            found = subst (λ x. x < n → test x ≡ true) e found;
          })
      | inl go ↦
          let apart : i < j = ltb→lt i j go in
          elim (Bool-cases (test h)) [
            | inl hit ↦
                rw (go, hit)
                  (search_loop-IsFirst k n test i h mono (omega arith) (omega arith) (omega arith)
                    below (λ _. hit))
            | inr miss ↦
                rw (go, miss)
                  (search_loop-IsFirst k n test (h + 1) j mono (omega arith) jn (omega arith)
                    (λ x p. ground (arith, mono x h)) found)
          ]
    ]

module _ {Any : Type 0} (jobs : ℕ → Job Any) where
  abbrev due : ℕ → ℕ
  due p = (jobs p).run_at

  -- Ascending by RunAt.
  abbrev pub IsSorted : List ℕ → Type 0
  IsSorted [] = Unit {0}
  IsSorted (x ∷ s) = All (λ y. due x ≤ due y) s × IsSorted s

  -- The plain insertion: in front of the first job that is not due before `p`.
  pub insert_sorted : ℕ → List ℕ → List ℕ
  insert_sorted p [] = p ∷ []
  insert_sorted p (x ∷ s) = if ltb (due x) (due p) then x ∷ insert_sorted p s else p ∷ x ∷ s

  -- The number of leading jobs that are due before `p`.
  earlier : ℕ → List ℕ → ℕ
  earlier p [] = 0
  earlier p (x ∷ s) = if ltb (due x) (due p) then suc (earlier p s) else 0

  insert_sorted-split :
      (p : ℕ) (s : List ℕ) → insert_sorted p s ≡ take (earlier p s) s ++ (p ∷ drop (earlier p s) s)
  unfolding insert_sorted earlier
  insert_sorted-split p [] = refl
  insert_sorted-split p (x ∷ s) = elim (Bool-cases (ltb (due x) (due p))) [
    | inl e ↦ rw e (ap (◌∷◌ x) (insert_sorted-split p s))
    | inr e ↦ rw e
  ]

  All-at :
      (a : ℕ) (s : List ℕ) (y : ℕ)
      → y < length s
      → All (λ z. due a ≤ due z) s
      → due a ≤ due (at s y)
  All-at a [] y p all = absurd (omega arith)
  All-at a (x ∷ s) zero p all = all.0
  All-at a (x ∷ s) (suc y) p all = All-at a s y (omega arith) all.1

  due-monotone :
      (s : List ℕ) → IsSorted s → (x y : ℕ) → x ≤ y → y < length s → due (at s x) ≤ due (at s y)
  due-monotone [] v x y h p = absurd (omega arith)
  due-monotone (a ∷ s) v zero zero h p = omega arith
  due-monotone (a ∷ s) v zero (suc y) h p = All-at a s y (omega arith) v.0
  due-monotone (a ∷ s) v (suc x) zero h p = absurd (omega arith)
  due-monotone (a ∷ s) v (suc x) (suc y) h p = due-monotone s v.1 x y (omega arith) (omega arith)

  first-earlier :
      (p : ℕ) (s : List ℕ) (r : ℕ) → IsFirst (length s) (not_before jobs s p) r → r ≡ earlier p s
  unfolding earlier
  first-earlier p [] r v = omega (arith, v.inside)
  first-earlier p (x ∷ s) zero v = ground (arith, v.found)
  first-earlier p (x ∷ s) (suc r) v =
      let rest = first-earlier p s r (record {
        inside = omega (arith, v.inside);
        below = λ h q. v.below (suc h) (omega arith);
        found = λ q. v.found (omega arith);
      }) in
      ground (arith, v.below 0, rest)

  -- On a sorted list insertScheduled's binary search inserts where a plain scan would.
  pub insert_scheduled-eq-insert_sorted :
      (s : List ℕ) (p : ℕ) → IsSorted s → insert_scheduled jobs s p ≡ insert_sorted p s
  unfolding insert_scheduled
  insert_scheduled-eq-insert_sorted s p v =
      ap (λ k. take k s ++ (p ∷ drop k s)) (first-earlier p s _ found)
      ∙ sym (insert_sorted-split p s)
    where
      monotone : IsMonotone (length s) (not_before jobs s p)
      monotone x y h q t = ground (arith, due-monotone s v x y h q)

      found :
          IsFirst
            (length s)
            (not_before jobs s p)
            (search_loop (length s) (not_before jobs s p) 0 (length s))
      found =
          search_loop-IsFirst (length s) (length s) (not_before jobs s p) 0 (length s) monotone
            (omega arith) (omega arith) (omega arith) (λ h q. absurd (omega arith))
            (λ q. absurd (omega arith))

  All-insert_sorted :
      (x p : ℕ) (s : List ℕ)
      → due x ≤ due p
      → All (λ y. due x ≤ due y) s
      → All (λ y. due x ≤ due y) (insert_sorted p s)
  unfolding insert_sorted
  All-insert_sorted x p [] h v = (h, tt)
  All-insert_sorted x p (y ∷ s) h v = elim (Bool-cases (ltb (due y) (due p))) [
    | inl e ↦ rw e (v.0, All-insert_sorted x p s h v.1)
    | inr e ↦ rw e (h, v)
  ]

  pub insert_sorted-IsSorted : (p : ℕ) (s : List ℕ) → IsSorted s → IsSorted (insert_sorted p s)
  unfolding insert_sorted
  insert_sorted-IsSorted p [] v = (tt, tt)
  insert_sorted-IsSorted p (x ∷ s) v = elim (Bool-cases (ltb (due x) (due p))) [
    | inl e ↦ rw e (All-insert_sorted x p s (ground arith) v.0, insert_sorted-IsSorted p s v.1)
    | inr e ↦ rw e (
      (ground arith, All-map (λ y. due x ≤ due y) (λ y. due p ≤ due y) s (λ y h. ground arith) v.0),
      v,
    )
  ]

  pub count-insert_sorted :
      (q p : ℕ) (s : List ℕ) → count q (insert_sorted p s) ≡ is p q + count q s
  unfolding insert_sorted
  count-insert_sorted q p [] = refl
  count-insert_sorted q p (x ∷ s) = elim (Bool-cases (ltb (due x) (due p))) [
    | inl e ↦ rw e (omega (arith, count-insert_sorted q p s))
    | inr e ↦ rw e
  ]

  -- What promoteReady leaves scheduled, and what it has pushed, when it starts from a sorted list.
  pub record Promoted (now : ℕ) (old s : List ℕ) (r : List ℕ × List ℕ) : Type 0 where
    pub heap : IsHeapList (less jobs) r.0
    pub sorted : IsSorted r.1
    pub later : All (λ p. now < due p) r.1
    pub kept : (q : ℕ) → count q r.0 + count q r.1 ≡ count q old + count q s
    pub early : (q : ℕ) → count q r.1 ≤ count q s
    pub size : length r.1 ≤ length s
    -- how many jobs moved: the first of the list, all of them due
    pub moved : ℕ
    pub left : r.1 ≡ drop moved s
    pub due_now : All (λ p. due p ≤ now) (take moved s)
    pub gained : (q : ℕ) → count q r.0 ≡ count q old + count q (take moved s)

  -- From a heap in order and a sorted list, promoteReady's loop cuts the list in two: every job of
  -- the first part is due and is moved into the heap, once for each time that it stood there, and
  -- every job of the rest is due later and stays. The heap and the list are still in order.
  pub promote_loop_lem :
      (now : ℕ) (heap s : List ℕ)
      → IsHeapList (less jobs) heap
      → IsSorted s
      → Promoted now heap s (promote_loop jobs now heap s)
  unfolding promote_loop
  promote_loop_lem now heap [] h v = record {
    heap = h;
    sorted = tt;
    later = tt;
    kept = λ q. refl;
    early = λ q. omega arith;
    size = omega arith;
    moved = 0;
    left = refl;
    due_now = tt;
    gained = λ q. omega arith;
  }
  promote_loop_lem now heap (p ∷ s) h v =
      let (pushed, same, long) = push_lem (less jobs) (less-IsOrder jobs) heap p h in
      let rest = promote_loop_lem now (push (less jobs) heap p) s pushed v.1 in
      elim (Bool-cases (ltb now (due p))) [
        | inl e ↦ rw e (record {
          heap = h;
          sorted = v;
          later = (
            ground arith,
            All-map (λ y. due p ≤ due y) (λ y. now < due y) s (λ y k. ground arith) v.0,
          );
          kept = λ q. refl;
          early = λ q. omega arith;
          size = omega arith;
          moved = 0;
          left = refl;
          due_now = tt;
          gained = λ q. omega arith;
        })
        | inr e ↦ rw e (record {
          heap = rest.heap;
          sorted = rest.sorted;
          later = rest.later;
          kept = λ q. omega (arith, rest.kept q, same q);
          early = λ q. omega (arith, rest.early q);
          size = omega (arith, rest.size);
          moved = suc rest.moved;
          left = rest.left;
          due_now = (ground arith, rest.due_now);
          gained = λ q. omega (arith, rest.gained q, same q);
        })
      ]
