-- ===== src/JobQueue/Valid/Take.antt =====
-- dequeue, dead, complete, promoteReady and Close.
use mathlib.Core.Path.{ap₂, subst}
use leetsheet.Prelude.{
  ℕ, ◌+◌, ◌≤◌, ◌<◌, ◌≡◌, refl, sym, ap, ◌∙◌, Bool, true, false, not, List, [], ◌∷◌, none, arith,
  ◌==◌, if◌then◌else◌, length, inl, inr, Bool-cases, if-cases,
}
use leetsheet.JobQueue.{
  Status, processing, completed, dead_status, Job, Queue, less, write, mark, Turn, taken, refused,
  parked, take_from, dequeue_turn, dead, complete, close, promote, ping_notify,
}
use leetsheet.JobQueue.Heap.{at, pop}
use leetsheet.JobQueue.Heap.Arrays.{count, count-append, is}
use leetsheet.JobQueue.Heap.Order.{Above}
use leetsheet.JobQueue.Heap.Laws.{IsHeapList, Popped, pop_lem}
use leetsheet.JobQueue.Less.{less-IsOrder}
use leetsheet.JobQueue.Schedule.{IsSorted, promote_loop_lem}
use leetsheet.JobQueue.Places.{
  waits, buried, registered, IsValid, heap_same, IsSorted-same, SameOn-key, all_same, self_changed,
  other_same, registered-write, update_self, update-other,
}

waits_le_one : (b : Bool) (s : Status) → waits b s ≤ 1
waits_le_one b s = ground arith

waits_one : (b : Bool) (s : Status) → waits b s ≡ 1 → (b ≡ true) × (buried b s ≡ 0)
waits_one b s h = ground arith

module _ {Any : Type 0} where
  -- The lists of the queue before and after the status of the job at `p` changes.
  module _ (q : Queue Any) (p : ℕ) (s : Status) where
    marked-heap : (a : List ℕ) → IsHeapList (less q.jobs) a → IsHeapList (less (mark q p s).jobs) a
    unfolding mark
    marked-heap a h =
        heap_same q.jobs (mark q p s).jobs a
          (SameOn-key q.jobs p (record (q.jobs p) { status = s }) a refl refl) h

    marked-IsSorted : (a : List ℕ) → IsSorted q.jobs a → IsSorted (mark q p s).jobs a
    unfolding mark
    marked-IsSorted a h =
        IsSorted-same q.jobs (mark q p s).jobs a
          (SameOn-key q.jobs p (record (q.jobs p) { status = s }) a refl refl) h

  -- complete of a job that is being processed keeps every job in its place.
  pub complete-IsValid :
      (q : Queue Any) (p : ℕ)
      → IsValid q
      → registered q p ≡ true
      → (q.jobs p).status ≡ processing
      → IsValid (complete q p)
  unfolding complete
  complete-IsValid q p v known busy = record {
    heap = marked-heap q p completed q.pending_heap v.heap;
    sorted = marked-IsSorted q p completed q.scheduled v.sorted;
    waiting = λ x.
        v.waiting x
        ∙ all_same q p j refl waits (ap₂ waits known busy ∙ ap (λ b. waits b completed) (sym known))
            x;
    lettered = λ x.
        v.lettered x
        ∙ all_same q p j refl buried
            (ap₂ buried known busy ∙ ap (λ b. buried b completed) (sym known)) x;
  }
    where
      j : Job Any
      j = record (q.jobs p) { status = completed }

  -- dead of a job that is being processed keeps every job in its place.
  pub dead-IsValid :
      (q : Queue Any) (p : ℕ)
      → IsValid q
      → registered q p ≡ true
      → (q.jobs p).status ≡ processing
      → IsValid (dead q p)
  unfolding dead
  dead-IsValid q p v known busy = record {
    heap = marked-heap q p dead_status q.pending_heap v.heap;
    sorted = marked-IsSorted q p dead_status q.scheduled v.sorted;
    waiting = λ x.
        v.waiting x
        ∙ all_same q p j refl waits
            (ap₂ waits known busy ∙ ap (λ b. waits b dead_status) (sym known)) x;
    lettered = λ x. omega (arith, count-append x q.dlq (p ∷ []), one_more x);
  }
    where
      j : Job Any
      j = record (q.jobs p) { status = dead_status }

      one_more :
          (x : ℕ)
          → count x q.dlq + is p x
            ≡ buried (registered (write q p j) x) ((write q p j).jobs x).status
      one_more x = elim (Bool-cases (p == x)) [
        | inl e ↦
            let at_p : p ≡ x = ground arith in
            let self : is p p ≡ 1 = ground arith in
            subst
              (λ y.
                count y q.dlq + is p y
                ≡ buried (registered (write q p j) y) ((write q p j).jobs y).status)
              at_p
              (omega (
                arith,
                self,
                v.lettered p ∙ ap₂ buried known busy,
                self_changed q p j refl buried ∙ ap (λ b. buried b dead_status) known,
              ))
        | inr e ↦ rw e (omega (arith, v.lettered x ∙ other_same q p j refl buried x e))
      ]

  pub close-IsValid : (q : Queue Any) → IsValid q → IsValid (close q)
  unfolding close
  close-IsValid q v =
      if-cases IsValid (not q.closed)
        (λ _. record {
          heap = v.heap;
          sorted = v.sorted;
          waiting = v.waiting;
          lettered = v.lettered;
        })
        (λ _. v)

  -- promoteReady keeps every job in its place, while it is locked and when it signals.
  pub promote-IsValid : (q : Queue Any) (now : ℕ) → IsValid q → IsValid (promote q now).0
  unfolding promote
  promote-IsValid q now v =
      let done = promote_loop_lem q.jobs now q.pending_heap q.scheduled v.heap v.sorted in
      record {
        heap = done.heap;
        sorted = done.sorted;
        waiting = λ x. done.kept x ∙ v.waiting x;
        lettered = v.lettered;
      }

  pub ping_notify-IsValid : (q : Queue Any) → IsValid q → IsValid (ping_notify q)
  unfolding ping_notify
  ping_notify-IsValid q v = record {
    heap = v.heap;
    sorted = v.sorted;
    waiting = v.waiting;
    lettered = v.lettered;
  }

  -- A worker took the job at `p`, which was waiting: no pending job comes before it, it is marked as
  -- being processed, the rest of it and the other jobs are as they were, the heap is left without it, and every job is in
  -- its place.
  pub record Took (q : Queue Any) (p : ℕ) (q' : Queue Any) : Type 0 where
    pub first : (i : ℕ) → i < length q.pending_heap → Above (less q.jobs) p (at q.pending_heap i)
    pub valid : IsValid q'
    pub known : registered q' p ≡ true
    pub waited : waits (registered q p) (q.jobs p).status ≡ 1
    pub marked : q'.jobs p ≡ record (q.jobs p) { status = processing }
    pub same_all : q'.all ≡ q.all
    pub same_closed : q'.closed ≡ q.closed
    pub left : (x : ℕ) → count x q.pending_heap ≡ is p x + count x q'.pending_heap
    pub busy : (q'.jobs p).status ≡ processing
    pub others : (x : ℕ) → (p == x) ≡ false → q'.jobs x ≡ q.jobs x

  module _ (q : Queue Any) (p : ℕ) (tail rest : List ℕ) (v : IsValid q)
      (shown : q.pending_heap ≡ p ∷ tail) (out : Popped (less q.jobs) q.pending_heap p rest) where
    abbrev left : Queue Any
    left = record q { pending_heap = rest }

    abbrev j : Job Any
    j = record (q.jobs p) { status = processing }

    was_waiting :
        (waits (registered q p) (q.jobs p).status ≡ 1) × (count p rest + count p q.scheduled ≡ 0)
    was_waiting =
        let self : is p p ≡ 1 = ground arith in
        let most = waits_le_one (registered q p) (q.jobs p).status in
        (
          omega (arith, self, most, out.same p, v.waiting p),
          omega (arith, self, most, out.same p, v.waiting p),
        )

    was_known : registered q p ≡ true
    was_known = (waits_one (registered q p) (q.jobs p).status was_waiting.0).0

    taken-IsValid : IsValid (mark left p processing)
    unfolding mark
    taken-IsValid = record {
      heap = marked-heap left p processing rest out.heap;
      sorted = marked-IsSorted left p processing q.scheduled v.sorted;
      waiting = λ x. one_less x;
      lettered = λ x. v.lettered x ∙ all_same left p j refl buried same_buried x;
    }
      where
        one_less :
            (x : ℕ)
            → count x rest + count x q.scheduled
              ≡ waits (registered (write left p j) x) ((write left p j).jobs x).status
        one_less x = elim (Bool-cases (p == x)) [
          | inl e ↦
              let at_p : p ≡ x = ground arith in
              subst
                (λ y.
                  count y rest + count y q.scheduled
                  ≡ waits (registered (write left p j) y) ((write left p j).jobs y).status)
                at_p
                (was_waiting.1
                  ∙ sym (self_changed left p j refl waits ∙ ap (λ b. waits b processing) was_known))
          | inr e ↦
              let kept : is p x ≡ 0 = rw e in
              omega (arith, kept, out.same x, v.waiting x, other_same left p j refl waits x e)
        ]

        same_buried :
            buried (registered left p) (left.jobs p).status ≡ buried (registered left p) j.status
        same_buried =
            (waits_one (registered q p) (q.jobs p).status was_waiting.0).1
            ∙ sym (ap (λ b. buried b processing) was_known)

    took : Took q p (mark left p processing)
    unfolding mark
    took = record {
      first = out.first;
      valid = taken-IsValid;
      known = registered-write left p j refl p ∙ was_known;
      waited = was_waiting.0;
      marked = update_self q.jobs p j;
      same_all = refl;
      same_closed = refl;
      left = out.same;
      busy = ap (λ (k : Job Any). k.status) (update_self q.jobs p j);
      others = λ x e. update-other q.jobs p x j e;
    }

  -- What one turn of dequeue does, by what the heap holds.
  abbrev pub Turned : List ℕ → Queue Any → Queue Any → Turn → Type 0
  Turned [] q q' t = (q' ≡ q) × (t ≡ (if q.closed then refused else parked))
  Turned (p ∷ a) q q' t = (t ≡ taken p) × Took q p q'

  -- With nothing pending, dequeue changes nothing and is refused if the queue is closed and parks
  -- otherwise. Else, closed or not, it takes a pending job that no other pending job comes before,
  -- marks it as being processed, and leaves every job in its place.
  pub dequeue_turn_lem :
      (q : Queue Any) → IsValid q → Turned q.pending_heap q (dequeue_turn q).0 (dequeue_turn q).1
  unfolding dequeue_turn pop
  dequeue_turn_lem q v = by_heap q.pending_heap refl
    where
      by_heap : (h : List ℕ) → q.pending_heap ≡ h → Turned h q (dequeue_turn q).0 (dequeue_turn q).1
      by_heap [] e =
          let nothing : pop (less q.jobs) q.pending_heap ≡ none = ap (pop (less q.jobs)) e in
          subst (λ r. Turned [] q r.0 r.1) (ap (λ o. take_from o q) (sym nothing))
            (idle q.closed refl)
        where
          idle : (c : Bool) → q.closed ≡ c → Turned [] q (take_from none q).0 (take_from none q).1
          idle c e = ground arith
      by_heap (p ∷ a) e =
          let (rest, popped, out) =
            pop_lem (less q.jobs) (less-IsOrder q.jobs) p a
              (subst (IsHeapList (less q.jobs)) e v.heap) in
          subst (λ r. Turned (p ∷ a) q r.0 r.1)
            (ap (λ o. take_from o q) (sym (ap (pop (less q.jobs)) e ∙ popped)))
            (refl, took q p a rest v e (subst (λ h. Popped (less q.jobs) h p rest) (sym e) out))
