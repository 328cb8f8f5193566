-- ===== src/JobQueue/Places.antt =====
-- Where each registered job stands: its status tells which list of the queue holds its pointer.
use leetsheet.Prelude.{
  ℕ, zero, suc, ◌+◌, ◌≤◌, ◌<◌, ◌≡◌, refl, sym, ap, ◌∙◌, Bool, true, false, List, [], ◌∷◌, Option,
  none, some, arith, ◌==◌, length, All, inl, inr, Bool-cases,
}
use mathlib.Core.Path.{ap₂, subst}
use leetsheet.Prelude.Maps.{lookup, bytes_eq}
use leetsheet.JobQueue.{Status, pending, failed, dead_status, Job, Queue, less, update, write}
use leetsheet.JobQueue.Heap.{at}
use leetsheet.JobQueue.Heap.Arrays.{count}
use leetsheet.JobQueue.Heap.Laws.{IsHeapList}
use leetsheet.JobQueue.Less.{SameKey, IsHeap-same}
use leetsheet.JobQueue.Schedule.{IsSorted}

abbrev pub is_at : Option ℕ → ℕ → Bool
is_at none p = false
is_at (some r) p = r == p

-- How often a pointer stands in the heap or the scheduled list.
abbrev pub waits : Bool → Status → ℕ
waits true pending = 1
waits true failed = 1
waits _ _ = 0

-- How often it stands in the dead-letter queue.
abbrev pub buried : Bool → Status → ℕ
buried true dead_status = 1
buried _ _ = 0

pub count-at : (a : List ℕ) (i : ℕ) → i < length a → 0 < count (at a i) a
count-at [] i h = absurd (omega arith)
count-at (x ∷ a) zero h = ground arith
count-at (x ∷ a) (suc i) h = omega (arith, count-at a i (omega arith))

module _ {Any : Type 0} where
  -- The queue knows the job at `p` by its ID.
  abbrev pub registered : Queue Any → ℕ → Bool
  registered q p = is_at (lookup (q.jobs p).id q.all) p

  -- Each job that Enqueue has taken is in exactly one place, the one that its status names: pending
  -- and failed jobs once in the heap or the scheduled list, dead ones once in the dead-letter queue,
  -- processing and completed ones in none of the lists. The heap and the scheduled list are ordered.
  pub record IsValid (q : Queue Any) : Type 0 where
    pub heap : IsHeapList (less q.jobs) q.pending_heap
    pub sorted : IsSorted q.jobs q.scheduled
    pub waiting :
        (p : ℕ)
        → count p q.pending_heap + count p q.scheduled ≡ waits (registered q p) (q.jobs p).status
    pub lettered : (p : ℕ) → count p q.dlq ≡ buried (registered q p) (q.jobs p).status

  -- Two memories that order the pointers of a list alike.
  abbrev pub SameOn : (ℕ → Job Any) → (ℕ → Job Any) → List ℕ → Type 0
  SameOn jobs jobs' a = (x : ℕ) → 0 < count x a → SameKey jobs jobs' x

  pub heap_same :
      (jobs jobs' : ℕ → Job Any) (a : List ℕ)
      → SameOn jobs jobs' a
      → IsHeapList (less jobs) a
      → IsHeapList (less jobs') a
  heap_same jobs jobs' a same h =
      IsHeap-same jobs jobs' (length a) a (λ i p. same (at a i) (count-at a i p)) h

  All-due :
      (jobs jobs' : ℕ → Job Any) (x : ℕ) (s : List ℕ)
      → (jobs x).run_at ≡ (jobs' x).run_at
      → SameOn jobs jobs' s
      → All (λ y. (jobs x).run_at ≤ (jobs y).run_at) s
      → All (λ y. (jobs' x).run_at ≤ (jobs' y).run_at) s
  All-due jobs jobs' x [] e same v = tt
  All-due jobs jobs' x (y ∷ s) e same v = (
    omega (arith, v.0, (same y (ground arith)).1),
    All-due jobs jobs' x s e (λ z h. same z (omega arith)) v.1,
  )

  pub IsSorted-same :
      (jobs jobs' : ℕ → Job Any) (s : List ℕ)
      → SameOn jobs jobs' s
      → IsSorted jobs s
      → IsSorted jobs' s
  IsSorted-same jobs jobs' [] same v = tt
  IsSorted-same jobs jobs' (x ∷ s) same v = (
    All-due jobs jobs' x s (same x (ground arith)).1 (λ z h. same z (omega arith)) v.0,
    IsSorted-same jobs jobs' s (λ z h. same z (omega arith)) v.1,
  )

  pub update_self : (jobs : ℕ → Job Any) (p : ℕ) (j : Job Any) → update jobs p j p ≡ j
  update_self jobs p j = let e : (p == p) ≡ true = ground arith in rw e

  pub update-other :
      (jobs : ℕ → Job Any) (p x : ℕ) (j : Job Any) → (p == x) ≡ false → update jobs p j x ≡ jobs x
  update-other jobs p x j e = rw e

  -- A write through a pointer that is not in the list.
  pub SameOn-absent :
      (jobs : ℕ → Job Any) (p : ℕ) (j : Job Any) (a : List ℕ)
      → count p a ≡ 0
      → SameOn jobs (update jobs p j) a
  SameOn-absent jobs p j a absent x h = differ (p == x) refl
    where
      differ : (b : Bool) → (p == x) ≡ b → SameKey jobs (update jobs p j) x
      differ true e = absurd (ground arith)
      differ false e = rw e (refl, refl)

  -- A write that keeps what Less reads.
  pub SameOn-key :
      (jobs : ℕ → Job Any) (p : ℕ) (j : Job Any) (a : List ℕ)
      → (jobs p).priority ≡ j.priority
      → (jobs p).run_at ≡ j.run_at
      → SameOn jobs (update jobs p j) a
  SameOn-key jobs p j a e f x h = differ (p == x) refl
    where
      differ : (b : Bool) → (p == x) ≡ b → SameKey jobs (update jobs p j) x
      differ true h = let at_p : p ≡ x = ground arith in rw h (ground arith)
      differ false h = rw h (refl, refl)

  module _ (q : Queue Any) (p : ℕ) (j : Job Any) (same_id : (q.jobs p).id ≡ j.id) where
    written_id : (x : ℕ) → ((write q p j).jobs x).id ≡ (q.jobs x).id
    written_id x = elim (Bool-cases (p == x)) [
      | inl e ↦ let at_p : p ≡ x = ground arith in rw (e, ← at_p) (sym same_id)
      | inr e ↦ rw e
    ]

    -- A write that keeps the ID leaves every pointer as well known as it was.
    pub registered-write : (x : ℕ) → registered (write q p j) x ≡ registered q x
    registered-write x = ap (λ i. is_at (lookup i q.all) x) (written_id x)

    -- At another pointer nothing changes.
    pub other_same :
        (place : Bool → Status → ℕ) (x : ℕ)
        → (p == x) ≡ false
        → place (registered q x) (q.jobs x).status
          ≡ place (registered (write q p j) x) ((write q p j).jobs x).status
    other_same place x e =
        ap₂ place (sym (registered-write x))
          (ap (λ (k : Job Any). k.status) (sym (update-other q.jobs p x j e)))

    -- At `p` itself the place is the one for the new status.
    pub self_changed :
        (place : Bool → Status → ℕ)
        → place (registered (write q p j) p) ((write q p j).jobs p).status
          ≡ place (registered q p) j.status
    self_changed place =
        ap₂ place (registered-write p) (ap (λ (k : Job Any). k.status) (update_self q.jobs p j))

    -- Where the place counts alike for the old and the new status, nothing changes anywhere.
    pub all_same :
        (place : Bool → Status → ℕ)
        → place (registered q p) (q.jobs p).status ≡ place (registered q p) j.status
        → (x : ℕ)
        → place (registered q x) (q.jobs x).status
          ≡ place (registered (write q p j) x) ((write q p j).jobs x).status
    all_same place e x = elim (Bool-cases (p == x)) [
      | inl h ↦
          let at_p : p ≡ x = ground arith in
          subst
            (λ y.
              place (registered q y) (q.jobs y).status
              ≡ place (registered (write q p j) y) ((write q p j).jobs y).status)
            at_p (e ∙ sym (self_changed place))
      | inr h ↦ other_same place x h
    ]
