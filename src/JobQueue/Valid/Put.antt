-- ===== src/JobQueue/Valid/Put.antt =====
-- Enqueue and requeue.
use leetsheet.Prelude.{
  ℕ, ◌+◌, ◌≡◌, refl, sym, ap, ◌∙◌, true, false, [], Option, none, some, arith, ◌==◌, if◌then◌else◌,
  inl, inr, Bool-cases, if-cases,
}
use leetsheet.Prelude.Int.{ℤ, pos, pos_part, ◌+ℤ◌, leb_ℤ}
use leetsheet.Prelude.Maps.{lookup, insert, bytes_eq, lookup-insert, lookup-insert_self}
use leetsheet.Prelude.Text.{str_eq, str_eq_iff}
use leetsheet.JobQueue.{
  pending, processing, failed, Job, Queue, Error, less, update, write, ready, place, accept, mend,
  enqueue, requeue, is_some,
}
use leetsheet.JobQueue.Heap.Arrays.{count, is}
use leetsheet.JobQueue.Heap.Laws.{IsHeapList, push_lem}
use leetsheet.JobQueue.Less.{less-IsOrder}
use leetsheet.JobQueue.Schedule.{
  IsSorted, insert_scheduled-eq-insert_sorted, insert_sorted-IsSorted, count-insert_sorted,
}
use mathlib.Core.Path.{ap₂, subst}
use leetsheet.JobQueue.Places.{
  waits, buried, registered, IsValid, heap_same, IsSorted-same, SameOn-absent, SameOn-key,
  update_self, update-other, all_same, other_same, self_changed,
}

pub not_known : (o : Option ℕ) → is_some o ≡ false → o ≡ none
unfolding is_some
not_known none h = refl
not_known (some x) h = cc

module _ {Any : Type 0} where
  -- The job at `p` waits by its status and stands in no list yet; all else is in its place.
  pub record IsHeld (q : Queue Any) (p : ℕ) : Type 0 where
    pub heap : IsHeapList (less q.jobs) q.pending_heap
    pub sorted : IsSorted q.jobs q.scheduled
    pub absent : count p q.pending_heap + count p q.scheduled ≡ 0
    pub here : waits (registered q p) (q.jobs p).status ≡ 1
    pub others :
        (x : ℕ)
        → (p == x) ≡ false
        → count x q.pending_heap + count x q.scheduled ≡ waits (registered q x) (q.jobs x).status
    pub lettered : (x : ℕ) → count x q.dlq ≡ buried (registered q x) (q.jobs x).status

  placed :
      (q : Queue Any) (p : ℕ)
      → IsHeld q p
      → (x : ℕ)
      → is p x + (count x q.pending_heap + count x q.scheduled)
        ≡ waits (registered q x) (q.jobs x).status
  placed q p v x = elim (Bool-cases (p == x)) [
    | inl e ↦ let at_p : p ≡ x = ground arith in rw (e, ← at_p) (omega (arith, v.absent, v.here))
    | inr e ↦ rw e (omega (arith, v.others x e))
  ]

  pub place-IsValid : (q : Queue Any) (p now : ℕ) → IsHeld q p → IsValid (place q p now)
  unfolding place
  place-IsValid q p now v = elim (Bool-cases (ready (q.jobs p) now)) [
    | inl e ↦
        let (heap, same, size) =
          push_lem (less q.jobs) (less-IsOrder q.jobs) q.pending_heap p v.heap in
        rw (e, place)
          (record {
            heap = heap;
            sorted = v.sorted;
            lettered = v.lettered;
            waiting = λ x. omega (arith, same x, placed q p v x);
          })
    | inr e ↦
        let same = insert_scheduled-eq-insert_sorted q.jobs q.scheduled p v.sorted in
        rw (e, place)
          (record {
            heap = v.heap;
            sorted = rw same (insert_sorted-IsSorted q.jobs p q.scheduled v.sorted);
            lettered = v.lettered;
            waiting = λ x. omega (
              arith,
              ap (count x) same,
              count-insert_sorted q.jobs x p q.scheduled,
              placed q p v x,
            );
          })
  ]

  -- A write through `p` that keeps the ID, the status and what Less reads moves nothing.
  pub write-IsValid :
      (q : Queue Any) (p : ℕ) (j : Job Any)
      → (q.jobs p).id ≡ j.id
      → (q.jobs p).status ≡ j.status
      → (q.jobs p).priority ≡ j.priority
      → (q.jobs p).run_at ≡ j.run_at
      → IsValid q
      → IsValid (write q p j)
  write-IsValid q p j same_id same_status same_priority same_run_at v = record {
    heap =
        heap_same q.jobs (update q.jobs p j) q.pending_heap
          (SameOn-key q.jobs p j q.pending_heap same_priority same_run_at) v.heap;
    sorted =
        IsSorted-same q.jobs (update q.jobs p j) q.scheduled
          (SameOn-key q.jobs p j q.scheduled same_priority same_run_at) v.sorted;
    waiting =
        λ x. v.waiting x ∙ all_same q p j same_id waits (ap (waits (registered q p)) same_status) x;
    lettered = λ x.
        v.lettered x ∙ all_same q p j same_id buried (ap (buried (registered q p)) same_status) x;
  }

  pub mend-IsValid : (q : Queue Any) (p : ℕ) → IsValid q → IsValid (mend q p)
  unfolding mend
  mend-IsValid q p v = elim (Bool-cases (leb_ℤ (q.jobs p).max_attempts (pos 0))) [
    | inl e ↦
        rw e (write-IsValid q p (record (q.jobs p) { max_attempts = pos 1 }) refl refl refl refl v)
    | inr e ↦ rw e v
  ]

  mend-id : (q : Queue Any) (p : ℕ) → ((mend q p).jobs p).id ≡ (q.jobs p).id
  unfolding mend
  mend-id q p = ground arith

  mend-all : (q : Queue Any) (p : ℕ) → (mend q p).all ≡ q.all
  unfolding mend
  mend-all q p = ground arith

  -- The queue that accept hands to place.
  abbrev pub entered : Queue Any → ℕ → ℕ → Queue Any
  entered q p now =
      let j = q.jobs p in
      record (write q p (record j {
        enqueued_at = now;
        run_at = if j.run_at == 0 then now else j.run_at;
        status = pending;
      })) { all = insert j.id p q.all }

  module _ (q : Queue Any) (p now : ℕ) (fresh : lookup (q.jobs p).id q.all ≡ none)
      (v : IsValid q) where
    pub unregistered : registered q p ≡ false
    unregistered = rw fresh

    nowhere : count p q.pending_heap + count p q.scheduled ≡ 0
    nowhere = v.waiting p ∙ ap (λ b. waits b (q.jobs p).status) unregistered

    pub registered-other :
        (x : ℕ) → (p == x) ≡ false → registered (entered q p now) x ≡ registered q x
    registered-other x e = rw e (elim (Bool-cases (str_eq (q.jobs p).id (q.jobs x).id)) [
      | inl same ↦
          let eq : (q.jobs p).id ≡ (q.jobs x).id =
            (str_eq_iff (q.jobs p).id (q.jobs x).id).0 same in
          rw (lookup-insert (q.jobs p).id (q.jobs x).id p q.all, same) (ground (arith, eq, fresh))
      | inr other ↦ rw (lookup-insert (q.jobs p).id (q.jobs x).id p q.all, other)
    ])

    pub registered_self : registered (entered q p now) p ≡ true
    registered_self =
        let self : (p == p) ≡ true = ground arith in
        rw (self, lookup-insert_self (q.jobs p).id p q.all) self

    buried_self :
        buried (registered q p) (q.jobs p).status
        ≡ buried (registered (entered q p now) p) ((entered q p now).jobs p).status
    buried_self =
        ap (λ b. buried b (q.jobs p).status) unregistered
        ∙ sym (ap₂ buried registered_self (ap (λ (j : Job Any). j.status) (update_self q.jobs p _)))

    entered-IsHeld : IsHeld (entered q p now) p
    entered-IsHeld = record {
      heap =
          heap_same q.jobs (entered q p now).jobs q.pending_heap
            (SameOn-absent q.jobs p _ q.pending_heap (omega (arith, nowhere))) v.heap;
      sorted =
          IsSorted-same q.jobs (entered q p now).jobs q.scheduled
            (SameOn-absent q.jobs p _ q.scheduled (omega (arith, nowhere))) v.sorted;
      absent = nowhere;
      here = ap₂ waits registered_self (ap (λ (j : Job Any). j.status) (update_self q.jobs p _));
      others = λ x e.
          v.waiting x
          ∙ ap₂ waits (sym (registered-other x e))
              (ap (λ (j : Job Any). j.status) (sym (update-other q.jobs p x _ e)));
      lettered = λ x. v.lettered x ∙ elim (Bool-cases (p == x)) [
        | inl e ↦
            let at_p : p ≡ x = ground arith in
            subst
              (λ y.
                buried (registered q y) (q.jobs y).status
                ≡ buried (registered (entered q p now) y) ((entered q p now).jobs y).status)
              at_p buried_self
        | inr e ↦
            ap₂ buried (sym (registered-other x e))
              (ap (λ (j : Job Any). j.status) (sym (update-other q.jobs p x _ e)))
      ];
    }

    accept-IsValid : (later : ℕ) → IsValid (accept q p now later)
    unfolding accept
    accept-IsValid later = place-IsValid (entered q p now) p later entered-IsHeld

  pub mend-lookup :
      (q : Queue Any) (p : ℕ)
      → lookup ((mend q p).jobs p).id (mend q p).all ≡ lookup (q.jobs p).id q.all
  mend-lookup q p = ap₂ lookup (mend-id q p) (mend-all q p)

  -- Enqueue keeps every job in its place, whatever it answers.
  pub enqueue-IsValid :
      (q : Queue Any) (p now later : ℕ) → IsValid q → IsValid (enqueue q p now later).0
  unfolding enqueue
  enqueue-IsValid q p now later v =
      let mended = mend-IsValid q p v in
      if-cases P (str_eq (q.jobs p).id []) (λ _. v)
        λ _.
          if-cases P (str_eq (q.jobs p).type []) (λ _. v)
            λ _.
              if-cases P q.closed (λ _. mended)
                λ _.
                  if-cases P (is_some (lookup (q.jobs p).id q.all)) (λ _. mended)
                    λ k.
                      accept-IsValid (mend q p) p now
                        (mend-lookup q p ∙ not_known (lookup (q.jobs p).id q.all) k) mended later
    where
      P : Queue Any × Option Error → Type 0
      P r = IsValid r.0

  -- The queue that requeue hands to place.
  abbrev pub retried : Queue Any → ℕ → ℤ → ℕ → Queue Any
  retried q p delay now =
      write q p (record (q.jobs p) { status = failed; run_at = pos_part (pos now +ℤ delay) })

  -- requeue of a job that is being processed keeps every job in its place.
  pub requeue-IsValid :
      (q : Queue Any) (p : ℕ) (delay : ℤ) (now later : ℕ)
      → IsValid q
      → registered q p ≡ true
      → (q.jobs p).status ≡ processing
      → IsValid (requeue q p delay now later)
  unfolding requeue
  requeue-IsValid q p delay now later v known busy =
      place-IsValid (retried q p delay now) p later (record {
        heap =
            heap_same q.jobs (retried q p delay now).jobs q.pending_heap
              (SameOn-absent q.jobs p j q.pending_heap (omega (arith, nowhere))) v.heap;
        sorted =
            IsSorted-same q.jobs (retried q p delay now).jobs q.scheduled
              (SameOn-absent q.jobs p j q.scheduled (omega (arith, nowhere))) v.sorted;
        absent = nowhere;
        here = self_changed q p j refl waits ∙ ap (λ b. waits b failed) known;
        others = λ x e. v.waiting x ∙ other_same q p j refl waits x e;
        lettered = λ x.
            v.lettered x
            ∙ all_same q p j refl buried
                (ap₂ buried known busy ∙ ap (λ b. buried b failed) (sym known)) x;
      })
    where
      j : Job Any
      j = record (q.jobs p) { status = failed; run_at = pos_part (pos now +ℤ delay) }

      nowhere : count p q.pending_heap + count p q.scheduled ≡ 0
      nowhere = v.waiting p ∙ ap₂ waits known busy
