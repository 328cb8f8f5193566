-- ===== src/Puzzles/Linked.antt =====
-- pkg/linked_list.go: insertion and deletion.
use leetsheet.Prelude.{
  ◌≡◌, ◌≢◌, refl, ap, true, false, List, [], ◌∷◌, ◌++◌, inl, inr, if◌then◌else◌, Bool-cases, All,
  arith,
}
use leetsheet.Prelude.Int.{ℤ, eqb_ℤ, eq_of_parts}

-- The values from Head on.
abbrev pub LinkedList : Type 0
LinkedList = List ℤ

pub insert_front : LinkedList → ℤ → LinkedList
insert_front l value = value ∷ l

-- The loop of InsertBack, at a node with a value: it walks to the last node.
insert_after : ℤ → LinkedList → ℤ → LinkedList
insert_after current [] value = current ∷ value ∷ []
insert_after current (next ∷ l) value = current ∷ insert_after next l value

pub insert_back : LinkedList → ℤ → LinkedList
unfolding insert_after
insert_back [] value = value ∷ []
insert_back (head ∷ l) value = insert_after head l value

-- The loop of Delete, at a node that stays: it walks until the next node has the value.
delete_after : ℤ → LinkedList → ℤ → LinkedList
delete_after current [] value = current ∷ []
delete_after current (next ∷ l) value =
    let rest = delete_after next l value in if eqb_ℤ next value then current ∷ l else current ∷ rest

pub delete : LinkedList → ℤ → LinkedList
unfolding delete_after
delete [] value = []
delete (head ∷ l) value = if eqb_ℤ head value then l else delete_after head l value

insert_after-append :
    (current : ℤ) (l : LinkedList) (value : ℤ)
    → insert_after current l value ≡ (current ∷ l) ++ (value ∷ [])
unfolding insert_after
insert_after-append current [] value = refl
insert_after-append current (next ∷ l) value =
    ap (λ r. current ∷ r) (insert_after-append next l value)

-- InsertBack puts the value after all others.
pub insert_back-append : (l : LinkedList) (value : ℤ) → insert_back l value ≡ l ++ (value ∷ [])
unfolding insert_back
insert_back-append [] value = refl
insert_back-append (head ∷ l) value = insert_after-append head l value

eqb_self : (a : ℤ) → eqb_ℤ a a ≡ true
eqb_self a = ground arith

eqb_ne : (a b : ℤ) → a ≢ b → eqb_ℤ a b ≡ false
eqb_ne a b h = elim (Bool-cases (eqb_ℤ a b)) [
  | inl e ↦ absurd (h (eq_of_parts a b (ground arith)))
  | inr e ↦ e
]

delete_after-first :
    (current : ℤ) (before after : LinkedList) (value : ℤ)
    → All (λ x. x ≢ value) before
    → delete_after current (before ++ (value ∷ after)) value ≡ current ∷ (before ++ after)
unfolding delete_after
delete_after-first current [] after value h = rw (eqb_self value) refl
delete_after-first current (x ∷ before) after value h =
    rw (eqb_ne x value h.0, delete_after-first x before after value h.1) refl

delete_after-absent :
    (current : ℤ) (l : LinkedList) (value : ℤ)
    → All (λ x. x ≢ value) l
    → delete_after current l value ≡ current ∷ l
unfolding delete_after
delete_after-absent current [] value h = refl
delete_after-absent current (x ∷ l) value h =
    rw (eqb_ne x value h.0, delete_after-absent x l value h.1) refl

-- Delete takes away the first node with the value, and none if there is none.
pub delete-first :
    (before after : LinkedList) (value : ℤ)
    → All (λ x. x ≢ value) before
    → (delete (before ++ (value ∷ after)) value ≡ before ++ after) × (delete before value ≡ before)
unfolding delete
delete-first [] after value h = (rw (eqb_self value) refl, refl)
delete-first (x ∷ before) after value h = (
  rw (eqb_ne x value h.0) (delete_after-first x before after value h.1),
  rw (eqb_ne x value h.0) (delete_after-absent x before value h.1),
)
