-- ===== src/Prelude/Maps.antt =====
-- Go's maps as association lists, over a key type whose `==` decides equality.
use leetsheet.Prelude.{
  ℕ, ◌≡◌, refl, ap, ◌∙◌, false, ◌⊎◌, inl, inr, Bool-cases, ◌≢◌, ◌↔◌, Bool, true, List, [], ◌∷◌,
  Option, none, some, arith, ◌==◌, ==_iff, if◌then◌else◌,
}
use leetsheet.Prelude.Int.{ℤ, eqb_ℤ, eqb_ℤ_iff}
use leetsheet.Prelude.Text.{Bytes, str_eq, str_eq_iff}

pub record Eq (K : Type 0) : Type 0 where
  pub beq : K → K → Bool
  pub beq_iff : (a b : K) → (beq a b ≡ true) ↔ (a ≡ b)

instance abbrev pub nat_eq : Eq ℕ
nat_eq = record { beq = ◌==◌; beq_iff = ==_iff }

instance abbrev pub bytes_eq : Eq Bytes
bytes_eq = record { beq = str_eq; beq_iff = str_eq_iff }

instance abbrev pub int_eq : Eq ℤ
int_eq = record { beq = eqb_ℤ; beq_iff = eqb_ℤ_iff }

module _ {ℓ} {K : Type 0} {V : Type ℓ} ⦃e : Eq K⦄ where
  -- `v, ok := m[k]`
  unfoldable pub lookup : K → List (K × V) → Option V
  lookup k [] = none
  lookup k ((j, v) ∷ m) = if e.beq j k then some v else lookup k m

  -- `m[k] = v`
  unfoldable pub insert : K → V → List (K × V) → List (K × V)
  insert k v [] = (k, v) ∷ []
  insert k v ((j, w) ∷ m) = if e.beq j k then (k, v) ∷ m else (j, w) ∷ insert k v m

  pub lookup-insert :
      (k j : K) (v : V) (m : List (K × V))
      → lookup j (insert k v m) ≡ (if e.beq k j then some v else lookup j m)
  unfolding lookup insert
  lookup-insert k j v [] = refl
  lookup-insert k j v ((i, w) ∷ m) =
      ground (arith, e.beq_iff k j, e.beq_iff i k, e.beq_iff i j, lookup-insert k j v m)

  pub lookup-insert_self : (k : K) (v : V) (m : List (K × V)) → lookup k (insert k v m) ≡ some v
  lookup-insert_self k v m = rw (lookup-insert k k v m, (e.beq_iff k k).1 refl)

  pub lookup-insert_ne :
      (k j : K) (v : V) (m : List (K × V)) → k ≢ j → lookup j (insert k v m) ≡ lookup j m
  lookup-insert_ne k j v m h = ground (arith, lookup-insert k j v m, e.beq_iff k j)

  -- A map after `m[k] = v`, at the key itself or at another.
  pub insert-cases :
      (k j : K) (v : V) (m : List (K × V))
      → ((k ≡ j) × (lookup j (insert k v m) ≡ some v))
        ⊎ ((k ≢ j) × (lookup j (insert k v m) ≡ lookup j m))
  insert-cases k j v m = elim (Bool-cases (e.beq k j)) [
    | inl h ↦
        inl (
          (e.beq_iff k j).0 h,
          lookup-insert k j v m ∙ ap (λ b. if b then some v else lookup j m) h,
        )
    | inr h ↦ inr (
      λ same. absurd (clash h ((e.beq_iff k j).1 same)),
      lookup-insert k j v m ∙ ap (λ b. if b then some v else lookup j m) h,
    )
  ]
    where
      clash : {b : Bool} → b ≡ false → b ≡ true → ⊥
      clash p q = cc
