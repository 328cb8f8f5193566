-- ===== src/Puzzles/Numbers.antt =====
-- pkg/binary_gap.go, pkg/reverse_int.go, pkg/stepwise_structure.go, pkg/fee_waiver.go, pkg/case_diff.go
-- and pkg/zigzag.go. Sums and products stay far below 64 bits for the inputs of these exercises.
pub mod Digits
use leetsheet.Prelude.{
  ℕ, zero, suc, ◌+◌, ◌-◌, ◌*◌, ◌/◌, ◌%◌, ◌^◌, ◌<◌, ◌≤◌, ◌≡◌, refl, sym, ap, ◌∙◌, Bool, true, false,
  not, ◌&&◌, ◌||◌, List, [], ◌∷◌, ◌++◌, Option, none, some, arith, ltb, leb, ◌==◌, if◌then◌else◌,
  length, replicate, get_elem?, set,
}
use leetsheet.Prelude.Int.{ℤ, pos, negsuc, pos_part, neg_part, ◌+ℤ◌, ◌-ℤ◌, ltb_ℤ, leb_ℤ, eqb_ℤ}
use leetsheet.Prelude.Text.{Bytes}

-- The loop of BinaryGap, with fuel `n`: each round halves it.
pub gap_loop : ℕ → ℕ → ℕ → ℕ → Bool → ℕ
gap_loop zero n longest current found = longest
gap_loop (suc k) n longest current found =
    let odd = n % 2 == 1 in
    let rest =
      gap_loop k (n / 2) (if odd && found && ltb longest current then current else longest)
        (if odd then 0 else if found then current + 1 else current) (odd || found) in
    if ltb 0 n then rest else longest

unfoldable pub binary_gap : ℤ → ℕ
unfolding gap_loop
binary_gap (pos n) = gap_loop n n 0 0 false
binary_gap (negsuc n) = 0

-- Go's `x / 10` and `x % 10`, which round towards 0.
pub quotient : ℤ → ℤ
quotient (pos n) = pos (n / 10)
quotient (negsuc n) = pos 0 -ℤ pos (suc n / 10)

pub remainder : ℤ → ℤ
remainder (pos n) = pos (n % 10)
remainder (negsuc n) = pos 0 -ℤ pos (suc n % 10)

abbrev pub times_ten : ℤ → ℤ
times_ten x = pos (10 * pos_part x) -ℤ pos (10 * neg_part x)

-- Whether the next digit would take the result out of 32 bits, by the two tests of the source.
pub overflows : ℤ → ℤ → Bool
overflows rev digit =
    ltb_ℤ (pos 214_748_364) rev
    || (eqb_ℤ rev (pos 214_748_364) && ltb_ℤ (pos 7) digit)
    || (ltb_ℤ rev (negsuc 214_748_363)
        || (eqb_ℤ rev (negsuc 214_748_363) && ltb_ℤ digit (negsuc 7)))

-- The loop of Reverse, with the size of `x` as fuel: each round divides it by 10.
pub reverse_digits : ℕ → ℤ → ℤ → ℤ
unfolding quotient remainder overflows
reverse_digits zero x rev = rev
reverse_digits (suc k) x rev =
    let digit = remainder x in
    let rest = reverse_digits k (quotient x) (times_ten rev +ℤ digit) in
    if eqb_ℤ x (pos 0) then rev else if overflows rev digit then pos 0 else rest

-- Reverse
unfoldable pub reverse_int : ℤ → ℤ
unfolding reverse_digits
reverse_int x = reverse_digits (pos_part x + neg_part x) x (pos 0)

-- The loop for baseAsc, and with a sign for baseDesc: the largest of `structures[i] - i`.
pub base_asc : ℤ → ℕ → List ℤ → ℤ
base_asc base i [] = base
base_asc base i (x ∷ xs) =
    let val = x -ℤ pos i in base_asc (if ltb_ℤ base val then val else base) (suc i) xs

pub base_desc : ℤ → ℕ → List ℤ → ℤ
base_desc base i [] = base
base_desc base i (x ∷ xs) =
    let val = x +ℤ pos i in base_desc (if ltb_ℤ base val then val else base) (suc i) xs

pub cost_asc : ℤ → ℤ → ℕ → List ℤ → ℤ
cost_asc base cost i [] = cost
cost_asc base cost i (x ∷ xs) = cost_asc base (cost +ℤ ((base +ℤ pos i) -ℤ x)) (suc i) xs

pub cost_desc : ℤ → ℤ → ℕ → List ℤ → ℤ
cost_desc base cost i [] = cost
cost_desc base cost i (x ∷ xs) = cost_desc base (cost +ℤ ((base -ℤ pos i) -ℤ x)) (suc i) xs

-- `-1 << 60`
abbrev pub lowest : ℤ
lowest = negsuc (2 ^ 60 - 1)

-- MinOperations
unfoldable pub min_operations : List ℤ → ℤ
unfolding base_asc base_desc cost_asc cost_desc
min_operations xs =
    let asc = cost_asc (base_asc lowest 0 xs) (pos 0) 0 xs in
    let desc = cost_desc (base_desc lowest 0 xs) (pos 0) 0 xs in
    if ltb_ℤ asc desc then asc else desc

-- The loop over the payments of a month: how many are negative, and their sum without the sign.
pub payments : List ℤ → ℕ → ℕ → ℕ × ℕ
payments [] neg_count neg_sum = (neg_count, neg_sum)
payments (v ∷ txs) neg_count neg_sum =
    if ltb_ℤ v (pos 0)
    then payments txs (neg_count + 1) (neg_sum + neg_part v)
    else payments txs neg_count neg_sum

pub fee : List ℤ → ℕ
unfolding payments
fee txs =
    let (neg_count, neg_sum) = payments txs 0 0 in
    if leb 3 neg_count && leb 100 neg_sum then 0 else 5

-- MonthlyFee, without what it prints; the nil slice is the empty list.
unfoldable pub monthly_fee : List (List ℤ) → ℕ → ℕ
unfolding fee
monthly_fee [] total = total
monthly_fee (txs ∷ months) total = monthly_fee months (total + fee txs)

-- CaseDiff, on the code points of the text.
pub case_loop : List ℕ → ℕ → ℕ → ℤ
case_loop [] upper lower = pos upper -ℤ pos lower
case_loop (ch ∷ s) upper lower =
    if leb 65 ch && leb ch 90 then case_loop s (upper + 1) lower else case_loop s upper (lower + 1)

unfoldable pub case_diff : List ℕ → ℤ
unfolding case_loop
case_diff s = case_loop s 0 0

-- The row of the zigzag for an index.
pub row_of : ℕ → ℕ → ℕ
row_of num_rows i =
    let cycle = 2 * num_rows - 2 in
    let place = i % cycle in if ltb place num_rows then place else cycle - place

-- `rows[row] += string(s[i])`, where string of a byte from 128 on would be two bytes.
append_to : List Bytes → ℕ → ℕ → Option Bytes → Option (List Bytes)
append_to rows row c none = none
append_to rows row c (some text) = some (set rows row (text ++ (c ∷ [])))

pub zigzag_loop : ℕ → List Bytes → ℕ → Bytes → Option (List Bytes)
unfolding row_of append_to
zigzag_loop num_rows rows i [] = some rows
zigzag_loop num_rows rows i (c ∷ s) =
    let row = row_of num_rows i in
    elim (append_to rows row c (get_elem? rows row)) [
      | none ↦ none
      | some written ↦ zigzag_loop num_rows written (suc i) s
    ]

pub join_rows : List Bytes → Bytes
join_rows [] = []
join_rows (r ∷ rows) = r ++ join_rows rows

-- Convert, for ASCII texts and at least one row.
unfoldable pub convert : Bytes → ℕ → Option Bytes
unfolding zigzag_loop join_rows
convert s num_rows =
    if num_rows == 1 then some s else elim (zigzag_loop num_rows (replicate num_rows []) 0 s) [
      | none ↦ none
      | some rows ↦ some (join_rows rows)
    ]
