-- ===== src/Puzzles/Predictions.antt =====
-- pkg/prediction_diff.go: the keys at which two JSON objects differ. json.Unmarshal into a map is a
-- parameter; the map is the list of its entries in the order in which `range` meets them.
use leetsheet.Prelude.{Bool, true, false, List, [], ◌∷◌, none, some, ltb, ◌==◌, if◌then◌else◌}
use leetsheet.Prelude.Maps.{lookup, bytes_eq}
use leetsheet.Prelude.Text.{Bytes, str_eq}

-- `<` on strings.
pub bytes_less : Bytes → Bytes → Bool
bytes_less s [] = false
bytes_less [] (b ∷ t) = true
bytes_less (a ∷ s) (b ∷ t) = if a == b then bytes_less s t else ltb a b

insert_key : Bytes → List Bytes → List Bytes
unfolding bytes_less
insert_key k [] = k ∷ []
insert_key k (j ∷ js) = if bytes_less j k then j ∷ insert_key k js else k ∷ j ∷ js

-- sort.Strings
pub sort_strings : List Bytes → List Bytes
unfolding insert_key
sort_strings [] = []
sort_strings (k ∷ ks) = insert_key k (sort_strings ks)

pub diff_keys : List (Bytes × Bytes) → List (Bytes × Bytes) → List Bytes
unfolding lookup
diff_keys map2 [] = []
diff_keys map2 ((key, val1) ∷ m) = elim (lookup key map2) [
  | none ↦ diff_keys map2 m
  | some val2 ↦ if str_eq val1 val2 then diff_keys map2 m else key ∷ diff_keys map2 m
]

-- GetPredictionDiff
unfoldable pub prediction_diff : (Bytes → List (Bytes × Bytes)) → Bytes → Bytes → List Bytes
unfolding sort_strings diff_keys
prediction_diff unmarshal pred1 pred2 = sort_strings (diff_keys (unmarshal pred2) (unmarshal pred1))
