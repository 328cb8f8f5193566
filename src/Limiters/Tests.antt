-- ===== src/Limiters/Tests.antt =====
-- The limiters at concrete times.
use leetsheet.Prelude.{ℕ, ◌≡◌, List, [], ◌∷◌, some, arith}
use leetsheet.Limiters.{
  TokenBucket, new_token_bucket, FixedWindow, new_sliding_window, allow_sliding,
}
use leetsheet.Limiters.Bucket.{serve, Grants, serve-new_token_bucket}
use leetsheet.Limiters.Sliding.{answers, recall_allow, answers-sliding}

abbrev times : List ℕ
times = 11 ∷ 12 ∷ 13 ∷ 14 ∷ []

serve-new_token_bucket_example :
    (r : TokenBucket) × (n : ℕ) × (serve (new_token_bucket 2 1 2 10) times ≡ some (r, n))
    × Grants (new_token_bucket 2 1 2 10) 14 r n
serve-new_token_bucket_example =
    serve-new_token_bucket 2 1 2 10 14 times (omega arith)
      (omega arith, (omega arith, (omega arith, (omega arith, omega arith))))

abbrev fixed : FixedWindow
fixed = record { limit = 3; count = 0; window_size = 100; window_start = 10 }

answers-sliding_example :
    answers allow_sliding (new_sliding_window 2 2) times ≡ answers (recall_allow 2 2) [] times
answers-sliding_example =
    answers-sliding 2 2 10 times (omega arith, (omega arith, (omega arith, (omega arith, tt))))
