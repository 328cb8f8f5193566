-- ===== src/PubSub/Close.antt =====
-- Close of system-design/pub-sub/pubsub.go, over the topics and their channels.
use leetsheet.Prelude.{
  ℕ, ◌≤◌, ◌<◌, ◌≡◌, refl, ap, ◌∙◌, true, false, List, [], ◌∷◌, some, inl, inr, arith, ◌==◌,
  Bool-cases,
}
use native.Mathlib.Decide.{dec_lt}
use leetsheet.Prelude.Text.{Bytes}
use leetsheet.JobQueue.Heap.Arrays.{count}
use leetsheet.PubSub.{Channel, PubSub, write_channel, close_channel, close_all, close_topics, close}
use leetsheet.PubSub.Valid.{IsValid, total}

module _ {Any : Type 0} where
  abbrev pub shut : Channel Any → Channel Any
  shut x = record x { is_closed = true }

  -- The memory after the channels that `n` counts have been closed, and no others.
  record IsShut (n : ℕ → ℕ) (channels after : ℕ → Channel Any) : Type 0 where
    closed : (c : ℕ) → 0 < n c → after c ≡ shut (channels c)
    kept : (c : ℕ) → n c ≡ 0 → after c ≡ channels c

  written :
      (channels : ℕ → Channel Any) (s c : ℕ)
      → (s == c) ≡ true
      → write_channel channels s (shut (channels s)) c ≡ shut (channels c)
  written channels s c e = let same : s ≡ c = ground (arith, e) in rw (e, ← same) refl

  unwritten :
      (channels : ℕ → Channel Any) (s c : ℕ) (x : Channel Any)
      → (s == c) ≡ false
      → write_channel channels s x c ≡ channels c
  unwritten channels s c x e = rw e refl

  close_all-IsShut :
      (channels : ℕ → Channel Any) (subs : List ℕ)
      → ((c : ℕ) → count c subs ≤ 1)
      → ((c : ℕ) → 0 < count c subs → (channels c).is_closed ≡ false)
      → (after : ℕ → Channel Any) × (close_all channels subs ≡ some after)
        × IsShut (λ c. count c subs) channels after
  unfolding close_all close_channel
  close_all-IsShut channels [] once listening =
      (channels, refl, record { closed = λ c h. absurd (omega arith); kept = λ c h. refl })
  close_all-IsShut channels (s ∷ subs) once listening =
      let open_here : (channels s).is_closed ≡ false = listening s (ground arith) in
      let next : ℕ → Channel Any = write_channel channels s (shut (channels s)) in
      let (after, made, v) =
        close_all-IsShut next subs (λ c. omega (arith, once c))
          (λ c h. ground (arith, h, once c, listening c)) in
      (
        after,
        rw (close_all, close_channel, open_here) made,
        record {
          closed = λ c h. elim (Bool-cases (s == c)) [
            | inl e ↦ v.kept c (ground (arith, e, once c)) ∙ written channels s c e
            | inr e ↦
                v.closed c (ground (arith, e, h))
                ∙ ap shut (unwritten channels s c (shut (channels s)) e)
          ];
          kept = λ c h.
              v.kept c (omega (arith, h))
              ∙ unwritten channels s c (shut (channels s)) (ground (arith, h));
        },
      )

  close_topics-IsShut :
      (channels : ℕ → Channel Any) (m : List (Bytes × List ℕ))
      → ((c : ℕ) → total c m ≤ 1)
      → ((c : ℕ) → 0 < total c m → (channels c).is_closed ≡ false)
      → (after : ℕ → Channel Any) × (close_topics channels m ≡ some after)
        × IsShut (λ c. total c m) channels after
  unfolding close_topics total
  close_topics-IsShut channels [] once listening =
      (channels, refl, record { closed = λ c h. absurd (omega arith); kept = λ c h. refl })
  close_topics-IsShut channels ((topic, subs) ∷ m) once listening =
      let (next, done, v) =
        close_all-IsShut channels subs (λ c. omega (arith, once c))
          (λ c h. listening c (omega (arith, h))) in
      let (after, made, w) =
        close_topics-IsShut next m (λ c. omega (arith, once c))
          (λ c h.
            ap (λ (x : Channel Any). x.is_closed) (v.kept c (omega (arith, h, once c)))
            ∙ listening c (omega (arith, h))) in
      (
        after,
        rw (close_topics, done) made,
        record {
          closed = λ c h. elim (dec_lt 0 (count c subs)) [
            | yes here ↦ w.kept c (omega (arith, here, once c)) ∙ v.closed c here
            | no away ↦
                w.closed c (omega (arith, h, away)) ∙ ap shut (v.kept c (omega (arith, away)))
          ];
          kept = λ c h. w.kept c (omega (arith, h)) ∙ v.kept c (omega (arith, h));
        },
      )

  -- What Close makes of a broker: no channel is subscribed, those that were are closed, and every
  -- other channel is as it was.
  pub record Closed (ps ps' : PubSub Any) : Type 0 where
    pub nobody : ps'.subscribers ≡ []
    pub same_made : ps'.made ≡ ps.made
    pub closed : (c : ℕ) → 0 < total c ps.subscribers → (ps'.channels c).is_closed ≡ true
    pub kept : (c : ℕ) → total c ps.subscribers ≡ 0 → ps'.channels c ≡ ps.channels c

  -- On a valid broker Close does not panic: it closes each subscribed channel once, and no other.
  pub close-Closed :
      (ps : PubSub Any) → IsValid ps → (ps' : PubSub Any) × (close ps ≡ some ps') × Closed ps ps'
  unfolding close
  close-Closed ps v =
      let (after, done, w) = close_topics-IsShut ps.channels ps.subscribers v.once v.listening in
      (
        record ps { subscribers = []; channels = after },
        rw (close, done) refl,
        record {
          nobody = refl;
          same_made = refl;
          closed = λ c h. ap (λ (x : Channel Any). x.is_closed) (w.closed c h);
          kept = w.kept;
        },
      )
