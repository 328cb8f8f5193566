-- ===== src/PubSub/Life.antt =====
-- Histories of a broker (system-design/pub-sub/pubsub.go): calls of its functions one after another.
use leetsheet.Prelude.{
  ℕ, ◌+◌, ◌<◌, ◌≡◌, refl, sym, ap, ◌∙◌, true, List, [], ◌∷◌, ◌++◌, Option, none, some, inl, inr,
  arith, ltb, ◌==◌, if-cases, Bool-cases,
}
use native.Mathlib.Decide.{dec_lt}
use leetsheet.Prelude.Int.{ℤ}
use leetsheet.Prelude.Text.{Bytes}
use leetsheet.Prelude.Maps.{insert, bytes_eq}
use leetsheet.JobQueue.Heap.Arrays.{count, is, count-append}
use leetsheet.PubSub.{
  Message, Channel, PubSub, subs_of, new_pub_sub, subscribe, unsubscribe, publish, close,
}
use leetsheet.PubSub.Valid.{
  IsValid, Left, total, total-insert, new_pub_sub-IsValid, subscribe-IsValid, unsubscribe-Left,
}
use leetsheet.PubSub.Deliver.{delivered, received-open, publish-delivered}
use leetsheet.PubSub.Close.{Closed, close-Closed}

-- A call by a user of the broker.
pub data Call (Any : Type 0) : Type 0 where
  subscribing : Bytes → Call Any
  unsubscribing : Bytes → ℕ → Call Any
  publishing : Bytes → Any → ℕ → Call Any
  closing : Call Any

module _ {Any : Type 0} where
  pub perform : PubSub Any → Call Any → Option (PubSub Any)
  unfolding subscribe
  perform ps (subscribing topic) = some (subscribe ps topic).0
  perform ps (unsubscribing topic ch) = unsubscribe ps topic ch
  perform ps (publishing topic payload now) = publish ps topic payload now
  perform ps closing = close ps

  unfoldable pub run : PubSub Any → List (Call Any) → Option (PubSub Any)
  unfolding perform
  run ps [] = some ps
  run ps (call ∷ calls) = elim (perform ps call) [ none ↦ none | some ps' ↦ run ps' calls ]

  -- A valid broker that has closed every channel it made and that is subscribed no more.
  pub record IsSettled (ps : PubSub Any) : Type 0 where
    pub valid : IsValid ps
    pub dropped :
        (c : ℕ) → c < ps.made → total c ps.subscribers ≡ 0 → (ps.channels c).is_closed ≡ true

  abbrev Goes : PubSub Any → Option (PubSub Any) → Type 0
  Goes ps o = (ps' : PubSub Any) × (o ≡ some ps') × IsSettled ps'

  subscribe-IsSettled :
      (ps : PubSub Any) (topic : Bytes) → IsSettled ps → IsSettled (subscribe ps topic).0
  unfolding subscribe
  subscribe-IsSettled ps topic v = record {
    valid = (subscribe-IsValid ps topic v.valid).0;
    dropped = λ c h none_left. ground (arith, grown c, v.dropped c, h, none_left);
  }
    where
      grown :
          (c : ℕ)
          → total c (insert topic (subs_of ps.subscribers topic ++ (ps.made ∷ [])) ps.subscribers)
            ≡ total c ps.subscribers + is ps.made c
      grown c = omega (
        arith,
        total-insert c topic (subs_of ps.subscribers topic ++ (ps.made ∷ [])) ps.subscribers,
        count-append c (subs_of ps.subscribers topic) (ps.made ∷ []),
      )

  Left-IsSettled :
      (ps ps' : PubSub Any) (topic : Bytes) (ch : ℕ)
      → IsSettled ps
      → Left ps topic ch ps'
      → IsSettled ps'
  Left-IsSettled ps ps' topic ch v l = record {
    valid = l.valid;
    dropped = λ c h none_left. elim (Bool-cases (ch == c)) [
      | inl e ↦
          let same : ch ≡ c = ground (arith, e) in
          elim (dec_lt 0 (count ch (subs_of ps.subscribers topic))) [
            | yes there ↦ ap (λ d. (ps'.channels d).is_closed) (sym same) ∙ (l.gone there).0
            | no away ↦
                let kept : ps' ≡ ps = l.stayed (omega arith) in
                ap (λ (q : PubSub Any). (q.channels c).is_closed) kept
                ∙ v.dropped c (omega (arith, h, l.same_made))
                    (ap (λ (q : PubSub Any). total c q.subscribers) (sym kept) ∙ none_left)
          ]
      | inr e ↦
          let (still, unchanged) = l.others c (ground (arith, e)) in
          ap (λ (x : Channel Any). x.is_closed) unchanged
          ∙ v.dropped c (omega (arith, h, l.same_made)) (sym still ∙ none_left)
    ];
  }

  delivered-open :
      (size : ℕ) (msg : Message Any) (subs : List ℕ) (x : Channel Any) (c : ℕ)
      → (delivered size msg subs x c).is_closed ≡ x.is_closed
  delivered-open size msg subs x c =
      if-cases (λ (y : Channel Any). y.is_closed ≡ x.is_closed) (ltb 0 (count c subs))
        (λ _. received-open size msg x) (λ _. refl)

  publish-IsSettled :
      (ps : PubSub Any) (topic : Bytes) (payload : Any) (now : ℕ)
      → IsSettled ps
      → Goes ps (publish ps topic payload now)
  publish-IsSettled ps topic payload now v =
      let msg : Message Any = record { topic = topic; payload = payload; timestamp = now } in
      let (channels, done, each) = publish-delivered ps topic payload now v.valid in
      let kept = λ (c : ℕ).
        ap (λ (x : Channel Any). x.is_closed) (each c)
        ∙ delivered-open ps.buf_size msg (subs_of ps.subscribers topic) (ps.channels c) c in
      (
        record ps { channels = channels },
        done,
        record {
          valid = record {
            once = v.valid.once;
            listening = λ c h. kept c ∙ v.valid.listening c h;
            known = v.valid.known;
          };
          dropped = λ c h n. kept c ∙ v.dropped c h n;
        },
      )

  Closed-IsSettled : (ps ps' : PubSub Any) → IsSettled ps → Closed ps ps' → IsSettled ps'
  unfolding total
  Closed-IsSettled ps ps' v l = record {
    valid = record {
      once = λ c. omega (arith, nobody c);
      listening = λ c h. absurd (omega (arith, nobody c));
      known = λ c h. absurd (omega (arith, nobody c));
    };
    dropped = λ c h _. elim (dec_lt 0 (total c ps.subscribers)) [
      | yes there ↦ l.closed c there
      | no away ↦
          ap (λ (x : Channel Any). x.is_closed) (l.kept c (omega arith))
          ∙ v.dropped c (omega (arith, h, l.same_made)) (omega arith)
    ];
  }
    where
      nobody : (c : ℕ) → total c ps'.subscribers ≡ 0
      nobody c = ap (total c) l.nobody

  perform-IsSettled : (ps : PubSub Any) (call : Call Any) → IsSettled ps → Goes ps (perform ps call)
  unfolding perform
  perform-IsSettled ps (subscribing topic) v =
      ((subscribe ps topic).0, refl, subscribe-IsSettled ps topic v)
  perform-IsSettled ps (unsubscribing topic ch) v =
      let (ps', done, l) = unsubscribe-Left ps topic ch v.valid in
      (ps', done, Left-IsSettled ps ps' topic ch v l)
  perform-IsSettled ps (publishing topic payload now) v = publish-IsSettled ps topic payload now v
  perform-IsSettled ps closing v =
      let (ps', done, l) = close-Closed ps v.valid in (ps', done, Closed-IsSettled ps ps' v l)

  run-IsSettled :
      (ps : PubSub Any) (calls : List (Call Any)) → IsSettled ps → Goes ps (run ps calls)
  unfolding run
  run-IsSettled ps [] v = (ps, refl, v)
  run-IsSettled ps (call ∷ calls) v =
      let (ps', done, v') = perform-IsSettled ps call v in
      let (end, rest, v'') = run-IsSettled ps' calls v' in (end, rw (run, done) rest, v'')

  -- No history of calls, one after another, makes a new broker panic, also not after Close; and at
  -- its end each channel that was ever handed out is open if it is subscribed, to one topic and once,
  -- and closed if not, so that no reader waits on a channel that nobody will send to or close.
  pub run-new_pub_sub :
      (size : ℤ) (calls : List (Call Any))
      → (ps : PubSub Any) × (run (new_pub_sub size) calls ≡ some ps) × IsSettled ps
  unfolding new_pub_sub
  run-new_pub_sub size calls =
      run-IsSettled (new_pub_sub size) calls
        (record { valid = new_pub_sub-IsValid size; dropped = λ c h. absurd (omega arith) })
