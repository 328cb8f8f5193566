-- ===== src/PubSub/Deliver.antt =====
-- What Publish delivers.
use leetsheet.Prelude.{
  ℕ, ◌≤◌, ◌<◌, ◌≡◌, refl, ap, ◌∙◌, true, false, List, [], ◌∷◌, ◌++◌, none, some, inl, inr, arith,
  ltb, ◌==◌, if◌then◌else◌, length, Bool-cases,
}
use leetsheet.Prelude.Text.{Bytes}
use leetsheet.JobQueue.Heap.Arrays.{count}
use leetsheet.PubSub.{
  Message, Channel, PubSub, subs_of, write_channel, unsubscribe, snapshot, send, deliver, publish,
}
use leetsheet.PubSub.Valid.{IsValid, count-subs_of, unsubscribe-Left}

module _ {Any : Type 0} where
  -- A channel after a send that does not block: the message is dropped if the buffer is full.
  abbrev pub received : ℕ → Message Any → Channel Any → Channel Any
  received size msg x =
      if ltb (length x.buffer) size then record x { buffer = x.buffer ++ (msg ∷ []) } else x

  abbrev pub delivered : ℕ → Message Any → List ℕ → Channel Any → ℕ → Channel Any
  delivered size msg subs x c = if ltb 0 (count c subs) then received size msg x else x

  send-received :
      (size : ℕ) (channels : ℕ → Channel Any) (c : ℕ) (msg : Message Any)
      → (channels c).is_closed ≡ false
      → (channels' : ℕ → Channel Any) × (send size channels c msg ≡ some channels')
        × ((d : ℕ) → channels' d ≡ (if c == d then received size msg (channels d) else channels d))
  unfolding send
  send-received size channels c msg h = elim (Bool-cases (ltb (length (channels c).buffer) size)) [
    | inl room ↦ (
      write_channel channels c (record (channels c) { buffer = (channels c).buffer ++ (msg ∷ []) }),
      rw (h, room) refl,
      λ d. at_self d room,
    )
    | inr full ↦ (channels, rw (h, full) refl, λ d. unchanged d full)
  ]
    where
      at_self :
          (d : ℕ)
          → ltb (length (channels c).buffer) size ≡ true
          → write_channel channels c
              (record (channels c) { buffer = (channels c).buffer ++ (msg ∷ []) })
              d
            ≡ (if c == d then received size msg (channels d) else channels d)
      at_self d room = elim (Bool-cases (c == d)) [
        | inl e ↦ let same : c ≡ d = ground arith in rw (e, ← same, room) refl
        | inr e ↦ rw e refl
      ]

      unchanged :
          (d : ℕ)
          → ltb (length (channels c).buffer) size ≡ false
          → channels d ≡ (if c == d then received size msg (channels d) else channels d)
      unchanged d full = elim (Bool-cases (c == d)) [
        | inl e ↦ let same : c ≡ d = ground arith in rw (e, ← same, full) refl
        | inr e ↦ rw e refl
      ]

  pub received-open :
      (size : ℕ) (msg : Message Any) (x : Channel Any)
      → (received size msg x).is_closed ≡ x.is_closed
  received-open size msg x = ground arith

  deliver-delivered :
      (size : ℕ) (channels : ℕ → Channel Any) (subs : List ℕ) (msg : Message Any)
      → ((c : ℕ) → count c subs ≤ 1)
      → ((c : ℕ) → 0 < count c subs → (channels c).is_closed ≡ false)
      → (channels' : ℕ → Channel Any) × (deliver size channels subs msg ≡ some channels')
        × ((c : ℕ) → channels' c ≡ delivered size msg subs (channels c) c)
  unfolding deliver
  deliver-delivered size channels [] msg once open_all = (channels, refl, λ c. refl)
  deliver-delivered size channels (s ∷ subs) msg once open_all =
      let (channels1, sent, first) =
        send-received size channels s msg (open_all s (ground arith)) in
      let (channels2, rest, others) =
        deliver-delivered size channels1 subs msg (λ c. ground (arith, once c))
          (λ c h. still_open channels1 first c h) in
      (channels2, rw (deliver, sent) rest, λ c. others c ∙ combine channels1 first c)
    where
      still_open :
          (channels1 : ℕ → Channel Any)
          → ((d : ℕ)
              → channels1 d ≡ (if s == d then received size msg (channels d) else channels d))
          → (c : ℕ) → 0 < count c subs
          → (channels1 c).is_closed ≡ false
      still_open channels1 first c h =
          let elsewhere : (s == c) ≡ false = ground (arith, once c) in
          ap (λ (x : Channel Any). x.is_closed) (first c) ∙ rw elsewhere (open_all c (ground arith))

      combine :
          (channels1 : ℕ → Channel Any)
          → ((d : ℕ)
              → channels1 d ≡ (if s == d then received size msg (channels d) else channels d))
          → (c : ℕ)
          → delivered size msg subs (channels1 c) c ≡ delivered size msg (s ∷ subs) (channels c) c
      combine channels1 first c = elim (Bool-cases (s == c)) [
        | inl e ↦
            let nowhere : ltb 0 (count c subs) ≡ false = ground (arith, once c) in
            let here : ltb 0 (count c (s ∷ subs)) ≡ true = ground arith in
            rw (nowhere, here, first c, e) refl
        | inr e ↦
            let same : ltb 0 (count c (s ∷ subs)) ≡ ltb 0 (count c subs) = ground arith in
            rw (same, first c, e) refl
      ]

  publish-done :
      (ps : PubSub Any) (topic : Bytes) (payload : Any) (now : ℕ) (channels : ℕ → Channel Any)
      → deliver ps.buf_size ps.channels
          (subs_of ps.subscribers topic)
          (record { topic = topic; payload = payload; timestamp = now })
        ≡ some channels
      → publish ps topic payload now ≡ some (record ps { channels = channels })
  unfolding publish snapshot
  publish-done ps topic payload now channels h = rw (publish, h) refl

  -- On a valid broker Publish does not panic if nothing comes between: every subscriber of the topic
  -- gets the message at the end of its buffer, or not at all if that is full, and nothing else
  -- changes.
  pub publish-delivered :
      (ps : PubSub Any) (topic : Bytes) (payload : Any) (now : ℕ)
      → IsValid ps
      → (channels : ℕ → Channel Any) × (publish ps topic payload now
          ≡ some (record ps { channels = channels }))
        × ((c : ℕ)
            → channels c
              ≡ delivered ps.buf_size
                  (record { topic = topic; payload = payload; timestamp = now })
                  (subs_of ps.subscribers topic)
                  (ps.channels c)
                  c)
  unfolding publish snapshot
  publish-delivered ps topic payload now v =
      let msg : Message Any = record { topic = topic; payload = payload; timestamp = now } in
      let (channels, done, each) =
        deliver-delivered ps.buf_size ps.channels (subs_of ps.subscribers topic) msg
          (λ c. omega (arith, v.once c, count-subs_of c topic ps.subscribers))
          (λ c h. v.listening c (omega (arith, count-subs_of c topic ps.subscribers))) in
      (channels, publish-done ps topic payload now channels done, each)

  deliver-closed :
      (size : ℕ) (channels : ℕ → Channel Any) (subs : List ℕ) (msg : Message Any) (c : ℕ)
      → 0 < count c subs
      → (channels c).is_closed ≡ true
      → deliver size channels subs msg ≡ none
  unfolding deliver
  deliver-closed size channels [] msg c h shut = absurd (omega arith)
  deliver-closed size channels (s ∷ subs) msg c h shut = elim (Bool-cases (channels s).is_closed) [
    | inl e ↦ rw (deliver, send, e) refl
    | inr e ↦
        let (channels1, sent, first) = send-received size channels s msg e in
        let later : 0 < count c subs = ground (arith, first c) in
        rw (deliver, sent)
          (deliver-closed size channels1 subs msg c later (still_shut channels1 first))
  ]
    where
      still_shut :
          (channels1 : ℕ → Channel Any)
          → ((d : ℕ)
              → channels1 d ≡ (if s == d then received size msg (channels d) else channels d))
          → (channels1 c).is_closed ≡ true
      still_shut channels1 first = elim (Bool-cases (s == c)) [
        | inl e ↦
            ap (λ (x : Channel Any). x.is_closed) (first c)
            ∙ rw e (received-open size msg (channels c) ∙ shut)
        | inr e ↦ ap (λ (x : Channel Any). x.is_closed) (first c) ∙ rw e shut
      ]

  -- If a subscriber of the topic unsubscribes after Publish has copied the subscribers and before it
  -- delivers, Publish panics: it sends to the closed channel.
  pub publish_after_unsubscribe :
      (ps : PubSub Any) (topic : Bytes) (ch : ℕ) (msg : Message Any)
      → IsValid ps
      → 0 < count ch (subs_of ps.subscribers topic)
      → (ps' : PubSub Any) × (unsubscribe ps topic ch ≡ some ps')
        × (deliver ps'.buf_size ps'.channels (snapshot ps topic) msg ≡ none)
  unfolding snapshot
  publish_after_unsubscribe ps topic ch msg v h =
      let (ps', done, left) = unsubscribe-Left ps topic ch v in
      (
        ps',
        done,
        deliver-closed ps'.buf_size ps'.channels (subs_of ps.subscribers topic) msg ch h
            (left.gone h).0,
      )
