-- ===== src/PubSub/Valid.antt =====
-- The invariant of the broker: every channel that is subscribed is open, and is subscribed once.
use leetsheet.Prelude.{
  ℕ, suc, ◌+◌, ◌-◌, ◌≤◌, ◌<◌, ◌≡◌, ◌≢◌, refl, ap, true, false, List, [], ◌∷◌, ◌++◌, none, some, inl,
  inr, arith, ◌==◌, length, length-set, set, Bool-cases, Option-cases,
}
use mathlib.Core.Path.{subst}
use leetsheet.Prelude.Int.{ℤ}
use leetsheet.Prelude.Maps.{lookup, insert, bytes_eq}
use leetsheet.Prelude.Text.{Bytes, str_eq}
use leetsheet.JobQueue.Heap.{at}
use leetsheet.JobQueue.Heap.Arrays.{count, is, count-append, count-set, at-set}
use leetsheet.JobQueue.Heap.Laws.{count-take}
use leetsheet.JobQueue.Places.{count-at}
use leetsheet.PubSub.{
  PubSub, subs_of, find_sub, swap_out, write_channel, new_pub_sub, subscribe, close_channel,
  unsubscribe,
}

-- How often a channel is subscribed, to all topics together.
unfoldable pub total : ℕ → List (Bytes × List ℕ) → ℕ
total c [] = 0
total c ((topic, subs) ∷ m) = count c subs + total c m

pub total-insert :
    (c : ℕ) (topic : Bytes) (subs : List ℕ) (m : List (Bytes × List ℕ))
    → total c (insert topic subs m) + count c (subs_of m topic) ≡ total c m + count c subs
unfolding total insert lookup subs_of
total-insert c topic subs [] = omega arith
total-insert c topic subs ((t, old) ∷ m) = elim (Bool-cases (str_eq t topic)) [
  | inl e ↦ rw (subs_of, e) (omega arith)
  | inr e ↦ rw (subs_of, e) (omega (arith, total-insert c topic subs m))
]

pub count-subs_of :
    (c : ℕ) (topic : Bytes) (m : List (Bytes × List ℕ)) → count c (subs_of m topic) ≤ total c m
count-subs_of c topic m = omega (arith, total-insert c topic [] m)

-- The index that is found is the channel's.
find_sub-at :
    (subs : List ℕ) (ch i : ℕ) → find_sub subs ch ≡ some i → (i < length subs) × (at subs i ≡ ch)
unfolding find_sub
find_sub-at [] ch i h = absurd (ground arith)
find_sub-at (s ∷ subs) ch i h = elim (Bool-cases (s == ch)) [
  | inl e ↦ ground (arith, h)
  | inr e ↦ elim (Option-cases (find_sub subs ch)) [
    | inl missing ↦ absurd (ground (arith, missing, e))
    | inr (j, found) ↦
        let (inside, there) = find_sub-at subs ch j found in
        let next : suc j ≡ i = ground (arith, found, e) in
        subst (λ k. (k < length (s ∷ subs)) × (at (s ∷ subs) k ≡ ch)) next (omega arith, there)
  ]
]

find_sub-none : (subs : List ℕ) (ch : ℕ) → find_sub subs ch ≡ none → count ch subs ≡ 0
unfolding find_sub
find_sub-none [] ch h = refl
find_sub-none (s ∷ subs) ch h = elim (Bool-cases (s == ch)) [
  | inl e ↦ absurd (ground (arith, h, e))
  | inr e ↦ elim (Option-cases (find_sub subs ch)) [
    | inl missing ↦ ground (arith, e, find_sub-none subs ch missing)
    | inr (j, found) ↦ absurd (ground (arith, h, e, found))
  ]
]

count-swap_out :
    (c : ℕ) (subs : List ℕ) (i : ℕ)
    → i < length subs
    → count c (swap_out subs i) + is (at subs i) c ≡ count c subs
unfolding swap_out
count-swap_out c subs i h =
    let b = set subs i (at subs (length subs - 1)) in
    let long : length b ≡ suc (length subs - 1) =
      omega (arith, length-set {0} subs i (at subs (length subs - 1))) in
    ground (
      arith,
      count-take c (length subs - 1) b long,
      count-set c subs i (at subs (length subs - 1)) h,
      at-set subs i (length subs - 1) (at subs (length subs - 1)) h,
    )

module _ {Any : Type 0} where
  -- Every channel that is subscribed to a topic is open, was made, and is subscribed once.
  pub record IsValid (ps : PubSub Any) : Type 0 where
    pub once : (c : ℕ) → total c ps.subscribers ≤ 1
    pub listening : (c : ℕ) → 0 < total c ps.subscribers → (ps.channels c).is_closed ≡ false
    pub known : (c : ℕ) → 0 < total c ps.subscribers → c < ps.made

  pub new_pub_sub-IsValid : (size : ℤ) → IsValid (new_pub_sub {Any = Any} size)
  unfolding new_pub_sub total
  new_pub_sub-IsValid size = record {
    once = λ c. omega arith;
    listening = λ c h. refl;
    known = λ c h. absurd (omega arith);
  }

  -- Subscribe keeps the broker valid; its channel is open, new, and subscribed to the topic.
  pub subscribe-IsValid :
      (ps : PubSub Any) (topic : Bytes)
      → IsValid ps
      → let (ps', ch) = subscribe ps topic in
        IsValid ps'
        × (total ch ps.subscribers ≡ 0)
        × (total ch ps'.subscribers ≡ 1)
        × ((ps'.channels ch).is_closed ≡ false)
  unfolding subscribe
  subscribe-IsValid ps topic v = (
    record {
      once = λ c. ground (arith, grown c, v.once c, v.known c);
      listening = λ c h. ground (arith, grown c, v.listening c);
      known = λ c h. ground (arith, grown c, v.known c);
    },
    fresh,
    ground (arith, grown ps.made, fresh),
    ground arith,
  )
    where
      fresh : total ps.made ps.subscribers ≡ 0
      fresh = ground (arith, v.known ps.made)

      grown :
          (c : ℕ)
          → total c (insert topic (subs_of ps.subscribers topic ++ (ps.made ∷ [])) ps.subscribers)
            ≡ total c ps.subscribers + is ps.made c
      grown c = omega (
        arith,
        total-insert c topic (subs_of ps.subscribers topic ++ (ps.made ∷ [])) ps.subscribers,
        count-append c (subs_of ps.subscribers topic) (ps.made ∷ []),
      )

  -- What Unsubscribe makes of a broker: a channel that was subscribed to the topic is closed and
  -- subscribed no more, one that was not leaves all as it was, and every other channel is as it was.
  pub record Left (ps : PubSub Any) (topic : Bytes) (ch : ℕ) (ps' : PubSub Any) : Type 0 where
    pub valid : IsValid ps'
    pub gone :
        0 < count ch (subs_of ps.subscribers topic)
        → ((ps'.channels ch).is_closed ≡ true) × (total ch ps'.subscribers ≡ 0)
    pub same_made : ps'.made ≡ ps.made
    pub stayed : count ch (subs_of ps.subscribers topic) ≡ 0 → ps' ≡ ps
    pub others :
        (c : ℕ)
        → ch ≢ c
        → (total c ps'.subscribers ≡ total c ps.subscribers) × (ps'.channels c ≡ ps.channels c)

  module _ (ps : PubSub Any) (topic : Bytes) (ch i : ℕ) (v : IsValid ps)
      (inside : i < length (subs_of ps.subscribers topic))
      (there : at (subs_of ps.subscribers topic) i ≡ ch) where
    abbrev without : PubSub Any
    without = record ps {
      subscribers = insert topic (swap_out (subs_of ps.subscribers topic) i) ps.subscribers;
      channels = write_channel ps.channels ch (record (ps.channels ch) { is_closed = true });
    }

    removed : (c : ℕ) → total c without.subscribers + is ch c ≡ total c ps.subscribers
    removed c = omega (
      arith,
      total-insert c topic (swap_out (subs_of ps.subscribers topic) i) ps.subscribers,
      count-swap_out c (subs_of ps.subscribers topic) i inside,
      ap (λ x. is x c) there,
    )

    present : 0 < count ch (subs_of ps.subscribers topic)
    present =
        subst (λ x. 0 < count x (subs_of ps.subscribers topic)) there
          (count-at (subs_of ps.subscribers topic) i inside)

    without-Left : Left ps topic ch without
    without-Left = record {
      valid = record {
        once = λ c. omega (arith, removed c, v.once c);
        listening = λ c h. ground (arith, removed c, removed ch, v.once ch, v.listening c);
        known = λ c h. ground (arith, removed c, v.known c);
      };
      gone = λ h. (ground arith, ground (arith, removed ch, v.once ch));
      same_made = refl;
      stayed = λ h. absurd (omega (arith, h, present));
      others = λ c ne. (ground (arith, removed c), ground arith);
    }

  -- On a valid broker Unsubscribe does not panic and leaves it valid: a channel that is subscribed to
  -- the topic is closed and subscribed no more, one that is not leaves the broker as it was, and every
  -- other channel is as it was.
  pub unsubscribe-Left :
      (ps : PubSub Any) (topic : Bytes) (ch : ℕ)
      → IsValid ps
      → (ps' : PubSub Any) × (unsubscribe ps topic ch ≡ some ps') × Left ps topic ch ps'
  unfolding unsubscribe close_channel
  unsubscribe-Left ps topic ch v =
      elim (Option-cases (find_sub (subs_of ps.subscribers topic) ch)) [
        | inl e ↦ (
          ps,
          rw (unsubscribe, e) refl,
          record {
            valid = v;
            gone = λ h. absurd (omega (arith, find_sub-none (subs_of ps.subscribers topic) ch e));
            same_made = refl;
            stayed = λ h. refl;
            others = λ c ne. (refl, refl);
          },
        )
        | inr (i, e) ↦
            let (inside, there) = find_sub-at (subs_of ps.subscribers topic) ch i e in
            let listening : (ps.channels ch).is_closed ≡ false = v.listening ch (
              omega (
                arith,
                present ps topic ch i v inside there,
                count-subs_of ch topic ps.subscribers,
              )) in
            (
              without ps topic ch i v inside there,
              rw (unsubscribe, e, close_channel, listening) refl,
              without-Left ps topic ch i v inside there,
            )
      ]
