-- ===== src/PubSub.antt =====
-- system-design/pub-sub/pubsub.go: the broker. A channel is a number, `channels` is the memory of
-- channels, and `made` how many there are. What panics is `none`. The lock makes each function but
-- Publish one step; Publish holds it for `snapshot` only, and delivers after that.
pub mod Valid
pub mod Deliver
pub mod Close
pub mod Life
mod Tests
use leetsheet.Prelude.{
  ℕ, zero, suc, ◌+◌, ◌-◌, Bool, true, false, List, [], ◌∷◌, ◌++◌, Option, none, some, ltb, ◌==◌,
  if◌then◌else◌, length, get_or, set, take,
}
use leetsheet.Prelude.Int.{ℤ, pos, pos_part, leb_ℤ}
use leetsheet.Prelude.Maps.{lookup, insert, bytes_eq}
use leetsheet.Prelude.Text.{Bytes}

pub record Message (Any : Type 0) : Type 0 where
  pub topic : Bytes
  pub payload : Any
  pub timestamp : ℕ

-- A buffered channel: what it holds, oldest first, and whether it is closed.
pub record Channel (Any : Type 0) : Type 0 where
  pub buffer : List (Message Any)
  pub is_closed : Bool

pub record PubSub (Any : Type 0) : Type 0 where
  pub subscribers : List (Bytes × List ℕ)
  pub buf_size : ℕ
  pub channels : ℕ → Channel Any
  pub made : ℕ

-- The subscribers of a topic; a topic that is not there has none.
pub subs_of : List (Bytes × List ℕ) → Bytes → List ℕ
unfolding lookup
subs_of m topic = elim (lookup topic m) [ none ↦ [] | some subs ↦ subs ]

-- The loop that looks for the channel: its index.
pub find_sub : List ℕ → ℕ → Option ℕ
find_sub [] ch = none
find_sub (s ∷ subs) ch =
    if s == ch then some 0 else elim (find_sub subs ch) [ none ↦ none | some i ↦ some (suc i) ]

-- The entry at an index is replaced by the last one, and the last place is cut off.
pub swap_out : List ℕ → ℕ → List ℕ
swap_out subs i = take (length subs - 1) (set subs i (get_or subs (length subs - 1) 0))

module _ {Any : Type 0} where
  abbrev pub write_channel : (ℕ → Channel Any) → ℕ → Channel Any → ℕ → Channel Any
  write_channel channels c x d = if c == d then x else channels d

  -- NewPubSub; a size that is not positive counts as 64.
  pub new_pub_sub : ℤ → PubSub Any
  new_pub_sub size = record {
    subscribers = [];
    buf_size = if leb_ℤ size (pos 0) then 64 else pos_part size;
    channels = λ c. record { buffer = []; is_closed = false };
    made = 0;
  }

  pub subscribe : PubSub Any → Bytes → PubSub Any × ℕ
  unfolding subs_of insert
  subscribe ps topic =
      let ch = ps.made in
      (
        record ps {
          subscribers = insert topic (subs_of ps.subscribers topic ++ (ch ∷ [])) ps.subscribers;
          channels = write_channel ps.channels ch (record { buffer = []; is_closed = false });
          made = suc ps.made;
        },
        ch,
      )

  -- close(ch), which panics on a closed channel.
  pub close_channel : (ℕ → Channel Any) → ℕ → Option (ℕ → Channel Any)
  close_channel channels c =
      if (channels c).is_closed
      then none
      else some (write_channel channels c (record (channels c) { is_closed = true }))

  pub unsubscribe : PubSub Any → Bytes → ℕ → Option (PubSub Any)
  unfolding subs_of find_sub swap_out close_channel insert
  unsubscribe ps topic ch =
      let subs = subs_of ps.subscribers topic in
      elim (find_sub subs ch) [
        | none ↦ some ps
        | some i ↦ elim (close_channel ps.channels ch) [
          | none ↦ none
          | some channels ↦ some (record ps {
            subscribers = insert topic (swap_out subs i) ps.subscribers;
            channels = channels;
          })
        ]
      ]

  -- The first half of Publish: the copy of the subscribers.
  pub snapshot : PubSub Any → Bytes → List ℕ
  unfolding subs_of
  snapshot ps topic = subs_of ps.subscribers topic

  -- One turn of the loop of Publish: a send that does not block. It panics on a closed channel.
  pub send : ℕ → (ℕ → Channel Any) → ℕ → Message Any → Option (ℕ → Channel Any)
  send size channels c msg =
      if (channels c).is_closed
      then none
      else if ltb (length (channels c).buffer) size
      then some (
          write_channel channels c
            (record (channels c) { buffer = (channels c).buffer ++ (msg ∷ []) }))
      else some channels

  pub deliver : ℕ → (ℕ → Channel Any) → List ℕ → Message Any → Option (ℕ → Channel Any)
  unfolding send
  deliver size channels [] msg = some channels
  deliver size channels (c ∷ subs) msg = elim (send size channels c msg) [
    | none ↦ none
    | some channels' ↦ deliver size channels' subs msg
  ]

  -- Publish with nothing in between.
  pub publish : PubSub Any → Bytes → Any → ℕ → Option (PubSub Any)
  unfolding deliver snapshot
  publish ps topic payload now =
      let msg : Message Any = record { topic = topic; payload = payload; timestamp = now } in
      elim (deliver ps.buf_size ps.channels (snapshot ps topic) msg) [
        | none ↦ none
        | some channels ↦ some (record ps { channels = channels })
      ]

  pub close_all : (ℕ → Channel Any) → List ℕ → Option (ℕ → Channel Any)
  unfolding close_channel
  close_all channels [] = some channels
  close_all channels (c ∷ subs) = elim (close_channel channels c) [
    | none ↦ none
    | some channels' ↦ close_all channels' subs
  ]

  pub close_topics : (ℕ → Channel Any) → List (Bytes × List ℕ) → Option (ℕ → Channel Any)
  unfolding close_all
  close_topics channels [] = some channels
  close_topics channels ((topic, subs) ∷ m) = elim (close_all channels subs) [
    | none ↦ none
    | some channels' ↦ close_topics channels' m
  ]

  -- Close; Go goes through the topics in no particular order.
  pub close : PubSub Any → Option (PubSub Any)
  unfolding close_topics
  close ps = elim (close_topics ps.channels ps.subscribers) [
    | none ↦ none
    | some channels ↦ some (record ps { subscribers = []; channels = channels })
  ]
