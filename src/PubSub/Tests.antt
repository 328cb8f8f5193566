-- ===== src/PubSub/Tests.antt =====
-- The broker at concrete inputs: one subscriber of one topic.
use leetsheet.Prelude.{List, [], ◌∷◌, ℕ, ◌<◌, ◌≡◌, none, some, arith}
use leetsheet.Prelude.Int.{pos}
use leetsheet.Prelude.Maps.{lookup, insert, bytes_eq}
use leetsheet.Prelude.Text.{Bytes, codes, str_eq}
use leetsheet.JobQueue.Heap.Arrays.{count}
use leetsheet.PubSub.{
  Message, Channel, PubSub, subs_of, new_pub_sub, subscribe, unsubscribe, snapshot, deliver,
  publish,
}
use leetsheet.PubSub.Valid.{IsValid, Left, new_pub_sub-IsValid, subscribe-IsValid, unsubscribe-Left}
use leetsheet.PubSub.Life.{
  Call, subscribing, unsubscribing, publishing, closing, run, IsSettled, run-new_pub_sub,
}
use leetsheet.PubSub.Deliver.{delivered, publish-delivered, publish_after_unsubscribe}

abbrev news : Bytes
news = codes "news"

abbrev empty : PubSub ℕ
empty = new_pub_sub (pos 1)

abbrev broker : PubSub ℕ
broker = (subscribe empty news).0

broker-IsValid : IsValid broker
broker-IsValid = (subscribe-IsValid empty news (new_pub_sub-IsValid (pos 1))).0

unsubscribe-Left_example :
    (ps : PubSub ℕ) × (unsubscribe broker news 0 ≡ some ps) × Left broker news 0 ps
unsubscribe-Left_example = unsubscribe-Left broker news 0 broker-IsValid

publish-delivered_example :
    (channels : ℕ → Channel ℕ) × (publish broker news 7 1
      ≡ some (record broker { channels = channels }))
    × ((c : ℕ)
        → channels c
          ≡ delivered broker.buf_size
              (record { topic = news; payload = 7; timestamp = 1 })
              (subs_of broker.subscribers news)
              (broker.channels c)
              c)
publish-delivered_example = publish-delivered broker news 7 1 broker-IsValid

abbrev hello : Message ℕ
hello = record { topic = news; payload = 7; timestamp = 1 }

subscribed : 0 < count 0 (subs_of broker.subscribers news)
unfolding subscribe subs_of new_pub_sub lookup insert str_eq
subscribed = omega arith

publish_after_unsubscribe_example :
    (ps : PubSub ℕ) × (unsubscribe broker news 0 ≡ some ps)
    × (deliver ps.buf_size ps.channels (snapshot broker news) hello ≡ none)
publish_after_unsubscribe_example =
    publish_after_unsubscribe broker news 0 hello broker-IsValid subscribed

-- Closed twice, with a publication after it.
abbrev calls : List (Call ℕ)
calls =
    subscribing news
    ∷ publishing news 7 1
    ∷ unsubscribing (codes "sport") 0
    ∷ closing
    ∷ publishing news 8 2
    ∷ closing
    ∷ []

run-new_pub_sub_example :
    (ps : PubSub ℕ) × (run (new_pub_sub (pos 1)) calls ≡ some ps) × IsSettled ps
run-new_pub_sub_example = run-new_pub_sub (pos 1) calls
