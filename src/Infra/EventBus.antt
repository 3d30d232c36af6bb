-- ===== src/Infra/EventBus.antt =====
-- internal/infra/eventbus/local/local.go: subscriptions by topic, each with a channel of 100 texts.
-- A method is one step, since each takes the mutex; calls of Publish, which share it, are taken one
-- after the other. The goroutine of a subscription takes a text from its channel in one step. A
-- send on a channel that is closed, or a second close, is a panic, and `none` here. Pointers to
-- subscriptions are numbers.
mod Inv
mod Safety
mod Delivery
mod Tests
use domour.Common.{
  ℕ, zero, suc, ◌+◌, Bool, true, false, not, ◌&&◌, ◌||◌, Option, none, some, List, [], ◌∷◌, ◌++◌,
  ltb, ◌==◌, if◌then◌else◌, length, any,
}
use domour.Common.Text.{Str, equal}
use domour.Common.Assoc.{Assoc, lookup, insert}

pub record Bus : Type 0 where
  pub subs : Assoc (List ℕ)
  -- the fields of a subscription, and whether its two channels are closed
  pub topic : ℕ → Str
  pub ch : ℕ → List Str
  pub ch_closed : ℕ → Bool
  pub done_closed : ℕ → Bool
  pub next : ℕ
  -- the calls of the handlers
  pub handled : List (ℕ × Str)

abbrev pub at {ℓ} : {A : Type ℓ} → ℕ → A → (ℕ → A) → ℕ → A
at i v f j = if j == i then v else f j

abbrev pub has_id : ℕ → List ℕ → Bool
has_id id ids = any (λ j. j == id) ids

-- NewEventBus
unfoldable pub new : Bus
new = record {
  subs = [];
  topic = λ i. [];
  ch = λ i. [];
  ch_closed = λ i. false;
  done_closed = λ i. false;
  next = 0;
  handled = [];
}

unfoldable pub subs_of : Bus → Str → List ℕ
unfolding lookup
subs_of eb topic = elim (lookup topic eb.subs) [ none ↦ [] | some ids ↦ ids ]

-- close(s.ch); close(s.done)
unfoldable pub close_sub : ℕ → Bus → Option Bus
close_sub id eb =
    if eb.ch_closed id || eb.done_closed id
    then none
    else some
        (record eb { ch_closed = at id true eb.ch_closed; done_closed = at id true eb.done_closed })

-- the slice without the first place of the subscription
unfoldable pub remove_id : ℕ → List ℕ → List ℕ
remove_id id [] = []
remove_id id (j ∷ ids) = let rest = remove_id id ids in if j == id then ids else j ∷ rest

-- Unsubscribe
unfoldable pub unsubscribe : ℕ → Bus → Option Bus
unfolding subs_of insert close_sub remove_id
unsubscribe id eb =
    let topic = eb.topic id in
    let ids = subs_of eb topic in
    if has_id id ids
    then close_sub id (record eb { subs = insert topic (remove_id id ids) eb.subs })
    else some eb

-- Subscribe; the new subscription, with its two channels, is the old `next`.
unfoldable pub subscribe : Str → Bus → Bus
unfolding subs_of insert
subscribe topic eb = record eb {
  subs = insert topic (subs_of eb topic ++ (eb.next ∷ [])) eb.subs;
  topic = at eb.next topic eb.topic;
  ch = at eb.next [] eb.ch;
  ch_closed = at eb.next false eb.ch_closed;
  done_closed = at eb.next false eb.done_closed;
  next = eb.next + 1;
}

-- The loop of Publish. `done` is whether the context is done; then `pick id` is whether the select
-- takes that case when the channel has room as well. The error of a done context is left out.
unfoldable pub publish_loop : Bool → (ℕ → Bool) → List ℕ → Str → Bus → Option Bus
publish_loop done pick [] text eb = some eb
publish_loop done pick (id ∷ ids) text eb =
    let room = ltb (length (eb.ch id)) 100 in
    let sent = record eb { ch = at id (eb.ch id ++ (text ∷ [])) eb.ch } in
    let after_send = publish_loop done pick ids text sent in
    let after_drop = publish_loop done pick ids text eb in
    if eb.ch_closed id
    then none
    else if done && (not room || pick id)
    then some eb
    else if room
    then after_send
    else after_drop

-- Publish
unfoldable pub publish : Bool → (ℕ → Bool) → Str → Str → Bus → Option Bus
unfolding subs_of publish_loop
publish done pick topic text eb = publish_loop done pick (subs_of eb topic) text eb

-- The goroutine of a subscription takes the next text.
unfoldable pub deliver : ℕ → Bus → Bus
deliver id eb = elim (eb.ch id) [
  | [] ↦ eb
  | text ∷ texts ↦ record eb { ch = at id texts eb.ch; handled = eb.handled ++ ((id, text) ∷ []) }
]

unfoldable pub close_list : List ℕ → Bus → Option Bus
unfolding close_sub
close_list [] eb = some eb
close_list (id ∷ ids) eb = elim (eb.done_closed id) [
  | true ↦ close_list ids eb
  | false ↦ elim (close_sub id eb) [ none ↦ none | some eb' ↦ close_list ids eb' ]
]

unfoldable pub close_topics : Assoc (List ℕ) → Bus → Option Bus
unfolding close_list
close_topics [] eb = some eb
close_topics ((topic, ids) ∷ m) eb = elim (close_list ids eb) [
  | none ↦ none
  | some eb' ↦ close_topics m eb'
]

-- Close
unfoldable pub close : Bus → Option Bus
unfolding close_topics
close eb = elim (close_topics eb.subs eb) [
  | none ↦ none
  | some eb' ↦ some (record eb' { subs = [] })
]

pub data Step : Type 0 where
  subscribe_step : Str → Step
  unsubscribe_step receive_step : ℕ → Step
  publish_step : Bool → (ℕ → Bool) → Str → Str → Step
  close_step : Step

unfoldable pub apply : Step → Bus → Option Bus
unfolding subscribe unsubscribe deliver publish close
apply (subscribe_step topic) eb = some (subscribe topic eb)
apply (unsubscribe_step id) eb = unsubscribe id eb
apply (receive_step id) eb = some (deliver id eb)
apply (publish_step done pick topic text) eb = publish done pick topic text eb
apply close_step eb = close eb

unfoldable pub run : List Step → Bus → Option Bus
unfolding apply
run [] eb = some eb
run (s ∷ steps) eb = elim (apply s eb) [ none ↦ none | some eb' ↦ run steps eb' ]
