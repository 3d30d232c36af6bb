-- ===== src/Infra/EventBus/Safety.antt =====
-- internal/infra/eventbus/local/local.go: the methods do not panic, and keep the bus well formed.
use domour.Common.{
  Bool-cases, ℕ, ◌<◌, Bool, true, false, ◌≡◌, refl, sym, ◌∙◌, inl, inr, arith, List, [], ◌∷◌, ◌==◌,
  if◌then◌else◌, Option, none, some,
}
use domour.Common.Text.{Str, equal, equal_iff}
use domour.Common.Assoc.{Assoc, lookup, insert}
use domour.Infra.EventBus.{
  Bus, at, has_id, new, subs_of, close_sub, remove_id, unsubscribe, publish_loop, publish,
  close_list, close_topics, close, Step, subscribe_step, unsubscribe_step, receive_step,
  publish_step, close_step, apply, run,
}
use domour.Infra.EventBus.Inv.{
  IsValid, has_id-remove_id, all_differ-remove_id, subs_of-insert, new-IsValid, subscribe-IsValid,
  deliver-IsValid,
}

-- No panic, and what P says of the bus after it.
abbrev pub IsSafe : (Bus → Type 0) → Option Bus → Type 0
IsSafe P o = (eb : Bus) × (o ≡ some eb) × P eb

if-IsSafe :
    {P : Bus → Type 0} (b : Bool) {x y : Option Bus}
    → IsSafe P x
    → IsSafe P y
    → IsSafe P (if b then x else y)
if-IsSafe true sx sy = sx
if-IsSafe false sx sy = sy

bind-IsSafe :
    {P Q : Bus → Type 0} {o : Option Bus} {f : Bus → Option Bus}
    → IsSafe P o
    → ((eb : Bus) → P eb → IsSafe Q (f eb))
    → IsSafe Q (elim o [ none ↦ none | some eb ↦ f eb ])
bind-IsSafe (eb, e, p) k = rw e (k eb p)

-- Both channels of each subscription are open or closed.
abbrev AreBoth : Bus → Type 0
AreBoth eb = (id : ℕ) → eb.ch_closed id ≡ eb.done_closed id

publish_loop-IsSafe :
    (done : Bool) (pick : ℕ → Bool) (ids : List ℕ) (text : Str) (eb : Bus)
    → IsValid eb
    → ((id : ℕ) → has_id id ids ≡ true → eb.ch_closed id ≡ false)
    → IsSafe IsValid (publish_loop done pick ids text eb)
unfolding publish_loop subs_of
publish_loop-IsSafe done pick [] text eb v opens = (eb, refl, v)
publish_loop-IsSafe done pick (id ∷ ids) text eb v opens =
    let rest : (j : ℕ) → has_id j ids ≡ true → eb.ch_closed j ≡ false =
      λ j h. opens j (ground arith) in
    rw (opens id (ground arith)) (
      if-IsSafe _ (eb, refl, v)
        (if-IsSafe _
          (publish_loop-IsSafe done pick ids text _
            (record { both = v.both; open_sub = v.open_sub; once = v.once }) rest)
          (publish_loop-IsSafe done pick ids text eb v rest)))

publish-IsSafe :
    (done : Bool) (pick : ℕ → Bool) (topic text : Str) (eb : Bus)
    → IsValid eb
    → IsSafe IsValid (publish done pick topic text eb)
unfolding publish
publish-IsSafe done pick topic text eb v =
    publish_loop-IsSafe done pick (subs_of eb topic) text eb v (λ id h. (v.open_sub topic id h).0)

close_sub-AreBoth :
    (id : ℕ) (eb : Bus) → AreBoth eb → eb.done_closed id ≡ false → IsSafe AreBoth (close_sub id eb)
unfolding close_sub
close_sub-AreBoth id eb both e = rw (both id) (rw e (_, refl, λ j. ground (arith, both j)))

close_list-AreBoth : (ids : List ℕ) (eb : Bus) → AreBoth eb → IsSafe AreBoth (close_list ids eb)
unfolding close_list
close_list-AreBoth [] eb both = (eb, refl, both)
close_list-AreBoth (id ∷ ids) eb both = elim (Bool-cases (eb.done_closed id)) [
  | inl e ↦ rw (close_list, e) (close_list-AreBoth ids eb both)
  | inr e ↦
      rw (close_list, e) (bind-IsSafe (close_sub-AreBoth id eb both e) (close_list-AreBoth ids))
]

close_topics-AreBoth :
    (m : Assoc (List ℕ)) (eb : Bus) → AreBoth eb → IsSafe AreBoth (close_topics m eb)
unfolding close_topics
close_topics-AreBoth [] eb both = (eb, refl, both)
close_topics-AreBoth ((topic, ids) ∷ m) eb both =
    bind-IsSafe (close_list-AreBoth ids eb both) (close_topics-AreBoth m)

close-IsSafe : (eb : Bus) → IsValid eb → IsSafe IsValid (close eb)
unfolding close subs_of lookup
close-IsSafe eb v = bind-IsSafe (close_topics-AreBoth eb.subs eb v.both) (λ eb' both.
    (_, refl, record { both = both; open_sub = λ t id h. absurd (cc); once = λ t. refl }))

-- The bus without a subscription, whose channels are closed.
abbrev without : ℕ → Bus → Bus
without id eb = record eb {
  subs = insert (eb.topic id) (remove_id id (subs_of eb (eb.topic id))) eb.subs;
  ch_closed = at id true eb.ch_closed;
  done_closed = at id true eb.done_closed;
}

subs_of-without :
    (id : ℕ) (eb : Bus) (t : Str)
    → subs_of (without id eb) t
      ≡ (if equal (eb.topic id) t then remove_id id (subs_of eb (eb.topic id)) else subs_of eb t)
unfolding subs_of
subs_of-without id eb t =
    subs_of-insert eb (eb.topic id) t (remove_id id (subs_of eb (eb.topic id)))

without-open_sub :
    (id : ℕ) (eb : Bus)
    → IsValid eb
    → (t : Str) (j : ℕ) → has_id j (subs_of (without id eb) t) ≡ true
    → ((if j == id then true else eb.ch_closed j) ≡ false) × (eb.topic j ≡ t) × (j < eb.next)
without-open_sub id eb v t j h = elim (Bool-cases (equal (eb.topic id) t)) [
  | inl same ↦ ground (
    arith,
    subs_of-without id eb t,
    equal_iff (eb.topic id) t,
    has_id-remove_id j id (subs_of eb (eb.topic id)),
    v.once (eb.topic id),
    v.open_sub (eb.topic id) j,
  )
  | inr other ↦ ground (arith, subs_of-without id eb t, equal_iff (eb.topic id) t, v.open_sub t j)
]

without-IsValid : (id : ℕ) (eb : Bus) → IsValid eb → IsValid (without id eb)
without-IsValid id eb v = record {
  both = λ j. ground (arith, v.both j);
  open_sub = without-open_sub id eb v;
  once = λ t. ground (
    arith,
    subs_of-without id eb t,
    v.once t,
    v.once (eb.topic id),
    all_differ-remove_id id (subs_of eb (eb.topic id)),
  );
}

unsubscribe-IsSafe : (id : ℕ) (eb : Bus) → IsValid eb → IsSafe IsValid (unsubscribe id eb)
unfolding unsubscribe close_sub
unsubscribe-IsSafe id eb v = elim (Bool-cases (has_id id (subs_of eb (eb.topic id)))) [
  | inr e ↦ rw (unsubscribe, e) (eb, refl, v)
  | inl e ↦
      let closed = (v.open_sub (eb.topic id) id e).0 in
      rw (unsubscribe, e, close_sub, closed, sym (v.both id) ∙ closed)
        (without id eb, refl, without-IsValid id eb v)
]

apply-IsSafe : (s : Step) (eb : Bus) → IsValid eb → IsSafe IsValid (apply s eb)
unfolding apply
apply-IsSafe (subscribe_step topic) eb v = (_, refl, subscribe-IsValid topic eb v)
apply-IsSafe (unsubscribe_step id) eb v = unsubscribe-IsSafe id eb v
apply-IsSafe (receive_step id) eb v = (_, refl, deliver-IsValid id eb v)
apply-IsSafe (publish_step done pick topic text) eb v = publish-IsSafe done pick topic text eb v
apply-IsSafe close_step eb v = close-IsSafe eb v

run-IsSafe : (steps : List Step) (eb : Bus) → IsValid eb → IsSafe IsValid (run steps eb)
unfolding run
run-IsSafe [] eb v = (eb, refl, v)
run-IsSafe (s ∷ steps) eb v = bind-IsSafe (apply-IsSafe s eb v) (run-IsSafe steps)

-- Every sequence of calls of Subscribe, Unsubscribe, Publish and Close from NewEventBus, with the
-- goroutines taking texts in any order, ends without a send on a closed channel and without a second
-- close of one, and keeps the bus well formed.
pub run-new-IsSafe : (steps : List Step) → (eb : Bus) × (run steps new ≡ some eb) × IsValid eb
run-new-IsSafe steps = run-IsSafe steps new new-IsValid
