-- ===== src/Infra/EventBus/Inv.antt =====
-- internal/infra/eventbus/local/local.go: what holds of the bus between the methods.
use domour.Common.{
  Bool-cases, ℕ, ◌<◌, Bool, true, false, not, ◌&&◌, ◌||◌, ◌≡◌, refl, inl, inr, arith, List, [], ◌∷◌,
  ◌++◌, ◌==◌, if◌then◌else◌,
}
use domour.Common.Text.{Str, equal, equal_iff}
use domour.Common.Assoc.{lookup, insert, lookup-insert}
use domour.Infra.EventBus.{Bus, at, has_id, new, subs_of, remove_id, subscribe, deliver}

-- no subscription twice
abbrev pub all_differ : List ℕ → Bool
all_differ [] = true
all_differ (id ∷ ids) = not (has_id id ids) && all_differ ids

-- Both channels of a subscription are open or closed; a subscription of a topic is open and knows
-- its topic.
pub record IsValid (eb : Bus) : Type 0 where
  pub both : (id : ℕ) → eb.ch_closed id ≡ eb.done_closed id
  pub open_sub :
      (t : Str) (id : ℕ)
      → has_id id (subs_of eb t) ≡ true
      → (eb.ch_closed id ≡ false) × (eb.topic id ≡ t) × (id < eb.next)
  pub once : (t : Str) → all_differ (subs_of eb t) ≡ true

pub has_id-append :
    (id : ℕ) (ids : List ℕ) (j : ℕ) → has_id id (ids ++ (j ∷ [])) ≡ has_id id ids || (j == id)
has_id-append id [] j = ground arith
has_id-append id (k ∷ ids) j = ground (arith, has_id-append id ids j)

pub all_differ-append :
    (ids : List ℕ) (j : ℕ)
    → has_id j ids ≡ false
    → all_differ ids ≡ true
    → all_differ (ids ++ (j ∷ [])) ≡ true
all_differ-append [] j fresh h = refl
all_differ-append (k ∷ ids) j fresh h =
    ground (arith, has_id-append k ids j, all_differ-append ids j)

-- What is left was there, and is not the one removed.
pub has_id-remove_id :
    (i id : ℕ) (ids : List ℕ)
    → all_differ ids ≡ true
    → has_id i (remove_id id ids) ≡ has_id i ids && not (i == id)
unfolding remove_id
has_id-remove_id i id [] h = refl
has_id-remove_id i id (j ∷ ids) h = ground (arith, has_id-remove_id i id ids)

pub all_differ-remove_id :
    (id : ℕ) (ids : List ℕ) → all_differ ids ≡ true → all_differ (remove_id id ids) ≡ true
unfolding remove_id
all_differ-remove_id id [] h = refl
all_differ-remove_id id (j ∷ ids) h =
    ground (arith, has_id-remove_id j id ids, all_differ-remove_id id ids)

pub subs_of-insert :
    (eb : Bus) (topic t : Str) (ids : List ℕ)
    → subs_of (record eb { subs = insert topic ids eb.subs }) t
      ≡ (if equal topic t then ids else subs_of eb t)
unfolding subs_of
subs_of-insert eb topic t ids = ground (arith, lookup-insert topic t ids eb.subs)

pub new-IsValid : IsValid new
unfolding new subs_of lookup
new-IsValid = record { both = λ id. refl; open_sub = λ t id h. absurd (cc); once = λ t. refl }

-- A subscription of a topic after Subscribe was there, or is the new one.
subs_of-subscribe :
    (topic : Str) (eb : Bus) (t : Str)
    → subs_of (subscribe topic eb) t
      ≡ (if equal topic t then subs_of eb topic ++ (eb.next ∷ []) else subs_of eb t)
unfolding subscribe
subs_of-subscribe topic eb t = subs_of-insert eb topic t (subs_of eb topic ++ (eb.next ∷ []))

fresh : (eb : Bus) → IsValid eb → (t : Str) → has_id eb.next (subs_of eb t) ≡ false
fresh eb v t = ground (arith, v.open_sub t eb.next)

pub subscribe-IsValid : (topic : Str) (eb : Bus) → IsValid eb → IsValid (subscribe topic eb)
unfolding subscribe
subscribe-IsValid topic eb v = record {
  both = λ id. ground (arith, v.both id);
  open_sub = λ t id h. elim (Bool-cases (equal topic t)) [
    | inl same ↦ ground (
      arith,
      subs_of-subscribe topic eb t,
      equal_iff topic t,
      has_id-append id (subs_of eb topic) eb.next,
      v.open_sub topic id,
    )
    | inr other ↦ ground (arith, subs_of-subscribe topic eb t, v.open_sub t id)
  ];
  once = λ t. ground (
    arith,
    subs_of-subscribe topic eb t,
    v.once topic,
    v.once t,
    all_differ-append (subs_of eb topic) eb.next,
    fresh eb v topic,
  );
}

pub deliver-IsValid : (id : ℕ) (eb : Bus) → IsValid eb → IsValid (deliver id eb)
unfolding deliver subs_of
deliver-IsValid id eb v =
    elim (eb.ch id)
      as (λ c. IsValid (elim c [
        | [] ↦ eb
        | text ∷ texts ↦ record eb {
          ch = at id texts eb.ch;
          handled = eb.handled ++ ((id, text) ∷ []);
        }
      ])) [ [] ↦ v | text ∷ texts ↦ record { both = v.both; open_sub = v.open_sub; once = v.once } ]
