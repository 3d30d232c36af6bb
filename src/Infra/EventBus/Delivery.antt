-- ===== src/Infra/EventBus/Delivery.antt =====
-- internal/infra/eventbus/local/local.go: what Publish puts into the channels.
use domour.Common.{
  Bool-cases, ℕ, Bool, true, false, ◌&&◌, ◌≡◌, refl, ◌∙◌, inl, inr, arith, List, [], ◌∷◌, ◌++◌, ltb,
  length, if◌then◌else◌, Option, some,
}
use domour.Common.Text.{Str}
use domour.Infra.EventBus.{Bus, at, has_id, subs_of, publish_loop, publish}
use domour.Infra.EventBus.Inv.{IsValid, all_differ}

-- The channel of a subscription after a text was published to those of a list.
abbrev delivered : List ℕ → Str → Bus → ℕ → List Str
delivered ids text eb id =
    if has_id id ids && ltb (length (eb.ch id)) 100 then eb.ch id ++ (text ∷ []) else eb.ch id

IsDelivered : List ℕ → Str → Bus → Option Bus → Type 0
IsDelivered ids text eb o =
    (eb' : Bus) × (o ≡ some eb') × ((id : ℕ) → eb'.ch id ≡ delivered ids text eb id)

delivered-sent :
    (id : ℕ) (ids : List ℕ) (text : Str) (eb : Bus) (j : ℕ)
    → all_differ (id ∷ ids) ≡ true
    → ltb (length (eb.ch id)) 100 ≡ true
    → delivered ids text (record eb { ch = at id (eb.ch id ++ (text ∷ [])) eb.ch }) j
      ≡ delivered (id ∷ ids) text eb j
delivered-sent id ids text eb j once room = ground arith

delivered-full :
    (id : ℕ) (ids : List ℕ) (text : Str) (eb : Bus) (j : ℕ)
    → ltb (length (eb.ch id)) 100 ≡ false
    → delivered ids text eb j ≡ delivered (id ∷ ids) text eb j
delivered-full id ids text eb j full = ground arith

publish_loop-IsDelivered :
    (pick : ℕ → Bool) (ids : List ℕ) (text : Str) (eb : Bus)
    → all_differ ids ≡ true
    → ((id : ℕ) → has_id id ids ≡ true → eb.ch_closed id ≡ false)
    → IsDelivered ids text eb (publish_loop false pick ids text eb)
unfolding publish_loop IsDelivered
publish_loop-IsDelivered pick [] text eb once opens = (eb, refl, λ id. refl)
publish_loop-IsDelivered pick (id ∷ ids) text eb once opens =
    let rest : (j : ℕ) → has_id j ids ≡ true → eb.ch_closed j ≡ false =
      λ j h. opens j (ground arith) in
    let fewer : all_differ ids ≡ true = ground arith in
    elim (Bool-cases (ltb (length (eb.ch id)) 100)) [
      | inl room ↦
          let (eb', e, all) = publish_loop-IsDelivered pick ids text _ fewer rest in
          rw (opens id (ground arith), room)
            (eb', e, λ j. all j ∙ delivered-sent id ids text eb j once room)
      | inr full ↦
          let (eb', e, all) = publish_loop-IsDelivered pick ids text eb fewer rest in
          rw (opens id (ground arith), full)
            (eb', e, λ j. all j ∙ delivered-full id ids text eb j full)
    ]

-- Publish with a context that is not done appends the text to the channel of each subscription of the
-- topic that holds fewer than 100 texts, once, and leaves every other channel as it was.
pub publish-delivers :
    (pick : ℕ → Bool) (topic text : Str) (eb : Bus)
    → IsValid eb
    → (eb' : Bus) × (publish false pick topic text eb ≡ some eb')
      × ((id : ℕ)
          → eb'.ch id ≡ (
              if has_id id (subs_of eb topic) && ltb (length (eb.ch id)) 100
              then eb.ch id ++ (text ∷ [])
              else eb.ch id))
unfolding publish IsDelivered
publish-delivers pick topic text eb v =
    publish_loop-IsDelivered pick (subs_of eb topic) text eb (v.once topic)
      (λ id h. (v.open_sub topic id h).0)
