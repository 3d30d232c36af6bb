-- ===== src/Infra/EventBus/Tests.antt =====
-- internal/infra/eventbus/local/local.go: runs at concrete inputs.
use domour.Common.{
  ℕ, false, ◌&&◌, ◌≡◌, refl, List, [], ◌∷◌, ◌++◌, ltb, length, if◌then◌else◌, none, some,
}
use domour.Common.Text.{Str, codes, equal}
use domour.Common.Assoc.{lookup, insert}
use domour.Infra.EventBus.{
  Bus, has_id, new, subs_of, close_sub, remove_id, unsubscribe, subscribe, publish_loop, publish,
  deliver, close_list, close_topics, close, Step, subscribe_step, unsubscribe_step, receive_step,
  publish_step, close_step, apply, run,
}
use domour.Infra.EventBus.Inv.{IsValid, new-IsValid, subscribe-IsValid}
use domour.Infra.EventBus.Safety.{run-new-IsSafe}
use domour.Infra.EventBus.Delivery.{publish-delivers}

abbrev jobs : Str
jobs = codes "jobs"

abbrev hello : Str
hello = codes "hello"

-- The second subscription is removed twice, and the bus is closed twice.
abbrev steps : List Step
steps =
    subscribe_step jobs
    ∷ subscribe_step jobs
    ∷ unsubscribe_step 1
    ∷ unsubscribe_step 1
    ∷ publish_step false (λ id. false) jobs hello
    ∷ receive_step 0
    ∷ close_step
    ∷ close_step
    ∷ unsubscribe_step 0
    ∷ []

steps-handled : (elim (run steps new) [ none ↦ [] | some eb ↦ eb.handled ]) ≡ ((0, hello) ∷ [])
unfolding run apply new subscribe unsubscribe publish publish_loop deliver close close_topics
    close_list close_sub remove_id subs_of lookup insert equal
steps-handled = refl

run-new-IsSafe_example : (eb : Bus) × (run steps new ≡ some eb) × IsValid eb
run-new-IsSafe_example = run-new-IsSafe steps

abbrev two : Bus
two = subscribe jobs (subscribe jobs new)

two-IsValid : IsValid two
two-IsValid = subscribe-IsValid jobs (subscribe jobs new) (subscribe-IsValid jobs new new-IsValid)

publish-delivers_example :
    (eb' : Bus) × (publish false (λ id. false) jobs hello two ≡ some eb')
    × ((id : ℕ)
        → eb'.ch id ≡ (
            if has_id id (subs_of two jobs) && ltb (length (two.ch id)) 100
            then two.ch id ++ (hello ∷ [])
            else two.ch id))
publish-delivers_example = publish-delivers (λ id. false) jobs hello two two-IsValid
