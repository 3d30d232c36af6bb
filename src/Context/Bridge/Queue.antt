-- ===== src/Context/Bridge/Queue.antt =====
-- internal/bionic/context/context_bridge.go: what the queue of a channel holds after calls.
use domour.Common.{
  ℕ, ℤ, ◌-◌, ◌≤◌, Bool, true, false, ◌≡◌, refl, subst, ap, sym, ◌∙◌, arith, Option, none, some,
  List, [], ◌∷◌, ◌++◌, append_assoc, append-nil, ◌==◌, if◌then◌else◌, length, length-drop,
}
use domour.Common.Text.{Str, equal, equal_iff, codes}
use domour.Common.Assoc.{lookup, lookup-insert}
use domour.Context.Stm.Spec.{recent, recent-fits, recent-recent}
use domour.Context.Bridge.{
  ContextPackage, BridgeChannel, Bridge, new, queue, publish, direct_channel, publish_direct, stamp,
  subscribe, unsubscribe, grant_access, revoke_access, Call, publish_call, direct_call,
  subscribe_call, unsubscribe_call, grant_call, revoke_call, apply, run,
}

-- The name of the channel that a call publishes on, and the package; `source` gives the publishing
-- agent of a package.
abbrev pub published_on : (ℕ → Str) → Call → Option (Str × ℕ)
published_on source (publish_call ch now a) = some (ch.name, a)
published_on source (direct_call target now a) =
    some (codes "direct:" ++ (source a ++ (b':' ∷ target)), a)
published_on source _ = none

-- the packages published on a channel, in the order of the calls
abbrev pub published : (ℕ → Str) → Str → List Call → List ℕ
published source name [] = []
published source name (c ∷ cs) = elim (published_on source c) [
  | none ↦ published source name cs
  | some (n, a) ↦ let rest = published source name cs in if equal n name then a ∷ rest else rest
]

-- one more package, and those of the later calls
recent-later :
    (n : ℕ) (here : Bool) (q after : List ℕ) (a : ℕ) (later : List ℕ)
    → after ≡ (if here then recent n (q ++ (a ∷ [])) else q)
    → recent n (after ++ later) ≡ recent n (q ++ (if here then a ∷ later else later))
recent-later n true q after a later e =
    ap (λ r. recent n (r ++ later)) e
    ∙ recent-recent n (q ++ (a ∷ [])) later
    ∙ ap (recent n) (append_assoc q (a ∷ []) later)
recent-later n false q after a later e = ap (λ r. recent n (r ++ later)) e

module _ (decimal : ℕ → Str) where
  publish-queue :
      (ch : BridgeChannel) (now a : ℕ) (b : Bridge) (name : Str)
      → queue ((publish decimal ch now a b).0) name
        ≡ (if equal ch.name name then recent b.cap (queue b name ++ (a ∷ [])) else queue b name)
  unfolding publish queue
  publish-queue ch now a b name =
      let kept = recent b.cap (queue b ch.name ++ (a ∷ [])) in
      ground (
        arith,
        lookup-insert ch.name name kept b.packages,
        equal_iff ch.name name,
        recent-fits b.cap (queue b ch.name ++ (a ∷ [])),
      )

  publish_direct-queue :
      (target : Str) (now a : ℕ) (b : Bridge) (name : Str)
      → queue ((publish_direct decimal target now a b).0) name ≡ (
          if equal (codes "direct:" ++ ((b.heap a).source_agent ++ (b':' ∷ target))) name
          then recent b.cap (queue b name ++ (a ∷ []))
          else queue b name)
  unfolding publish_direct direct_channel queue
  publish_direct-queue target now a b name =
      publish-queue (direct_channel target (b.heap a)) now a
        (record b {
          heap = λ i. if i == a then record (b.heap a) { target_agent = target } else b.heap i;
        })
        name

  Sources : (ℕ → Str) → Bridge → Type 0
  Sources source b = (i : ℕ) → (b.heap i).source_agent ≡ source i

  apply-Sources :
      (source : ℕ → Str) (c : Call) (b : Bridge)
      → Sources source b
      → Sources source (apply decimal c b)
  unfolding Sources apply publish publish_direct stamp subscribe unsubscribe grant_access
      revoke_access
  apply-Sources source (publish_call ch now a) b h i = ground (arith, h i, h a)
  apply-Sources source (direct_call target now a) b h i = ground (arith, h i, h a)
  apply-Sources source (subscribe_call _ _) b h i = h i
  apply-Sources source (unsubscribe_call _ _) b h i = h i
  apply-Sources source (grant_call _ _) b h i = h i
  apply-Sources source (revoke_call _ _) b h i = h i

  apply-cap : (c : Call) (b : Bridge) → (apply decimal c b).cap ≡ b.cap
  unfolding apply publish publish_direct subscribe unsubscribe grant_access revoke_access
  apply-cap (publish_call ch now a) b = refl
  apply-cap (direct_call target now a) b = refl
  apply-cap (subscribe_call _ _) b = refl
  apply-cap (unsubscribe_call _ _) b = refl
  apply-cap (grant_call _ _) b = refl
  apply-cap (revoke_call _ _) b = refl

  apply-queue :
      (source : ℕ → Str) (c : Call) (cs : List Call) (b : Bridge) (name : Str)
      → Sources source b
      → recent b.cap (queue (apply decimal c b) name ++ published source name cs)
        ≡ recent b.cap (queue b name ++ published source name (c ∷ cs))
  unfolding apply Sources
  apply-queue source (publish_call ch now a) cs b name h =
      recent-later b.cap (equal ch.name name) (queue b name)
        (queue ((publish decimal ch now a b).0) name) a (published source name cs)
        (publish-queue ch now a b name)
  apply-queue source (direct_call target now a) cs b name h =
      let channel = codes "direct:" ++ (source a ++ (b':' ∷ target)) in
      recent-later b.cap (equal channel name) (queue b name)
        (queue ((publish_direct decimal target now a b).0) name) a (published source name cs)
        (subst
          (λ t. queue ((publish_direct decimal target now a b).0) name ≡ (
            if equal (codes "direct:" ++ (t ++ (b':' ∷ target))) name
            then recent b.cap (queue b name ++ (a ∷ []))
            else queue b name))
          (h a) (publish_direct-queue target now a b name))
  apply-queue source (subscribe_call a c) cs b name h = refl
  apply-queue source (unsubscribe_call _ _) cs b name h = refl
  apply-queue source (grant_call _ _) cs b name h = refl
  apply-queue source (revoke_call _ _) cs b name h = refl

  apply-fits :
      (c : Call) (b : Bridge) (name : Str)
      → length (queue b name) ≤ b.cap
      → length (queue (apply decimal c b) name) ≤ b.cap
  unfolding apply subscribe unsubscribe grant_access revoke_access
  apply-fits (publish_call ch now a) b name fits =
      let q = queue b name ++ (a ∷ []) in
      ground (arith, publish-queue ch now a b name, length-drop (length q - b.cap) q)
  apply-fits (direct_call target now a) b name fits =
      let q = queue b name ++ (a ∷ []) in
      ground (arith, publish_direct-queue target now a b name, length-drop (length q - b.cap) q)
  apply-fits (subscribe_call _ _) b name fits = fits
  apply-fits (unsubscribe_call _ _) b name fits = fits
  apply-fits (grant_call _ _) b name fits = fits
  apply-fits (revoke_call _ _) b name fits = fits

  run-queue :
      (source : ℕ → Str) (calls : List Call) (b : Bridge) (name : Str)
      → Sources source b
      → length (queue b name) ≤ b.cap
      → queue (run decimal calls b) name
        ≡ recent b.cap (queue b name ++ published source name calls)
  unfolding run
  run-queue source [] b name h fits =
      sym (ap (recent b.cap) (append-nil (queue b name)) ∙ recent-fits b.cap (queue b name) fits)
  run-queue source (c ∷ cs) b name h fits =
      let after = apply decimal c b in
      run-queue source cs after name (apply-Sources source c b h)
        (subst (◌≤◌ (length (queue after name))) (sym (apply-cap c b)) (apply-fits c b name fits))
      ∙ ap (λ n. recent n (queue after name ++ published source name cs)) (apply-cap c b)
      ∙ apply-queue source c cs b name h

  -- After any calls of the methods that write, on a new bridge, the queue of each channel holds the
  -- packages that were published on it last, as many as the capacity, in the order of publication;
  -- the capacity is 16 where the one asked for is not above 0. A direct call publishes on the
  -- channel that is named after the agent which the package comes from, and the target.
  pub run-new-queue :
      (heap : ℕ → ContextPackage) (capacity : ℤ) (calls : List Call) (name : Str)
      → queue (run decimal calls (new heap capacity)) name
        ≡ recent ((new heap capacity).cap) (published (λ i. (heap i).source_agent) name calls)
  unfolding queue lookup Sources new
  run-new-queue heap capacity calls name =
      run-queue (λ i. (heap i).source_agent) calls (new heap capacity) name (λ i. refl)
        (omega arith)
