-- ===== src/Context/Bridge/Access.antt =====
-- internal/bionic/context/context_bridge.go: who can read a package after calls of the methods.
use domour.Common.{
  ℕ, ℤ, Bool, true, false, not, ◌&&◌, ◌||◌, ◌≡◌, refl, ap, sym, ◌∙◌, ◌↔◌, ◌≢◌, ◌⊎◌, inl, inr, arith,
  List, [], ◌∷◌, Bool-cases,
}
use mathlib.Core.List.{Memᴰ}
use domour.Common.Text.{Str, equal, equal_iff, equal_refl}
use domour.Common.Assoc.{lookup}
use domour.Context.Bridge.{
  ContextScope, global, local, isolated, other, ContextPackage, has_name, Bridge, new, publish,
  publish_direct, subscribe, unsubscribe, grant_access, revoke_access, queue, can_read,
  read_channel, Call, publish_call, direct_call, subscribe_call, unsubscribe_call, grant_call,
  revoke_call, apply, run,
}
use domour.Common.Members.{filter-Mem_source, filter-Mem_kept}
use domour.Context.Bridge.Names.{has_name-add, has_name-remove, can_read-isolated, granted_iff}

or_true : (b : Bool) → (b || true) ≡ true
or_true true = refl
or_true false = refl

true-not-false : true ≢ false
true-not-false e = cc

-- Whether the agent is subscribed to the channel after calls, by the last that says so.
abbrev pub is_subscribed : Str → Str → List Call → Bool → Bool
is_subscribed agent channel [] now = now
is_subscribed agent channel (subscribe_call a c ∷ cs) now =
    is_subscribed agent channel cs ((equal a agent && equal c channel) || now)
is_subscribed agent channel (unsubscribe_call a c ∷ cs) now =
    is_subscribed agent channel cs (not (equal a agent && equal c channel) && now)
is_subscribed agent channel (_ ∷ cs) now = is_subscribed agent channel cs now

-- Whether the agent has access to the channel after calls.
abbrev pub is_granted : Str → Str → List Call → Bool → Bool
is_granted agent channel [] now = now
is_granted agent channel (grant_call a c ∷ cs) now =
    is_granted agent channel cs ((equal c channel && equal a agent) || now)
is_granted agent channel (revoke_call a c ∷ cs) now =
    is_granted agent channel cs (not (equal c channel && equal a agent) && now)
is_granted agent channel (_ ∷ cs) now = is_granted agent channel cs now

-- Who may read a package after calls of a new bridge.
abbrev pub IsReader : List Call → Str → ContextPackage → Type 0
IsReader calls agent p =
    (p.scope ≡ global)
    ⊎ (p.scope ≡ local)
    ⊎ (p.scope ≡ isolated)
      × ((p.target_agent ≡ agent)
          ⊎ (c : Str) × (is_subscribed agent c calls false ≡ true)
            × (is_granted agent c calls false ≡ true))

module _ (decimal : ℕ → Str) where
  run-subscriptions :
      (agent channel : Str) (calls : List Call) (b : Bridge)
      → has_name agent channel (run decimal calls b).subscriptions
        ≡ is_subscribed agent channel calls (has_name agent channel b.subscriptions)
  unfolding run apply publish publish_direct subscribe unsubscribe grant_access revoke_access
  run-subscriptions agent channel [] b = refl
  run-subscriptions agent channel (subscribe_call a c ∷ cs) b =
      run-subscriptions agent channel cs (subscribe a c b)
      ∙ ap (is_subscribed agent channel cs) (has_name-add a c agent channel b.subscriptions)
  run-subscriptions agent channel (unsubscribe_call a c ∷ cs) b =
      run-subscriptions agent channel cs (unsubscribe a c b)
      ∙ ap (is_subscribed agent channel cs) (has_name-remove a c agent channel b.subscriptions)
  run-subscriptions agent channel (publish_call ch now a ∷ cs) b =
      run-subscriptions agent channel cs (publish decimal ch now a b).0
  run-subscriptions agent channel (direct_call t now a ∷ cs) b =
      run-subscriptions agent channel cs (publish_direct decimal t now a b).0
  run-subscriptions agent channel (grant_call a c ∷ cs) b =
      run-subscriptions agent channel cs (grant_access a c b)
  run-subscriptions agent channel (revoke_call a c ∷ cs) b =
      run-subscriptions agent channel cs (revoke_access a c b)

  run-acl :
      (agent channel : Str) (calls : List Call) (b : Bridge)
      → has_name channel agent (run decimal calls b).acl
        ≡ is_granted agent channel calls (has_name channel agent b.acl)
  unfolding run apply publish publish_direct subscribe unsubscribe grant_access revoke_access
  run-acl agent channel [] b = refl
  run-acl agent channel (grant_call a c ∷ cs) b =
      run-acl agent channel cs (grant_access a c b)
      ∙ ap (is_granted agent channel cs) (has_name-add c a channel agent b.acl)
  run-acl agent channel (revoke_call a c ∷ cs) b =
      run-acl agent channel cs (revoke_access a c b)
      ∙ ap (is_granted agent channel cs) (has_name-remove c a channel agent b.acl)
  run-acl agent channel (publish_call ch now a ∷ cs) b =
      run-acl agent channel cs (publish decimal ch now a b).0
  run-acl agent channel (direct_call t now a ∷ cs) b =
      run-acl agent channel cs (publish_direct decimal t now a b).0
  run-acl agent channel (subscribe_call a c ∷ cs) b = run-acl agent channel cs (subscribe a c b)
  run-acl agent channel (unsubscribe_call a c ∷ cs) b = run-acl agent channel cs (unsubscribe a c b)

scope-cases :
    (s : ContextScope) → (s ≡ global) ⊎ (s ≡ local) ⊎ (s ≡ isolated) ⊎ (t : Str) × (s ≡ other t)
scope-cases global = inl refl
scope-cases local = inr (inl refl)
scope-cases isolated = inr (inr (inl refl))
scope-cases (other t) = inr (inr (inr (t, refl)))

module _ (decimal : ℕ → Str) (heap : ℕ → ContextPackage) (capacity : ℤ) (calls : List Call) where
  run-granted :
      (agent c : Str)
      → let b = run decimal calls (new heap capacity) in
        (has_name agent c b.subscriptions ≡ is_subscribed agent c calls false)
        × (has_name c agent b.acl ≡ is_granted agent c calls false)
  unfolding has_name lookup new
  run-granted agent c = (
    run-subscriptions decimal agent c calls (new heap capacity),
    run-acl decimal agent c calls (new heap capacity),
  )

  can_read-IsReader :
      (agent : Str) (p : ContextPackage)
      → can_read (run decimal calls (new heap capacity)) agent p ≡ true
      → IsReader calls agent p
  unfolding can_read
  can_read-IsReader agent p h =
      let b = run decimal calls (new heap capacity) in
      elim (scope-cases p.scope) [
        | inl e ↦ inl e
        | inr (inl e) ↦ inr (inl e)
        | inr (inr (inr (t, e))) ↦ absurd (true-not-false (sym h ∙ rw (e, can_read) refl))
        | inr (inr (inl e)) ↦ elim (Bool-cases (equal p.target_agent agent)) [
          | inl same ↦ inr (inr (e, inl ((equal_iff p.target_agent agent).0 same)))
          | inr differ ↦
              let (c, sub, acc) =
                (granted_iff b agent).0
                  (sym (rw (differ) refl) ∙ sym (can_read-isolated b agent p e) ∙ h) in
              let (sub', acc') = run-granted agent c in
              inr (inr (e, inr (c, sym sub' ∙ sub, sym acc' ∙ acc)))
        ]
      ]

  IsReader-can_read :
      (agent : Str) (p : ContextPackage)
      → IsReader calls agent p
      → can_read (run decimal calls (new heap capacity)) agent p ≡ true
  unfolding can_read
  IsReader-can_read agent p (inl e) = rw (e, can_read) refl
  IsReader-can_read agent p (inr (inl e)) = rw (e, can_read) refl
  IsReader-can_read agent p (inr (inr (e, inl same))) =
      can_read-isolated (run decimal calls (new heap capacity)) agent p e
      ∙ rw ((equal_iff p.target_agent agent).1 same) refl
  IsReader-can_read agent p (inr (inr (e, inr (c, sub, acc)))) =
      let b = run decimal calls (new heap capacity) in
      let (sub', acc') = run-granted agent c in
      can_read-isolated b agent p e
      ∙ ap (◌||◌ (equal p.target_agent agent)) ((granted_iff b agent).1 (c, sub' ∙ sub, acc' ∙ acc))
      ∙ or_true (equal p.target_agent agent)

-- After any calls of the methods that write, on a bridge that was new, an agent gets a package by
-- ReadChannel exactly if it is in the queue of the channel, and global, or local, or isolated and
-- either directed to the agent or the agent is, by the last calls about it, subscribed to some
-- channel on which it has access.
pub read_channel-readers :
    (decimal : ℕ → Str) (heap : ℕ → ContextPackage) (capacity : ℤ) (calls : List Call)
    (agent channel : Str) (a : ℕ)
    → let b = run decimal calls (new heap capacity) in
      Memᴰ a (read_channel agent channel b)
      ↔ (Memᴰ a (queue b channel) × IsReader calls agent (b.heap a))
unfolding read_channel
read_channel-readers decimal heap capacity calls agent channel a =
    let b = run decimal calls (new heap capacity) in
    let q = queue b channel in
    (
      λ m.
          let (m', h) = filter-Mem_source (λ i. can_read b agent (b.heap i)) a q m in
          (m', can_read-IsReader decimal heap capacity calls agent (b.heap a) h),
      λ (m, reader).
          filter-Mem_kept (λ i. can_read b agent (b.heap i)) a q
            (IsReader-can_read decimal heap capacity calls agent (b.heap a) reader) m,
    )

-- An agent that subscribes to one channel and is granted access to it can read every isolated
-- package from then on, whatever channel the package is on and whomever it is directed to.
pub grant_access-opens_all :
    (b : Bridge) (agent channel : Str) (p : ContextPackage)
    → p.scope ≡ isolated
    → can_read (grant_access agent channel (subscribe agent channel b)) agent p ≡ true
unfolding grant_access subscribe
grant_access-opens_all b agent channel p e =
    let after = grant_access agent channel (subscribe agent channel b) in
    can_read-isolated after agent p e
    ∙ ap (◌||◌ (equal p.target_agent agent)) (
        (granted_iff after agent).1 (
          channel,
          ground (
            arith,
            has_name-add agent channel agent channel b.subscriptions,
            equal_refl agent,
            equal_refl channel,
          ),
          ground (
            arith,
            has_name-add channel agent channel agent b.acl,
            equal_refl agent,
            equal_refl channel,
          ),
        ))
    ∙ or_true (equal p.target_agent agent)
