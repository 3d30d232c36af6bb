-- ===== src/Context/Bridge/Names.antt =====
-- internal/bionic/context/context_bridge.go: the sets of names, and `canRead` as a statement on them.
use domour.Common.{
  Bool, true, not, ◌&&◌, ◌||◌, ◌≡◌, refl, sym, ◌∙◌, ◌↔◌, inl, inr, arith, Option-cases, none, some,
  [], ◌∷◌, map, any, is_some, Bool-cases,
}
use domour.Common.Text.{Str, equal, equal_iff, equal_refl}
use domour.Common.Assoc.{Assoc, lookup, insert, delete, lookup-insert, lookup-delete}
use domour.Context.Bridge.{
  isolated, ContextPackage, Member, member, add_name, remove_name, has_name, Bridge,
  subscribed_channels, can_read,
}

-- the set of names under a key
abbrev names_of : Str → Assoc (Assoc Member) → Assoc Member
names_of o m = elim (lookup o m) [ none ↦ [] | some names ↦ names ]

pub has_name-lookup :
    (o i : Str) (m : Assoc (Assoc Member)) → has_name o i m ≡ is_some (lookup i (names_of o m))
unfolding has_name lookup
has_name-lookup o i m = elim (Option-cases (lookup o m)) [
  | inl e ↦ ground (arith, e)
  | inr (names, e) ↦ ground (arith, e)
]

pub has_name-add :
    (o i o' i' : Str) (m : Assoc (Assoc Member))
    → has_name o' i' (add_name o i m) ≡ (equal o o' && equal i i') || has_name o' i' m
unfolding add_name
has_name-add o i o' i' m = ground (
  arith,
  has_name-lookup o' i' m,
  has_name-lookup o' i' (add_name o i m),
  equal_iff o o',
  lookup-insert o o' (insert i member (names_of o m)) m,
  lookup-insert i i' member (names_of o m),
)

pub has_name-remove :
    (o i o' i' : Str) (m : Assoc (Assoc Member))
    → has_name o' i' (remove_name o i m) ≡ not (equal o o' && equal i i') && has_name o' i' m
unfolding has_name remove_name
has_name-remove o i o' i' m = elim (Option-cases (lookup o m)) [
  | inl e ↦ rw (e, remove_name) ground (arith, equal_iff o o', e, has_name)
  | inr (names, e) ↦
      rw (e, remove_name) ground
        (
          arith,
          e,
          has_name,
          equal_iff o o',
          lookup-insert o o' (delete i names) m,
          lookup-delete i i' names,
        )
]

any-map-true :
    (p : Str → Bool) (names : Assoc Member) (c : Str)
    → is_some (lookup c names) ≡ true
    → p c ≡ true
    → any p (map (λ e. e.0) names) ≡ true
unfolding lookup
any-map-true p [] c here yes_p = ground arith
any-map-true p ((d, m) ∷ names) c here yes_p = ground (arith, any-map-true p names c, equal_iff d c)

any-map-found :
    (p : Str → Bool) (names : Assoc Member)
    → any p (map (λ e. e.0) names) ≡ true
    → (c : Str) × (is_some (lookup c names) ≡ true) × (p c ≡ true)
unfolding lookup
any-map-found p [] h = absurd (cc)
any-map-found p ((d, m) ∷ names) h = elim (Bool-cases (p d)) [
  | inl e ↦ (d, ground (arith, equal_refl d), e)
  | inr e ↦
      let (c, here, yes_p) = any-map-found p names (ground arith) in (c, ground (arith), yes_p)
]

subscribed_any :
    (p : Str → Bool) (agent : Str) (b : Bridge)
    → any p (subscribed_channels agent b) ≡ any p (map (λ e. e.0) (names_of agent b.subscriptions))
unfolding subscribed_channels
subscribed_any p agent b = elim (Option-cases (lookup agent b.subscriptions)) [
  | inl e ↦ rw (e, subscribed_channels, names_of) refl
  | inr (names, e) ↦ rw (e, subscribed_channels, names_of) refl
]

pub can_read-isolated :
    (b : Bridge) (agent : Str) (p : ContextPackage)
    → p.scope ≡ isolated
    → can_read b agent p
      ≡ equal p.target_agent agent
        || any (λ c. has_name c agent b.acl) (map (λ e. e.0) (names_of agent b.subscriptions))
unfolding can_read
can_read-isolated b agent p e =
    rw (e, can_read, subscribed_any (λ c. has_name c agent b.acl) agent b) refl

-- some channel that the agent is subscribed to and has access to
pub granted_iff :
    (b : Bridge) (agent : Str)
    → (any (λ c. has_name c agent b.acl) (map (λ e. e.0) (names_of agent b.subscriptions)) ≡ true)
      ↔ (c : Str) × (has_name agent c b.subscriptions ≡ true) × (has_name c agent b.acl ≡ true)
granted_iff b agent = (
  λ h.
      let (c, here, ok) =
        any-map-found (λ c. has_name c agent b.acl) (names_of agent b.subscriptions) h in
      (c, has_name-lookup agent c b.subscriptions ∙ here, ok),
  λ (c, here, ok).
      any-map-true (λ c. has_name c agent b.acl) (names_of agent b.subscriptions) c
        (sym (has_name-lookup agent c b.subscriptions) ∙ here) ok,
)
