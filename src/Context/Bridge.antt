-- ===== src/Context/Bridge.antt =====
-- internal/bionic/context/context_bridge.go: packages that agents publish for others on named
-- channels. The queues hold pointers, and publishing writes to the package, so the packages are in
-- a heap. A set of names is an association list with values of one element. `decimal` is `%d`.
mod Names
pub mod Access
mod Queue
mod Tests
use domour.Common.{
  ℕ, ℤ, pos, negsuc, ◌+◌, ◌-◌, Bool, true, false, ◌||◌, Option, none, some, List, [], ◌∷◌, ◌++◌,
  map, ltb, ◌==◌, if◌then◌else◌, length, drop, any, filter, is_some,
}
use domour.Common.Text.{Str, codes, equal}
use domour.Common.Assoc.{Assoc, lookup, insert, delete}

-- ContextScope; `other` is a text that is none of the three.
pub data ContextScope : Type 0 where
  global local isolated : ContextScope
  other : Str → ContextScope

abbrev pub scope_name : ContextScope → Str
scope_name global = codes "global"
scope_name local = codes "local"
scope_name isolated = codes "isolated"
scope_name (other s) = s

pub record ContextPackage : Type 0 where
  pub id : Str
  pub source_agent : Str
  pub target_agent : Str
  pub scope : ContextScope
  pub session_id : Str
  pub topic_id : Str
  pub label : Str
  pub summary : Str
  pub artifacts : Assoc Str
  pub metadata : Assoc Str
  pub version : ℤ
  pub timestamp : ℕ

pub record BridgeChannel : Type 0 where
  pub name : Str
  pub scope : ContextScope
  pub session_id : Str
  pub topic_id : Str
  pub label : Str

pub data Member : Type 0 where
  member : Member

-- The code makes an empty inner map before the first name is put in.
unfoldable pub add_name : Str → Str → Assoc (Assoc Member) → Assoc (Assoc Member)
unfolding lookup insert
add_name outer inner m =
    insert outer (insert inner member (elim (lookup outer m) [ none ↦ [] | some names ↦ names ])) m

unfoldable pub remove_name : Str → Str → Assoc (Assoc Member) → Assoc (Assoc Member)
unfolding lookup insert delete
remove_name outer inner m = elim (lookup outer m) [
  | none ↦ m
  | some names ↦ insert outer (delete inner names) m
]

unfoldable pub has_name : Str → Str → Assoc (Assoc Member) → Bool
unfolding lookup
has_name outer inner m = elim (lookup outer m) [
  | none ↦ false
  | some names ↦ is_some (lookup inner names)
]

pub record Bridge : Type 0 where
  -- what a pointer to a package points to
  pub heap : ℕ → ContextPackage
  pub packages : Assoc (List ℕ)
  -- channel, then the agents that may read it
  pub acl : Assoc (Assoc Member)
  -- agent, then its channels
  pub subscriptions : Assoc (Assoc Member)
  pub cap : ℕ

-- ChannelName
unfoldable pub channel_name : ContextScope → Str → Str → Str → Str
channel_name scope session_id topic_id label =
    scope_name scope ++ (b':' ∷ (session_id ++ (b':' ∷ (topic_id ++ (b':' ∷ label)))))

-- NewContextBridge
unfoldable pub new : (ℕ → ContextPackage) → ℤ → Bridge
new heap capacity = record {
  heap = heap;
  packages = [];
  acl = [];
  subscriptions = [];
  cap = elim capacity [ pos n ↦ (if n == 0 then 16 else n) | negsuc _ ↦ 16 ];
}

-- NewContextPackage
unfoldable pub new_package : Str → Str → Str → ℕ → ContextPackage
new_package source label summary now = record {
  id = [];
  source_agent = source;
  target_agent = [];
  scope = other [];
  session_id = [];
  topic_id = [];
  label = label;
  summary = summary;
  artifacts = [];
  metadata = [];
  version = pos 0;
  timestamp = now;
}

unfoldable pub queue : Bridge → Str → List ℕ
unfolding lookup
queue b name = elim (lookup name b.packages) [ none ↦ [] | some q ↦ q ]

unfoldable pub direct_channel : Str → ContextPackage → BridgeChannel
direct_channel target p = record {
  name = codes "direct:" ++ (p.source_agent ++ (b':' ∷ target));
  scope = isolated;
  session_id = p.session_id;
  topic_id = [];
  label = codes "direct";
}

module _ (decimal : ℕ → Str) where
  -- the fields that Publish sets
  unfoldable pub stamp : BridgeChannel → ℕ → ContextPackage → ContextPackage
  unfolding equal
  stamp channel now p = record p {
    id =
        if equal p.id []
        then codes "pkg-" ++ (p.source_agent ++ (b'-' ∷ decimal p.timestamp))
        else p.id;
    timestamp = now;
    scope = channel.scope;
    session_id = channel.session_id;
    topic_id = channel.topic_id;
  }

  -- Publish, with the result
  unfoldable pub publish : BridgeChannel → ℕ → ℕ → Bridge → Bridge × Str
  unfolding stamp queue insert
  publish channel now a b =
      let p : ContextPackage = stamp channel now (b.heap a) in
      let q : List ℕ = queue b channel.name ++ (a ∷ []) in
      let kept : List ℕ = if ltb b.cap (length q) then drop (length q - b.cap) q else q in
      (
        record b {
          heap = λ i. if i == a then p else b.heap i;
          packages = insert channel.name kept b.packages;
        },
        p.id,
      )

  -- PublishDirect
  unfoldable pub publish_direct : Str → ℕ → ℕ → Bridge → Bridge × Str
  unfolding publish direct_channel
  publish_direct target now a b = publish (direct_channel target (b.heap a)) now a (record b {
    heap = λ i. if i == a then record (b.heap a) { target_agent = target } else b.heap i;
  })

-- Subscribe
unfoldable pub subscribe : Str → Str → Bridge → Bridge
unfolding add_name
subscribe agent channel b = record b { subscriptions = add_name agent channel b.subscriptions }

-- Unsubscribe
unfoldable pub unsubscribe : Str → Str → Bridge → Bridge
unfolding remove_name
unsubscribe agent channel b = record b { subscriptions = remove_name agent channel b.subscriptions }

-- GrantAccess
unfoldable pub grant_access : Str → Str → Bridge → Bridge
unfolding add_name
grant_access agent channel b = record b { acl = add_name channel agent b.acl }

-- RevokeAccess
unfoldable pub revoke_access : Str → Str → Bridge → Bridge
unfolding remove_name
revoke_access agent channel b = record b { acl = remove_name channel agent b.acl }

-- SubscribedChannels
unfoldable pub subscribed_channels : Str → Bridge → List Str
unfolding lookup
subscribed_channels agent b = elim (lookup agent b.subscriptions) [
  | none ↦ []
  | some names ↦ map (λ e. e.0) names
]

-- canRead
unfoldable pub can_read : Bridge → Str → ContextPackage → Bool
unfolding equal has_name subscribed_channels
can_read b agent p = elim p.scope [
  | global ↦ true
  | local ↦ true
  | isolated ↦
      equal p.target_agent agent
      || any (λ channel. has_name channel agent b.acl) (subscribed_channels agent b)
  | other _ ↦ false
]

abbrev pub last : List ℕ → Option ℕ
last [] = none
last (a ∷ []) = some a
last (a ∷ c ∷ q) = last (c ∷ q)

-- ReadLatest
unfoldable pub read_latest : Str → Str → Bridge → Option ℕ
unfolding queue can_read
read_latest agent channel b = elim (last (queue b channel)) [
  | none ↦ none
  | some a ↦ if can_read b agent (b.heap a) then some a else none
]

-- ReadChannel
unfoldable pub read_channel : Str → Str → Bridge → List ℕ
unfolding queue can_read
read_channel agent channel b = filter (λ a. can_read b agent (b.heap a)) (queue b channel)

-- A call of a method that writes. The caller keeps the package that a pointer stands for.
pub data Call : Type 0 where
  publish_call : BridgeChannel → ℕ → ℕ → Call
  direct_call : Str → ℕ → ℕ → Call
  subscribe_call unsubscribe_call grant_call revoke_call : Str → Str → Call

module _ (decimal : ℕ → Str) where
  unfoldable pub apply : Call → Bridge → Bridge
  unfolding publish publish_direct subscribe unsubscribe grant_access revoke_access
  apply (publish_call channel now a) b = (publish decimal channel now a b).0
  apply (direct_call target now a) b = (publish_direct decimal target now a b).0
  apply (subscribe_call agent channel) b = subscribe agent channel b
  apply (unsubscribe_call agent channel) b = unsubscribe agent channel b
  apply (grant_call agent channel) b = grant_access agent channel b
  apply (revoke_call agent channel) b = revoke_access agent channel b

  -- calls one after another, each under the mutex
  unfoldable pub run : List Call → Bridge → Bridge
  unfolding apply
  run [] b = b
  run (c ∷ cs) b = run cs (apply c b)
