-- ===== src/Supervisor/Registry.antt =====
-- ark/supervisor/registry.go: the processes known by id. A method is one step, since each holds
-- the mutex. The map, the events and the callers share pointers to `AgentProcess`, so the objects
-- live in a heap; the channels of the listeners live in a store. `now` is what `time.Now` returns,
-- in nanoseconds; a `float64` is only copied and stands for its bits.
pub mod Fields
pub mod View
pub mod Steps
pub mod Sweep
pub mod Report
pub mod Fill
pub mod Notify
mod Tests
use domour.Common.{
  ℕ, ℤ, pos, negsuc, ◌+◌, ◌-◌, Bool, true, false, ◌&&◌, Option, none, some, List, [], ◌∷◌, ◌++◌,
  map, ltb, ◌==◌, if◌then◌else◌, length,
}
use domour.Common.Text.{Str, codes, equal}
use domour.Common.Assoc.{Assoc, lookup, insert, delete}

-- ProcessStatus; `unset` is the empty string.
pub data ProcessStatus : Type 0 where
  unset unknown initializing thinking working tool_use awaiting_confirmation idle terminated :
      ProcessStatus

pub record AgentProcess : Type 0 where
  pub id : Str
  pub pid : ℤ
  pub provider : Str
  pub client_type : Str
  pub workspace : Str
  pub status : ProcessStatus
  pub tool_pending : Bool
  pub current_tool : Str
  pub transcript_path : Str
  pub context_percent : ℕ
  pub quota_remaining : ℤ
  pub last_heartbeat : ℕ

pub record StatuslineUpdate : Type 0 where
  pub id : Str
  pub pid : ℤ
  pub workspace : Str
  pub agent_state : Str
  pub tool_pending : Bool
  pub current_tool : Str
  pub transcript_path : Str
  pub context_percent : ℕ
  pub quota_remaining : ℤ

pub data ProcessEventType : Type 0 where
  discovered updated tool_pending_event process_terminated : ProcessEventType

-- `process` is the address of an object.
pub record ProcessEvent : Type 0 where
  pub kind : ProcessEventType
  pub process : ℕ

pub record Channel : Type 0 where
  pub capacity : ℕ
  pub queue : List ProcessEvent

pub record Registry : Type 0 where
  pub processes : Assoc ℕ
  pub listeners : List ℕ
  pub heap : ℕ → AgentProcess
  pub made : ℕ
  pub channels : ℕ → Channel

abbrev pub put {ℓ} : {A : Type ℓ} → (ℕ → A) → ℕ → A → ℕ → A
put f a v b = if a == b then v else f b

-- NewRegistry, in a program that has made objects and channels.
unfoldable pub new : (ℕ → AgentProcess) → ℕ → (ℕ → Channel) → Registry
new heap made channels = record {
  processes = [];
  listeners = [];
  heap = heap;
  made = made;
  channels = channels;
}

-- Subscribe
unfoldable pub subscribe : Registry → ℕ → Registry
subscribe r ch = record r { listeners = r.listeners ++ (ch ∷ []) }

abbrev remove_first : ℕ → List ℕ → List ℕ
remove_first ch [] = []
remove_first ch (l ∷ ls) = let rest = remove_first ch ls in if l == ch then ls else l ∷ rest

-- Unsubscribe
unfoldable pub unsubscribe : Registry → ℕ → Registry
unsubscribe r ch = record r { listeners = remove_first ch r.listeners }

-- `select { case ch <- event: default: }`
unfoldable pub offer : ProcessEvent → Channel → Channel
offer event c =
    if ltb (length c.queue) c.capacity then record c { queue = c.queue ++ (event ∷ []) } else c

-- The loop of notify.
unfoldable pub notify_all : List ℕ → ProcessEvent → (ℕ → Channel) → ℕ → Channel
unfolding offer
notify_all [] event cs = cs
notify_all (l ∷ ls) event cs = notify_all ls event (put cs l (offer event (cs l)))

unfoldable pub notify : Registry → ProcessEventType → ℕ → Registry
unfolding notify_all
notify r kind a = record r {
  channels = notify_all r.listeners (record { kind = kind; process = a }) r.channels;
}

abbrev pub known : Option ℕ → Bool
known none = false
known (some a) = true

-- Register: `a` is the address of `p`.
unfoldable pub register : ℕ → Registry → ℕ → Registry
unfolding notify lookup insert
register now r a =
    let p : AgentProcess = record (r.heap a) { last_heartbeat = now } in
    notify (record r { heap = put r.heap a p; processes = insert p.id a r.processes })
      (if known (lookup p.id r.processes) then updated else discovered) a

abbrev positive : ℤ → Bool
positive (pos n) = ltb 0 n
positive (negsuc n) = false

-- The state machine of UpdateFromStatusline.
unfoldable pub next_status : StatuslineUpdate → ProcessStatus → ProcessStatus
unfolding equal
next_status u old =
    if u.tool_pending
    then awaiting_confirmation
    else if equal u.agent_state (codes "thinking")
    then thinking
    else if equal u.agent_state (codes "working")
    then working
    else if equal u.agent_state (codes "tool_use")
    then tool_use
    else if equal u.agent_state (codes "idle")
    then idle
    else if equal u.agent_state (codes "terminated")
    then terminated
    else elim old [ unset ↦ working | unknown ↦ working | s ↦ s ]

-- The fields that UpdateFromStatusline writes.
unfoldable pub merge : ℕ → StatuslineUpdate → AgentProcess → AgentProcess
unfolding next_status equal
merge now u p = record p {
  pid = if positive u.pid then u.pid else p.pid;
  workspace = if equal u.workspace [] then p.workspace else u.workspace;
  transcript_path = if equal u.transcript_path [] then p.transcript_path else u.transcript_path;
  context_percent = u.context_percent;
  quota_remaining = u.quota_remaining;
  tool_pending = u.tool_pending;
  current_tool = u.current_tool;
  last_heartbeat = now;
  status = next_status u p.status;
}

-- The object that UpdateFromStatusline makes for an id it does not know.
unfoldable pub fresh : StatuslineUpdate → Str → AgentProcess
fresh u provider = record {
  id = u.id;
  pid = u.pid;
  provider = provider;
  client_type = [];
  workspace = [];
  status = initializing;
  tool_pending = false;
  current_tool = [];
  transcript_path = [];
  context_percent = 0;
  quota_remaining = pos 0;
  last_heartbeat = 0;
}

abbrev pub is_awaiting : ProcessStatus → Bool
is_awaiting awaiting_confirmation = true
is_awaiting _ = false

-- UpdateFromStatusline: the address that it returns, and the registry after.
unfoldable pub update_from_statusline : ℕ → Registry → StatuslineUpdate → Str → ℕ × Registry
unfolding merge fresh notify lookup insert
update_from_statusline now r u provider = elim (lookup u.id r.processes) [
  | some a ↦
      let p = merge now u (r.heap a) in
      let kind = if is_awaiting p.status then tool_pending_event else updated in
      (a, notify (record r { heap = put r.heap a p }) kind a)
  | none ↦
      let p = merge now u (fresh u provider) in
      (
        r.made,
        notify
            (record r {
              processes = insert u.id r.made r.processes;
              heap = put r.heap r.made p;
              made = r.made + 1;
            })
            discovered r.made,
      )
]

-- Get: a copy.
unfoldable pub get : Registry → Str → Option AgentProcess
unfolding lookup
get r id = elim (lookup id r.processes) [ some a ↦ some (r.heap a) | none ↦ none ]

-- List: copies.
unfoldable pub list : Registry → List AgentProcess
list r = map (λ (k, a). r.heap a) r.processes

-- The fields that SetToolPending writes.
unfoldable pub pend : Bool → Str → AgentProcess → AgentProcess
pend pending current_tool p = record p {
  tool_pending = pending;
  current_tool = current_tool;
  status =
      if pending then awaiting_confirmation else if is_awaiting p.status then working else p.status;
}

-- SetToolPending
unfoldable pub set_tool_pending : Registry → Str → Bool → Str → Registry
unfolding pend notify lookup
set_tool_pending r id pending current_tool = elim (lookup id r.processes) [
  | some a ↦
      notify (record r { heap = put r.heap a (pend pending current_tool (r.heap a)) })
        tool_pending_event a
  | none ↦ r
]

unfoldable pub is_expired : ℕ → ℕ → AgentProcess → Bool
is_expired now ttl p = ltb ttl (now - p.last_heartbeat)

-- The loop of SweepExpired over the entries that the map had when it began.
unfoldable pub sweep_loop : ℕ → ℕ → Assoc ℕ → List Str → Registry → List Str × Registry
unfolding is_expired notify delete
sweep_loop now ttl [] expired r = (expired, r)
sweep_loop now ttl ((id, a) ∷ m) expired r =
    let p = r.heap a in
    let told =
      notify (record r { heap = put r.heap a (record p { status = terminated }) })
        process_terminated a in
    let swept =
      sweep_loop now ttl m (expired ++ (id ∷ []))
        (record told { processes = delete id r.processes }) in
    let kept = sweep_loop now ttl m expired r in if is_expired now ttl p then swept else kept

-- SweepExpired
unfoldable pub sweep_expired : ℕ → Registry → ℕ → List Str × Registry
unfolding sweep_loop
sweep_expired now r ttl = sweep_loop now ttl r.processes [] r
