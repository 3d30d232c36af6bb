-- ===== src/Context/Stm.antt =====
-- internal/bionic/context/context_manager.go, `STMBuffer`: the ring buffer of recent nodes. A method
-- is one step, since each takes the mutex. The type of nodes is a parameter, with the field
-- `TurnID`; a cell of the slice is a pointer that may be nil.
pub mod Spec
mod Inv
pub mod Recent
pub mod Protected
mod Tests
use domour.Common.{
  ℕ, zero, suc, ◌+◌, ◌-◌, ◌%◌, Bool, true, false, not, Option, none, some, List, [], ◌∷◌, ◌++◌, ltb,
  ◌==◌, if◌then◌else◌, length, get_or, set, replicate, any,
}
use mathlib.Core.List.{reverse}
use domour.Common.Text.{Str, equal}

-- STMConfig, the fields that the buffer reads
pub record Config : Type 0 where
  pub capacity : ℕ
  pub protected_turns : ℕ

pub record Buffer (A : Type 0) : Type 0 where
  pub config : Config
  pub nodes : List (Option A)
  pub offset : ℕ
  pub size : ℕ

module _ {A : Type 0} where
  -- NewSTMBuffer
  unfoldable pub new : Config → Buffer A
  new cfg = record { config = cfg; nodes = replicate cfg.capacity none; offset = 0; size = 0 }

  -- applyModeConfig lowers the capacity of a new buffer whose slice stays as it is.
  unfoldable pub set_capacity : Buffer A → ℕ → Buffer A
  set_capacity b n = record b {
    config = record { capacity = n; protected_turns = b.config.protected_turns };
  }

  -- Append
  unfoldable pub append : Buffer A → Option A → Buffer A
  append b node = record b {
    nodes = set b.nodes b.offset node;
    offset = (b.offset + 1) % b.config.capacity;
    size = if ltb b.size b.config.capacity then b.size + 1 else b.size;
  }

  -- Range. `fn` works on a state and returns whether to go on; `n` rounds are left, `i` is the
  -- counter, and `place i` the index of the round.
  unfoldable pub range_loop :
      {S : Type 0} → (ℕ → A → S → Bool × S) → List (Option A) → (ℕ → ℕ) → ℕ → ℕ → S → S
  range_loop fn nodes place zero i s = s
  range_loop fn nodes place (suc n) i s = elim (get_or nodes (place i) none) [
    | none ↦ range_loop fn nodes place n (i + 1) s
    | some node ↦
        let (go_on, s') = fn i node s in
        let rest = range_loop fn nodes place n (i + 1) s' in if go_on then rest else s'
  ]

  unfoldable pub range : {S : Type 0} → (ℕ → A → S → Bool × S) → Buffer A → S → S
  unfolding range_loop
  range fn b s =
      if ltb b.size b.config.capacity
      then range_loop fn b.nodes (λ i. i) b.size 0 s
      else range_loop fn b.nodes (λ i. (b.offset + i) % b.config.capacity) b.config.capacity 0 s

  -- Snapshot
  unfoldable pub snapshot : Buffer A → List A
  unfolding range
  snapshot b = range (λ i node result. (true, result ++ (node ∷ []))) b []

  module _ (turn_id : A → Str) where
    -- The loop of ProtectedBoundary, from the last node on: `earlier` are the nodes before this one,
    -- so its index is their number; `seen` are the turns met.
    unfoldable pub boundary_loop : ℕ → List A → List Str → ℕ → ℕ
    unfolding equal
    boundary_loop limit [] seen protected = 0
    boundary_loop limit (node ∷ earlier) seen protected =
        let old = any (equal (turn_id node)) seen in
        let seen' = if not old then turn_id node ∷ seen else seen in
        let protected' = if not old then protected + 1 else protected in
        let rest = boundary_loop limit earlier seen' protected' in
        if ltb limit protected' then length earlier + 1 else rest

    -- ProtectedBoundary
    unfoldable pub protected_boundary : Buffer A → ℕ
    unfolding boundary_loop snapshot
    protected_boundary b =
        if b.size == 0
        then 0
        else boundary_loop b.config.protected_turns (reverse (snapshot b)) [] 0
