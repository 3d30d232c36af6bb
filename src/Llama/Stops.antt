-- ===== src/Llama/Stops.antt =====
-- ark/infra/llamacpp/chat.go, `StopDetector`: a stream of text is cut before a stop word, also when
-- the word is spread over several chunks. Texts are lists of bytes.
mod Hold
pub mod Detect
pub mod Cut
pub mod Order
mod Tests
use domour.Common.{
  ℕ, zero, suc, ◌+◌, ◌-◌, Bool, true, false, ◌&&◌, Option, none, some, List, [], ◌∷◌, ◌++◌, leb,
  ltb, if◌then◌else◌, length, take, drop,
}
use domour.Common.Text.{Str, equal, has_suffix, index}

pub record Detector : Type 0 where
  pub stops : List Str
  pub buf : Str

abbrev non_empty : List Str → List Str
non_empty [] = []
non_empty ([] ∷ ws) = non_empty ws
non_empty ((c ∷ w) ∷ ws) = (c ∷ w) ∷ non_empty ws

-- NewStopDetector
unfoldable pub new : List Str → Detector
new stops = record { stops = non_empty stops; buf = [] }

-- The first stop word of the list that stands in `buf`, with its place there.
unfoldable pub find_stop : List Str → Str → Option ℕ
find_stop [] buf = none
find_stop (w ∷ ws) buf = elim (index buf w) [ some i ↦ some i | none ↦ find_stop ws buf ]

-- `for l := 1; l < len(stop) && l <= len(s.buf); l++`, from `l` on; `n` bounds the rounds left.
unfoldable pub longest_prefix : ℕ → ℕ → Str → Str → ℕ → ℕ
longest_prefix zero l w buf best = best
longest_prefix (suc n) l w buf best =
    let hit = has_suffix buf (take l w) && ltb best l in
    let rest = longest_prefix n (l + 1) w buf (if hit then l else best) in
    if ltb l (length w) && leb l (length buf) then rest else best

unfoldable pub max_prefix_len : List Str → Str → ℕ → ℕ
max_prefix_len [] buf best = best
max_prefix_len (w ∷ ws) buf best = max_prefix_len ws buf (longest_prefix (length w) 1 w buf best)

-- Process: what to emit, whether a stop word was met, and the detector after.
unfoldable pub process : Detector → Str → Str × Bool × Detector
process d incoming =
    let buf = d.buf ++ incoming in
    elim (find_stop d.stops buf) [
      | some i ↦ (take i buf, true, record d { buf = [] })
      | none ↦
          let kept = max_prefix_len d.stops buf 0 in
          if ltb 0 kept
          then (
            take (length buf - kept) buf,
            false,
            record d { buf = drop (length buf - kept) buf },
          )
          else (buf, false, record d { buf = [] })
    ]

-- FlushRemaining
unfoldable pub flush_remaining : Detector → Str × Detector
flush_remaining d = (d.buf, record d { buf = [] })

-- The use that the comments of the methods describe: Process on each chunk until it reports a stop
-- word, and FlushRemaining if none of them did.
unfoldable pub run : Detector → List Str → Str × Bool
run d [] = ((flush_remaining d).0, false)
run d (c ∷ cs) =
    let (emit, stopped, d') = process d c in
    let (rest, later) = run d' cs in if stopped then (emit, true) else (emit ++ rest, later)
