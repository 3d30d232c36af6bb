-- ===== src/Proxy/ThinkParser.antt =====
-- internal/cognitor/proxy/think_parser.go: text and thinking are told apart in a stream whose
-- chunks may end inside a tag. Texts are lists of bytes; `yield` is any action on a state `S` that
-- may fail with an error `E`.
mod Feed
mod HoldBack
mod Scan
pub mod Stream
mod Tests
use domour.Common.{
  ℕ, zero, suc, ◌+◌, ◌-◌, Bool, true, false, not, Option, none, some, List, [], ◌∷◌, ◌++◌, ltb,
  if◌then◌else◌, length, take, drop,
}
use domour.Common.Text.{Str, codes, equal, has_suffix, index}

pub record Client : Type 0 where
  pub provider : Str
  pub model : Str

-- shared.ThinkingDetail, the fields that the parser sets
pub record Detail : Type 0 where
  pub engine : Str
  pub stage : Str

-- shared.MotorStreamEvent, the fields that the parser sets; `kind` is `Type`.
pub record Event : Type 0 where
  pub stage : Str
  pub kind : ℕ
  pub content : Str
  pub thinking : Option Detail
  pub meta : Option Client

pub record Parser : Type 0 where
  pub is_thinking : Bool
  pub buf : Str

abbrev pub open_tag : Str
open_tag = codes "<think>"

abbrev pub close_tag : Str
close_tag = codes "</think>"

unfoldable pub new : Parser
new = record { is_thinking = false; buf = [] }

-- The loop of `safeFlushEnd`: `n` rounds are left, `i` is the counter.
unfoldable pub max_match : ℕ → ℕ → Str → Str → ℕ → ℕ
max_match zero i s tag best = best
max_match (suc n) i s tag best =
    max_match n (i + 1) s tag (if has_suffix s (take i tag) then i else best)

abbrev min : ℕ → ℕ → ℕ
min a b = if ltb a b then a else b

unfoldable pub safe_flush_end : Str → Str → ℕ
unfolding max_match
safe_flush_end s tag = length s - max_match (min (length s) (length tag)) 1 s tag 0

abbrev engine_of : Option Client → Str
engine_of none = []
engine_of (some c) = c.provider

abbrev pub text_event : Str → Option Client → Str → Event
text_event stage client s = record {
  stage = stage;
  kind = 0;
  content = s;
  thinking = none;
  meta = client;
}

abbrev pub thinking_event : Str → Option Client → Str → Event
thinking_event stage client s = record {
  stage = stage;
  kind = 1;
  content = s;
  thinking = some (record { engine = engine_of client; stage = codes "thought" });
  meta = client;
}

-- The event for content of the current mode.
abbrev pub content_event : Bool → Str → Option Client → Str → Event
content_event true = thinking_event
content_event false = text_event

abbrev pub tag_of : Bool → Str
tag_of true = close_tag
tag_of false = open_tag

module _ {S E : Type 0} (yield : Event → S → Option E × S) where
  -- `if cond { if err := yield(…); err != nil { return err } }`
  abbrev pub yield_if : Bool → Event → S → Option E × S
  yield_if true e s = yield e s
  yield_if false e s = (none, s)

  -- `return err`, or go on
  abbrev pub or_return : Parser → Option E × S → (S → Option E × Parser × S) → Option E × Parser × S
  or_return p (some e, s) next = (some e, p, s)
  or_return p (none, s) next = next s

  module _ (stage : Str) (client : Option Client) where
    -- No tag in `content`: flush what cannot belong to one, and keep the rest for the next call.
    abbrev hold_back : Bool → Str → S → Option E × Parser × S
    hold_back thinking content s =
        let safe_end = safe_flush_end content (tag_of thinking) in
        or_return (record { is_thinking = thinking; buf = [] })
          (yield_if (ltb 0 safe_end) (content_event thinking stage client (take safe_end content))
            s)
          (λ s'. (none, record { is_thinking = thinking; buf = drop safe_end content }, s'))

    -- The thinking-start marker; a closing tag has none.
    abbrev mark_start : Bool → S → Option E × S
    mark_start thinking s = yield_if (not thinking) (thinking_event stage client []) s

    -- `for content != ""`; the builder is empty while the loop runs.
    unfoldable pub feed_loop : ℕ → Bool → Str → S → Option E × Parser × S
    feed_loop zero thinking content s = (none, record { is_thinking = thinking; buf = [] }, s)
    feed_loop (suc fuel) thinking content s = elim (equal content []) [
      | true ↦ (none, record { is_thinking = thinking; buf = [] }, s)
      | false ↦ elim (index content (tag_of thinking)) [
        | none ↦ hold_back thinking content s
        | some i ↦
            or_return (record { is_thinking = thinking; buf = [] })
              (yield_if (ltb 0 i) (content_event thinking stage client (take i content)) s)
              (λ s'.
                or_return (record { is_thinking = not thinking; buf = [] }) (mark_start thinking s')
                  (λ t.
                    feed_loop fuel (not thinking) (drop (i + length (tag_of thinking)) content) t))
      ]
    ]

    -- Feed. A round takes a tag off, so one round more than there are bytes is enough.
    unfoldable pub feed : Parser → Str → S → Option E × Parser × S
    feed p chunk s =
        let content = p.buf ++ chunk in feed_loop (suc (length content)) p.is_thinking content s

    -- Flush
    unfoldable pub flush : Parser → S → Option E × Parser × S
    flush p s =
        let empty = record p { buf = [] } in
        elim (equal p.buf []) [
          | true ↦ (none, empty, s)
          | false ↦
              or_return empty (yield (content_event p.is_thinking stage client p.buf) s)
                (λ s'. (none, empty, s'))
        ]

    -- A stream: every chunk in turn, until an error, and then `Flush`.
    unfoldable pub run : Parser → List Str → S → Option E × Parser × S
    run p [] s = flush p s
    run p (c ∷ cs) s = let (e, p', s') = feed p c s in or_return p' (e, s') (λ t. run p' cs t)
