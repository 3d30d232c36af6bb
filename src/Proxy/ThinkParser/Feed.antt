-- ===== src/Proxy/ThinkParser/Feed.antt =====
-- One call of `Feed`: what the listener is told and what the parser keeps.
use domour.Common.{
  ℕ, zero, suc, ◌+◌, ◌≤◌, ◌<◌, Bool, true, false, not, Option, none, List, [], ◌∷◌, ◌++◌, inl, inr,
  ◌≡◌, ◌∙◌, refl, sym, arith, Option-cases, ltb, length, take, drop, length-drop, length-append,
  drop-append_le, take-append_le, append_assoc, append-nil, drop-drop,
}
use domour.Common.Text.{Str, equal, index}
use domour.Common.Text.Match.{index-drop, index-FirstAt, FirstAt, has_prefix-append}
use domour.Proxy.ThinkParser.{
  Client, Event, Parser, tag_of, content_event, thinking_event, safe_flush_end, yield_if, feed_loop,
}
use domour.Proxy.ThinkParser.HoldBack.{safe_flush_end-le, not_completed}
use domour.Proxy.ThinkParser.Scan.{items, all_items, spoken, marker, scan, scan_tag, scan_clear}

-- A listener that keeps every event and never fails.
abbrev pub collect : Event → List Event → Option Str × List Event
collect e es = (none, es ++ (e ∷ []))

pub all_items-concat :
    (es : List Event) (e : Event) → all_items (es ++ (e ∷ [])) ≡ all_items es ++ items e
unfolding all_items
all_items-concat [] e = append-nil (items e)
all_items-concat (x ∷ es) e =
    rw (all_items-concat es e) (sym (append_assoc (items x) (all_items es) (items e)))

pub index-nil : (m : Bool) → index [] (tag_of m) ≡ none
unfolding index
index-nil true = refl
index-nil false = refl

tag_pos : (m : Bool) → 0 < length (tag_of m)
tag_pos true = omega arith
tag_pos false = omega arith

module _ (stage : Str) (client : Option Client) where
  -- what is listed after a guarded content event
  listed : Bool → ℕ → Str → List Event → List Event
  listed m zero s es = es
  listed m (suc j) s es = es ++ (content_event m stage client (take (suc j) s) ∷ [])

  yield_if-listed :
      (m : Bool) (j : ℕ) (s : Str) (es : List Event)
      → yield_if collect (ltb 0 j) (content_event m stage client (take j s)) es
        ≡ (none, listed m j s es)
  unfolding listed
  yield_if-listed m zero s es = refl
  yield_if-listed m (suc j) s es = ground arith

  all_items-listed :
      (m : Bool) (j : ℕ) (s : Str) (es : List Event)
      → j ≤ length s
      → all_items (listed m j s es) ≡ all_items es ++ spoken m (take j s)
  unfolding listed items
  all_items-listed m zero s es h = sym (append-nil (all_items es))
  all_items-listed m (suc j) [] es h = absurd (omega arith)
  all_items-listed true (suc j) (c ∷ s) es h = all_items-concat es _
  all_items-listed false (suc j) (c ∷ s) es h = all_items-concat es _

  -- The listener knows the items of what was fed, the parser holds the rest, whatever follows.
  pub record Follows (m : Bool) (content : Str) (es : List Event)
      (out : Option Str × Parser × List Event) : Type 0 where
    pub fine : out.0 ≡ none
    pub same :
        (r : Str)
        → all_items out.2 ++ scan out.1.is_thinking 0 (out.1.buf ++ r)
          ≡ all_items es ++ scan m 0 (content ++ r)
    pub held : index out.1.buf (tag_of out.1.is_thinking) ≡ none

  hold_back-same :
      (m : Bool) (s r : Str) (es : List Event)
      → index s (tag_of m) ≡ none
      → let j = safe_flush_end s (tag_of m) in
        all_items (listed m j s es) ++ scan m 0 (drop j s ++ r) ≡ all_items es ++ scan m 0 (s ++ r)
  hold_back-same m s r es e =
      let j = safe_flush_end s (tag_of m) in
      let fits : j ≤ length s = safe_flush_end-le s (tag_of m) in
      rw
        (
          all_items-listed m j s es fits,
          scan_clear m j (s ++ r) (omega (arith, length-append s r))
              (λ d l. not_completed s (tag_of m) r d e l),
          take-append_le j s r fits,
          drop-append_le j s r fits,
        )
        (append_assoc (all_items es) (spoken m (take j s)) (scan m 0 (drop j s ++ r)))

  skip_tag :
      (m : Bool) (i : ℕ) (s r : Str) (es : List Event)
      → FirstAt s (tag_of m) i
      → all_items (listed m i s es)
          ++ (marker m ++ scan (not m) 0 (drop (i + length (tag_of m)) s ++ r))
        ≡ all_items es ++ scan m 0 (s ++ r)
  skip_tag m i s r es f =
      let tag = tag_of m in
      rw
        (
          all_items-listed m i s es (omega (arith, f.fits)),
          scan_clear m i (s ++ r) (omega (arith, f.fits, length-append s r)) (λ d l.
              rw (drop-append_le d s r (omega (arith, f.fits))) (
                has_prefix-append (drop d s) tag r (omega (arith, f.fits, length-drop d s))
                ∙ f.before d l)),
          take-append_le i s r (omega (arith, f.fits)),
          scan_tag m (drop i (s ++ r)) (
              rw (drop-append_le i s r (omega (arith, f.fits))) (
                has_prefix-append (drop i s) tag r (omega (arith, f.fits, length-drop i s))
                ∙ f.here)),
          drop-drop i (length tag) (s ++ r),
          drop-append_le (i + length tag) s r f.fits,
        )
        (append_assoc (all_items es) (spoken m (take i s)) _)

  -- what is listed after the marker
  marked : Bool → List Event → List Event
  marked true es = es
  marked false es = es ++ (thinking_event stage client [] ∷ [])

  mark_start-marked :
      (m : Bool) (es : List Event)
      → yield_if collect (not m) (thinking_event stage client []) es ≡ (none, marked m es)
  unfolding marked
  mark_start-marked true es = refl
  mark_start-marked false es = refl

  all_items-marked :
      (m : Bool) (es : List Event) → all_items (marked m es) ≡ all_items es ++ marker m
  unfolding marked items
  all_items-marked true es = sym (append-nil (all_items es))
  all_items-marked false es = all_items-concat es _

  -- A round that takes a tag off, and the rounds behind it.
  Follows-tag :
      (m : Bool) (i : ℕ) (s : Str) (es : List Event) (out : Option Str × Parser × List Event)
      → FirstAt s (tag_of m) i
      → Follows (not m) (drop (i + length (tag_of m)) s) (marked m (listed m i s es)) out
      → Follows m s es out
  Follows-tag m i s es out f rest = record {
    fine = rest.fine;
    same = λ r.
        rest.same r
        ∙ rw all_items-marked
            (append_assoc (all_items (listed m i s es)) (marker m) _ ∙ skip_tag m i s r es f);
    held = rest.held;
  }

  pub feed_loop-Follows :
      (fuel : ℕ) (m : Bool) (s : Str) (es : List Event)
      → length s < fuel
      → Follows m s es (feed_loop collect stage client fuel m s es)
  unfolding feed_loop equal
  feed_loop-Follows zero m s es h = absurd (omega arith)
  feed_loop-Follows (suc fuel) m [] es h = record {
    fine = refl;
    same = λ r. refl;
    held = index-nil m;
  }
  feed_loop-Follows (suc fuel) m (c ∷ s) es h = elim (Option-cases (index (c ∷ s) (tag_of m))) [
    | inl e ↦
        let j = safe_flush_end (c ∷ s) (tag_of m) in
        rw (e, feed_loop, yield_if-listed m j (c ∷ s) es)
          (record {
            fine = refl;
            same = λ r. hold_back-same m (c ∷ s) r es e;
            held = index-drop j (c ∷ s) (tag_of m) e;
          })
    | inr (i, e) ↦
        let f = index-FirstAt (c ∷ s) (tag_of m) i e in
        rw
          (
            e,
            feed_loop,
            yield_if-listed m i (c ∷ s) es,
            mark_start-marked m (listed m i (c ∷ s) es),
          )
          (Follows-tag m i (c ∷ s) es _ f (
            feed_loop-Follows fuel (not m) (drop (i + length (tag_of m)) (c ∷ s)) _
              (omega (arith, length-drop (i + length (tag_of m)) (c ∷ s), tag_pos m, f.fits))))
  ]
