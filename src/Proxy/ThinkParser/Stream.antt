-- ===== src/Proxy/ThinkParser/Stream.antt =====
-- Feeding a stream in any chunks yields what one pass over the whole text finds.
use domour.Common.{
  ℕ, Bool, true, false, Option, none, some, List, [], ◌∷◌, ◌++◌, ◌≡◌, ◌∙◌, refl, sym, ap, arith,
  append_assoc, append-nil, concat,
}
use domour.Common.Text.{Str, equal, index}
use domour.Common.Text.Match.{index-eq-none, index-drop}
use domour.Proxy.ThinkParser.{
  Client, Event, Parser, new, tag_of, content_event, or_return, feed, flush, run,
}
use domour.Proxy.ThinkParser.Scan.{item_of, items, all_items, spoken, scan}
use domour.Proxy.ThinkParser.Feed.{collect, all_items-concat, index-nil, Follows, feed_loop-Follows}

module _ (stage : Str) (client : Option Client) where
  feed-Follows :
      (p : Parser) (c : Str) (es : List Event)
      → Follows stage client p.is_thinking (p.buf ++ c) es (feed collect stage client p c es)
  unfolding feed
  feed-Follows p c es = feed_loop-Follows stage client _ p.is_thinking (p.buf ++ c) es (omega arith)

  -- What is complete when a stream ends.
  record Ends (p : Parser) (t : Str) (es : List Event) (out : Option Str × Parser × List Event)
      : Type 0 where
    fine : out.0 ≡ none
    same : all_items out.2 ≡ all_items es ++ scan p.is_thinking 0 (p.buf ++ t)
    empty : out.1.buf ≡ []

  all_items-content :
      (m : Bool) (c : ℕ) (s : Str) (es : List Event)
      → all_items (es ++ (content_event m stage client (c ∷ s) ∷ []))
        ≡ all_items es ++ spoken m (c ∷ s)
  unfolding items
  all_items-content true c s es = all_items-concat es _
  all_items-content false c s es = all_items-concat es _

  scan_held : (m : Bool) (s : Str) → index s (tag_of m) ≡ none → scan m 0 s ≡ spoken m s
  unfolding scan
  scan_held m [] e = refl
  scan_held m (c ∷ s) e =
      rw (index-eq-none (c ∷ s) (tag_of m) 0 e (omega arith), scan)
        (ap (◌∷◌ (item_of m c)) (scan_held m s (index-drop 1 (c ∷ s) (tag_of m) e)))

  flush-Ends :
      (m : Bool) (buf : Str) (es : List Event)
      → index buf (tag_of m) ≡ none
      → let p : Parser = record { is_thinking = m; buf = buf } in
        Ends p [] es (flush collect stage client p es)
  unfolding flush equal
  flush-Ends m [] es e = record {
    fine = refl;
    same = unfold scan in sym (append-nil (all_items es));
    empty = refl;
  }
  flush-Ends m (c ∷ s) es e = record {
    fine = refl;
    same =
        all_items-content m c s es
        ∙ ap (λ t. all_items es ++ t) (sym (scan_held m (c ∷ s) e))
        ∙ ap (λ t. all_items es ++ scan m 0 t) (sym (append-nil (c ∷ s)));
    empty = refl;
  }

  or_return-none :
      (out : Option Str × Parser × List Event)
      (next : List Event → Option Str × Parser × List Event)
      → out.0 ≡ none
      → or_return collect out.1 (out.0, out.2) next ≡ next out.2
  or_return-none (none, p, s) next h = refl
  or_return-none (some e, p, s) next h = absurd (cc)

  run-Ends :
      (p : Parser) (cs : List Str) (es : List Event)
      → index p.buf (tag_of p.is_thinking) ≡ none
      → Ends p (concat cs) es (run collect stage client p cs es)
  unfolding run
  run-Ends p [] es e = flush-Ends p.is_thinking p.buf es e
  run-Ends p (c ∷ cs) es e =
      let out = feed collect stage client p c es in
      let f = feed-Follows p c es in
      let rest = run-Ends out.1 cs out.2 f.held in
      rw (or_return-none out (λ t. run collect stage client out.1 cs t) f.fine) (record {
        fine = rest.fine;
        same =
            rest.same
            ∙ f.same (concat cs)
            ∙ ap (λ t. all_items es ++ scan p.is_thinking 0 t) (append_assoc p.buf c (concat cs));
        empty = rest.empty;
      })

-- A stream that is fed in any chunks to a listener that never fails ends with no error and an
-- empty buffer, and its events hold what one pass over the whole text finds: the bytes outside
-- and inside the tags in order, each with its mode, and a marker for each opening tag.
pub run-scan :
    (stage : Str) (client : Option Client) (chunks : List Str)
    → let out = run collect stage client new chunks [] in
      (out.0 ≡ none) × (all_items out.2 ≡ scan false 0 (concat chunks)) × (out.1.buf ≡ [])
unfolding new all_items
run-scan stage client chunks =
    let done = run-Ends stage client new chunks [] (index-nil false) in
    (done.fine, done.same, done.empty)
