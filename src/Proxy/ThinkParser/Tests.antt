-- ===== src/Proxy/ThinkParser/Tests.antt =====
-- Runs of the parser on streams whose tags are cut by chunk ends.
use domour.Common.{concat, false, Option, none, List, [], ◌∷◌, ◌≡◌, refl}
use domour.Common.Text.{Str, codes, equal, has_suffix, index}
use domour.Proxy.ThinkParser.{
  Event, Parser, new, safe_flush_end, text_event, thinking_event, feed_loop, feed, flush, run,
}
use domour.Proxy.ThinkParser.Feed.{collect}
use domour.Proxy.ThinkParser.Scan.{all_items, scan}
use domour.Proxy.ThinkParser.Stream.{run-scan}

abbrev chunks : List Str
chunks = codes "a<thi" ∷ codes "nk>b<" ∷ codes "/think>c<th" ∷ []

abbrev outcome : Option Str × Parser × List Event
outcome = run collect [] none new chunks []

run-events :
    outcome.2
    ≡ text_event [] none (codes "a")
      ∷ thinking_event [] none []
      ∷ thinking_event [] none (codes "b")
      ∷ text_event [] none (codes "c")
      ∷ text_event [] none (codes "<th")
      ∷ []
unfolding run feed feed_loop flush new safe_flush_end equal has_suffix index
run-events = refl

run-scan_example :
    (outcome.0 ≡ none) × (all_items outcome.2 ≡ scan false 0 (concat chunks)) × (outcome.1.buf ≡ [])
run-scan_example = run-scan [] none chunks
