-- ===== src/Proxy/ThinkParser/Scan.antt =====
-- The reference for the parser: one pass over the whole text of a stream.
use domour.Common.{
  ℕ, zero, suc, ◌-◌, ◌≤◌, ◌<◌, Bool, true, false, not, List, [], ◌∷◌, ◌++◌, map, ◌≡◌, refl, ap,
  arith, ◌==◌, if◌then◌else◌, length, take, drop,
}
use domour.Common.Text.{Str, equal, has_prefix}
use domour.Common.Text.Match.{length-le_of_has_prefix}
use domour.Proxy.ThinkParser.{Event, tag_of, open_tag, close_tag}

-- What a listener makes of a stream: bytes of text, bytes of thinking, starts of thinking.
pub data Item : Type 0 where
  text : ℕ → Item
  thought : ℕ → Item
  start : Item

abbrev pub item_of : Bool → ℕ → Item
item_of true = thought
item_of false = text

abbrev pub spoken : Bool → Str → List Item
spoken m s = map (item_of m) s

-- The items of an event; thinking with no content is the marker.
unfoldable pub items : Event → List Item
unfolding equal
items e =
    if e.kind == 1
    then (if equal e.content [] then start ∷ [] else spoken true e.content)
    else spoken false e.content

unfoldable pub all_items : List Event → List Item
unfolding items
all_items [] = []
all_items (e ∷ es) = items e ++ all_items es

abbrev pub marker : Bool → List Item
marker true = []
marker false = start ∷ []

-- Wherever the tag of the mode stands, it is skipped and the mode changes; `k` bytes of it are left.
unfoldable pub scan : Bool → ℕ → Str → List Item
unfolding has_prefix
scan m k [] = []
scan m (suc k) (c ∷ s) = scan m k s
scan m zero (c ∷ s) = elim (has_prefix (c ∷ s) (tag_of m)) [
  | true ↦ marker m ++ scan (not m) (length (tag_of m) - 1) s
  | false ↦ item_of m c ∷ scan m zero s
]

scan_skip : (m : Bool) (k : ℕ) (u : Str) → k ≤ length u → scan m k u ≡ scan m zero (drop k u)
unfolding scan
scan_skip m zero u h = refl
scan_skip m (suc k) [] h = absurd (omega arith)
scan_skip m (suc k) (c ∷ s) h = scan_skip m k s (omega arith)

-- A tag that stands at the front.
pub scan_tag :
    (m : Bool) (u : Str)
    → has_prefix u (tag_of m) ≡ true
    → scan m zero u ≡ marker m ++ scan (not m) zero (drop (length (tag_of m)) u)
unfolding scan has_prefix
scan_tag true [] h = cc
scan_tag false [] h = cc
scan_tag true (c ∷ s) h =
    rw (h, scan) (scan_skip false 7 s (omega (arith, length-le_of_has_prefix (c ∷ s) close_tag h)))
scan_tag false (c ∷ s) h =
    rw (h, scan)
      (ap (◌∷◌ start)
        (scan_skip true 6 s (omega (arith, length-le_of_has_prefix (c ∷ s) open_tag h))))

-- Bytes at which no tag stands.
pub scan_clear :
    (m : Bool) (j : ℕ) (u : Str)
    → j ≤ length u
    → ((d : ℕ) → d < j → has_prefix (drop d u) (tag_of m) ≡ false)
    → scan m zero u ≡ spoken m (take j u) ++ scan m zero (drop j u)
unfolding scan
scan_clear m zero u h clear = refl
scan_clear m (suc j) [] h clear = absurd (omega arith)
scan_clear m (suc j) (c ∷ s) h clear =
    rw (clear 0 (omega arith), scan)
      (ap (◌∷◌ (item_of m c)) (scan_clear m j s (omega arith) (λ d l. clear (suc d) (omega arith))))
