-- ===== src/Llama/Stops/Cut.antt =====
-- A stream is cut before a stop word, or has met none.
use mathlib.Core.List.{Memᴰ}
use domour.Common.{
  ℕ, ◌+◌, ◌-◌, ◌<◌, Bool, true, false, List, [], ◌∷◌, ◌++◌, ◌≡◌, ◌∙◌, sym, ap, subst₂, arith, inl,
  inr, Option-cases, none, some, dec_lt, length, take, drop, take-append-drop, drop-append,
  append_assoc, append-nil, concat, length-append, length-take, take-length-append,
}
use domour.Common.Text.{Str, has_prefix, index}
use domour.Common.Text.Match.{index-append-clear, index-append_some, index-drop, index-FirstAt}
use domour.Llama.Stops.{Detector, find_stop, flush_remaining, run, new, non_empty}
use domour.Llama.Stops.Hold.{not_completed}
use domour.Llama.Stops.Detect.{
  whole, safe, find_stop-some, find_stop-none, process-none, process-some,
}

-- What is emitted of the text `t`: all of it, if no stop word stands in it; or, for
-- some stop word, the text before the first place where that word stands.
abbrev pub CutAt : List Str → Str → Str × Bool → Type 0
CutAt ws t (out, false) = (out ≡ t) × ((w : Str) → Memᴰ w ws → index t w ≡ none)
CutAt ws t (out, true) =
    (w : Str) × Memᴰ w ws × (index t w ≡ some (length out)) × (out ≡ take (length out) t)

-- `e` has been emitted: no stop word starts in it, whatever follows, and none stands in the buffer.
pub record Held (d : Detector) (e : Str) : Type 0 where
  pub unmet : (w : Str) → Memᴰ w d.stops → index d.buf w ≡ none
  pub clear :
      (w : Str)
      → Memᴰ w d.stops
      → (r : Str) (k : ℕ) → k < length e
      → has_prefix (drop k (e ++ (d.buf ++ r))) w ≡ false

-- Emitting the first `i` bytes of the buffer only moves them.
pub regroup :
    (d : Detector) (c e : Str) (i : ℕ) (r : Str)
    → (e ++ take i (whole d c)) ++ (drop i (whole d c) ++ r) ≡ e ++ (d.buf ++ (c ++ r))
regroup d c e i r =
    let b = whole d c in
    append_assoc e (take i b) (drop i b ++ r)
    ∙ ap (λ t. e ++ t)
        (sym (append_assoc (take i b) (drop i b) r)
          ∙ ap (λ t. t ++ r) (take-append-drop i b)
          ∙ append_assoc d.buf c r)

module _ (d : Detector) (c e : Str) (h : Held d e)
    (miss : find_stop d.stops (d.buf ++ c) ≡ none) where
  abbrev pub emitted : Str
  emitted = e ++ take (safe d c) (whole d c)

  clear-emitted :
      (w : Str)
      → Memᴰ w d.stops
      → (r : Str) (k : ℕ) → k < length emitted
      → has_prefix (drop k (emitted ++ (drop (safe d c) (whole d c) ++ r))) w ≡ false
  clear-emitted w m r k l = elim (dec_lt k (length e)) [
    | yes old ↦
        ap (λ t. has_prefix (drop k t) w) (regroup d c e (safe d c) r) ∙ h.clear w m (c ++ r) k old
    | no late ↦
        let j = k - length e in
        let from : k ≡ length e + j = omega arith in
        let same : drop k (emitted ++ (drop (safe d c) (whole d c) ++ r))
            ≡ drop j (whole d c ++ r) =
          ap (drop k) (regroup d c e (safe d c) r)
          ∙ ap (λ i. drop i (e ++ (d.buf ++ (c ++ r)))) from
          ∙ drop-append e (d.buf ++ (c ++ r)) j
          ∙ ap (drop j) (sym (append_assoc d.buf c r)) in
        let inside : j < safe d c = omega (
          arith,
          length-append e (take (safe d c) (whole d c)),
          length-take (safe d c) (whole d c),
        ) in
        ap (λ t. has_prefix t w) same
        ∙ not_completed d.stops (whole d c) r j m (find_stop-none w d.stops (whole d c) miss m)
            inside
  ]

  pub Held-process : Held (record d { buf = drop (safe d c) (whole d c) }) emitted
  Held-process = record {
    unmet =
        λ w m. index-drop (safe d c) (whole d c) w (find_stop-none w d.stops (whole d c) miss m);
    clear = clear-emitted;
  }

-- Behind what has been emitted the search for a stop word starts anew.
pub index-Held :
    (d : Detector) (e r w : Str)
    → Held d e
    → Memᴰ w d.stops
    → index (e ++ (d.buf ++ r)) w
      ≡ elim (index (d.buf ++ r) w) [ none ↦ none | some i ↦ some (length e + i) ]
index-Held d e r w h m = index-append-clear e (d.buf ++ r) w (h.clear w m r)

-- The call that meets a stop word.
module _ (d : Detector) (c r e : Str) (i : ℕ) (h : Held d e)
    (hit : find_stop d.stops (d.buf ++ c) ≡ some i) where
  pub CutAt-here : CutAt d.stops (e ++ (d.buf ++ (c ++ r))) (e ++ take i (whole d c), true)
  CutAt-here =
      let (w, m, f) = find_stop-some d.stops (whole d c) i hit in
      let at = index-FirstAt (whole d c) w i f in
      let found : index (d.buf ++ (c ++ r)) w ≡ some i =
        ap (λ t. index t w) (sym (append_assoc d.buf c r))
        ∙ index-append_some (whole d c) r w i f in
      let size : length e + i ≡ length (e ++ take i (whole d c)) =
        omega (arith, at.fits, length-append e (take i (whole d c)), length-take i (whole d c)) in
      (
        w,
        m,
        index-Held d e (c ++ r) w h m ∙ rw found (ap some size),
        sym (take-length-append (e ++ take i (whole d c)) (drop i (whole d c) ++ r))
            ∙ ap (take (length (e ++ take i (whole d c)))) (regroup d c e i r),
      )

run-CutAt :
    (cs : List Str) (d : Detector) (e : Str)
    → Held d e
    → let out = run d cs in CutAt d.stops (e ++ (d.buf ++ concat cs)) (e ++ out.0, out.1)
unfolding run
run-CutAt [] d e h = (
  unfold flush_remaining in ap (λ t. e ++ t) (sym (append-nil d.buf)),
  λ w m. index-Held d e [] w h m ∙ rw (append-nil d.buf, h.unmet w m),
)
run-CutAt (c ∷ cs) d e h = elim (Option-cases (find_stop d.stops (whole d c))) [
  | inl miss ↦ rw (process-none d c miss) (
      let d' : Detector = record d { buf = drop (safe d c) (whole d c) } in
      subst₂ (λ t o. CutAt d.stops t (o, (run d' cs).1)) (regroup d c e (safe d c) (concat cs))
        (append_assoc e (take (safe d c) (whole d c)) (run d' cs).0)
        (run-CutAt cs d' (emitted d c e h miss) (Held-process d c e h miss)))
  | inr (i, hit) ↦ rw (process-some d c i hit) (CutAt-here d c (concat cs) e i h hit)
]

non_empty-index : (ws : List Str) (w : Str) → Memᴰ w (non_empty ws) → index [] w ≡ none
unfolding index
non_empty-index [] w m = elim m [ ]
non_empty-index ([] ∷ ws) w m = non_empty-index ws w m
non_empty-index ((x ∷ v) ∷ ws) w (Memᴰ.head e) = rw e
non_empty-index ((x ∷ v) ∷ ws) w (Memᴰ.tail m) = non_empty-index ws w m

pub Held-new : (stops : List Str) → Held (new stops) []
unfolding new
Held-new stops = record {
  unmet = λ w m. non_empty-index stops w m;
  clear = λ w m r k l. absurd (omega arith);
}

-- Where Process gets the chunks until it reports a stop, and FlushRemaining is called if it reports
-- none: whatever the chunks, with no stop the whole text is emitted, and no stop word stands in it;
-- with a stop, for one of the stop words, exactly the text before the first place where it stands. Empty stop words are ignored.
pub run-cuts :
    (stops chunks : List Str) → CutAt (new stops).stops (concat chunks) (run (new stops) chunks)
unfolding new
run-cuts stops chunks = run-CutAt chunks (new stops) [] (Held-new stops)
