-- ===== src/Llama/Stops/Detect.antt =====
-- One call of `Process`.
use mathlib.Core.List.{Memᴰ}
use domour.Common.{
  ℕ, ◌-◌, true, false, List, [], ◌∷◌, ◌++◌, ◌≡◌, ◌∙◌, refl, sym, ap, subst, arith, inl, inr,
  Bool-cases, Option-cases, none, some, ltb, length, take, drop, take-length, drop-length,
}
use domour.Common.Text.{Str, index}
use domour.Llama.Stops.{Detector, find_stop, max_prefix_len, process}

pub find_stop-some :
    (ws : List Str) (buf : Str) (i : ℕ)
    → find_stop ws buf ≡ some i
    → (w : Str) × Memᴰ w ws × (index buf w ≡ some i)
unfolding find_stop
find_stop-some [] buf i e = absurd (cc)
find_stop-some (w ∷ ws) buf i e = elim (Option-cases (index buf w)) [
  | inl miss ↦
      let (v, m, f) = find_stop-some ws buf i (rw (miss, find_stop) at e) in (v, Memᴰ.tail m, f)
  | inr (j, hit) ↦ (w, Memᴰ.head refl, hit ∙ (rw (hit, find_stop) at e))
]

pub find_stop-none :
    (w : Str) (ws : List Str) (buf : Str) → find_stop ws buf ≡ none → Memᴰ w ws → index buf w ≡ none
unfolding find_stop
find_stop-none w [] buf e m = elim m [ ]
find_stop-none w (v ∷ ws) buf e (Memᴰ.head h) =
    subst (λ x. index buf x ≡ none) (sym h) (ground arith)
find_stop-none w (v ∷ ws) buf e (Memᴰ.tail m) = find_stop-none w ws buf (ground arith) m

module _ (d : Detector) (incoming : Str) where
  abbrev pub whole : Str
  whole = d.buf ++ incoming

  abbrev pub safe : ℕ
  safe = length whole - max_prefix_len d.stops whole 0

  pub process-none :
      find_stop d.stops whole ≡ none
      → process d incoming ≡ (take safe whole, false, record d { buf = drop safe whole })
  unfolding process
  process-none e = elim (Bool-cases (ltb 0 (max_prefix_len d.stops whole 0))) [
    | inl some_kept ↦ rw (e, process, some_kept)
    | inr none_kept ↦
        let all : safe ≡ length whole = ground arith in
        let t : take safe whole ≡ whole = ap (λ k. take k whole) all ∙ take-length whole in
        let r : drop safe whole ≡ [] = ap (λ k. drop k whole) all ∙ drop-length whole in
        rw (e, process, none_kept, t, r)
  ]

  pub process-some :
      (i : ℕ)
      → find_stop d.stops whole ≡ some i
      → process d incoming ≡ (take i whole, true, record d { buf = [] })
  unfolding process
  process-some i e = rw (e, process)
