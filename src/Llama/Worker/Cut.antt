-- ===== src/Llama/Worker/Cut.antt =====
-- ark/infra/llamacpp/worker.go: a generation against the text of all its tokens.
use mathlib.Core.List.{Memᴰ}
use domour.Common.{◌≤◌, if◌then◌else◌, ◌≡◌, ◌⊎◌, true, none, List, [], ◌∷◌, ◌++◌, length}
use domour.Common.Text.{Str, index}
use domour.Llama.Stops.{Detector, flush_remaining}
use domour.Llama.Stops.Cut.{CutAt, Held}
use domour.Llama.Worker.{
  Round, is_done, eos, token, FinishReason, by_length, by_stop, cancelled, Generation, is_stop,
}

-- the pieces of the tokens up to the round that ends the loop
abbrev pub bytes_of : List Round → Str
bytes_of (token piece ∷ rounds) = piece ++ bytes_of rounds
bytes_of _ = []

-- the reason of that round
abbrev pub end_reason : List Round → FinishReason
end_reason (token piece ∷ rounds) = end_reason rounds
end_reason (is_done ∷ rounds) = cancelled
end_reason (eos ∷ rounds) = by_stop
end_reason _ = by_length

abbrev gen : List Str → Str → Str → Str → FinishReason → Generation
gen ws e b v reason = record {
  emitted_text = e;
  utf8_buf = v;
  detector = record { stops = ws; buf = b };
  finish_reason = reason;
}

-- Where a generation of the text `t` is: no stop word was met, or one was.
data At (ws : List Str) (t : Str) (reason : FinishReason) : Generation → Type 0 where
  flowing :
      (e b v : Str)
      → Held (record { stops = ws; buf = b }) e
      → e ++ (b ++ v) ≡ t
      → At ws t reason (gen ws e b v reason)
  stopped :
      (e v : Str) → CutAt ws t (e, true) → length v ≤ 3 → At ws t reason (gen ws e [] v by_stop)

module _ (ws : List Str) (t : Str) where
  abbrev det : Str → Detector
  det b = record { stops = ws; buf = b }

  -- What a generation may return, when its last round had the given reason.
  abbrev pub Cuts : FinishReason → Str × FinishReason → Type 0
  Cuts reason (content, finish) =
      ((finish ≡ by_stop)
        × (kept : Str) × (extra : Str) × (content ≡ kept ++ extra)
        × (length extra ≤ 3)
        × CutAt ws t (kept, true))
      ⊎ ((finish ≡ reason)
          × (held : Str) × (content ++ held ≡ t)
          × ((reason ≡ by_stop) ⊎ (held ≡ []))
          × ((w : Str) → Memᴰ w ws → index t w ≡ none))

  abbrev respond : Generation → Str × FinishReason
  unfolding flush_remaining
  respond g =
      if is_stop g.finish_reason
      then (g.emitted_text, g.finish_reason)
      else (g.emitted_text ++ (flush_remaining g.detector).0, g.finish_reason)

  abbrev Ends : FinishReason → Generation → Type 0
  unfolding respond
  Ends reason g = Cuts reason (respond g)
