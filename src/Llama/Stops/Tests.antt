-- ===== src/Llama/Stops/Tests.antt =====
-- Generations whose stop words are spread over chunks.
use domour.Common.{◌≡◌, true, some, refl, arith, List, [], ◌∷◌, concat, Bool, take}
use domour.Common.Text.{Str, codes, has_suffix, index}
use domour.Llama.Stops.{
  new, process, find_stop, longest_prefix, max_prefix_len, flush_remaining, run,
}
use domour.Llama.Stops.Cut.{CutAt, run-cuts}
use domour.Llama.Stops.Order.{process-emits-stop}

abbrev stops : List Str
stops = codes "<|im_end|>" ∷ codes "<|im_start|>" ∷ []

abbrev pieces : List Str
pieces = codes "a <|im" ∷ codes "_x <|im_" ∷ codes "end|> b" ∷ []

run-pieces : ◌≡◌ {A = Str × Bool} (run (new stops) pieces) (codes "a <|im_x ", true)
unfolding run process find_stop new max_prefix_len longest_prefix flush_remaining has_suffix index
run-pieces = refl

run-cuts_example : CutAt (new stops).stops (concat pieces) (run (new stops) pieces)
run-cuts_example = run-cuts stops pieces

abbrev mixed : Str
mixed = codes "a<|im_start|>b<|im_end|>"

process-emits-stop_example :
    let out = process (record { stops = stops; buf = [] }) mixed in
    (out.1 ≡ true) × (out.0 ≡ take 14 mixed) × (index out.0 (codes "<|im_start|>") ≡ some 1)
unfolding index
process-emits-stop_example =
    process-emits-stop (codes "<|im_start|>") (codes "<|im_end|>") mixed 14 1 refl refl
      (omega arith)
