-- ===== src/Llama/Worker.antt =====
-- ark/infra/llamacpp/worker.go, `handleGenerate`: a generation without a stream channel, from the
-- buffers on. The native model is a parameter: a round is what the checks and SampleNext come to.
mod Cut
mod Tests
use domour.Common.{ℕ, Bool, true, false, List, [], ◌∷◌, ◌++◌, if◌then◌else◌}
use domour.Common.Text.{Str, equal}
use domour.Llama.Stops.{Detector, new, process, flush_remaining}
use domour.Llama.Utf8.{feed, flush}

-- A round: the context is done, sampling failed, the token is the end of the text, or it has a piece.
pub data Round : Type 0 where
  is_done failed eos : Round
  token : Str → Round

pub data FinishReason : Type 0 where
  by_length by_stop cancelled : FinishReason

abbrev pub is_stop : FinishReason → Bool
is_stop by_stop = true
is_stop _ = false

-- the variables of handleGenerate
pub record Generation : Type 0 where
  pub emitted_text : Str
  pub utf8_buf : Str
  pub detector : Detector
  pub finish_reason : FinishReason

-- The loop over at most MaxTokens rounds; fewer rounds in the list are as if the maximum was lower.
unfoldable pub generate_loop : List Round → Generation → Generation
unfolding feed process equal
generate_loop [] g = g
generate_loop (is_done ∷ rounds) g = record g { finish_reason = cancelled }
generate_loop (failed ∷ rounds) g = g
generate_loop (eos ∷ rounds) g = record g { finish_reason = by_stop }
generate_loop (token piece ∷ rounds) g =
    let (clean_text, utf8_buf) = feed g.utf8_buf piece in
    let (safe_to_emit, stopped, detector) = process g.detector clean_text in
    let g' : Generation = record g {
      emitted_text = g.emitted_text ++ safe_to_emit;
      utf8_buf = utf8_buf;
      detector = detector;
    } in
    let skipped = generate_loop rounds (record g { utf8_buf = utf8_buf }) in
    let next = generate_loop rounds g' in
    if equal clean_text []
    then skipped
    else if stopped
    then record g' { finish_reason = by_stop }
    else next

-- after the loop: the UTF-8 buffer goes through the detector
unfoldable pub drain : Generation → Generation
unfolding flush process equal
drain g =
    let (remaining_bytes, left) = flush g.utf8_buf in
    let (safe_to_emit, stopped, detector) = process g.detector remaining_bytes in
    if equal remaining_bytes [] then g else record {
      emitted_text = g.emitted_text ++ safe_to_emit;
      utf8_buf = left;
      detector = detector;
      finish_reason = if stopped then by_stop else g.finish_reason;
    }

-- handleGenerate: Content and FinishReason of the response
unfoldable pub generate : List Str → List Round → Str × FinishReason
unfolding new generate_loop drain flush_remaining
generate stops rounds =
    let g = drain (
      generate_loop rounds (record {
        emitted_text = [];
        utf8_buf = [];
        detector = new stops;
        finish_reason = by_length;
      })) in
    if is_stop g.finish_reason
    then (g.emitted_text, g.finish_reason)
    else (g.emitted_text ++ (flush_remaining g.detector).0, g.finish_reason)
