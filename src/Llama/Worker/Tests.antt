-- ===== src/Llama/Worker/Tests.antt =====
-- A token for the end of the text behind a text that may begin a stop word, and a rune that is cut
-- behind a stop word.
use domour.Common.{◌≡◌, refl, List, [], ◌∷◌, ◌++◌}
use domour.Common.Text.{Str, codes, equal, has_suffix, index}
use domour.Llama.Stops.{new, process, find_stop, longest_prefix, max_prefix_len, flush_remaining}
use domour.Llama.Utf8.{feed, feed_loop, flush, is_cut, decode_rune, full_rune}
use domour.Llama.Worker.{eos, token, Round, by_stop, FinishReason, generate, generate_loop, drain}

abbrev stops : List Str
stops = codes "</s>" ∷ []

abbrev rounds : List Round
rounds = token (codes "a <") ∷ eos ∷ []

generate-loses : ◌≡◌ {A = Str × FinishReason} (generate stops rounds) (codes "a ", by_stop)
unfolding generate generate_loop drain process find_stop new max_prefix_len longest_prefix
    flush_remaining has_suffix index feed feed_loop flush is_cut decode_rune full_rune equal
generate-loses = refl

generate-adds :
    ◌≡◌ {A = Str × FinishReason}
      (generate stops (token (codes "a</s>" ++ (195 ∷ [])) ∷ []))
      (codes "a" ++ (195 ∷ []), by_stop)
unfolding generate generate_loop drain process find_stop new max_prefix_len longest_prefix
    flush_remaining has_suffix index feed feed_loop flush is_cut decode_rune full_rune equal
generate-adds = refl
