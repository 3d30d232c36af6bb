-- ===== src/Llama/Utf8/Tests.antt =====
-- A stream whose second chunk ends inside a rune of three bytes.
use domour.Common.{◌≡◌, ◌⊎◌, ◌≤◌, refl, true, false, List, [], ◌∷◌, ◌++◌, concat, length, ℕ}
use domour.Common.Text.{codes, equal}
use domour.Common.Unicode.{ascii, trim_space, trim_left, space_rune}
use domour.Llama.Utf8.{decode_rune, full_rune, is_cut, feed_loop, feed, flush, run, format_chat_ml}
use domour.Llama.Utf8.Stream.{run-feed, feed-left}

abbrev chunks : List (List ℕ)
chunks = (104 ∷ []) ∷ (226 ∷ 130 ∷ []) ∷ (172 ∷ 255 ∷ 240 ∷ []) ∷ []

run-chunks : run [] chunks ≡ (104 ∷ 226 ∷ 130 ∷ 172 ∷ 255 ∷ [], 240 ∷ [])
unfolding feed feed_loop is_cut full_rune decode_rune
run-chunks = refl

format_chat_ml-runs :
    format_chat_ml ascii (record { role = codes " "; content = codes "hi" } ∷ [])
    ≡ codes "<|im_start|>user\nhi<|im_end|>\n<|im_start|>assistant\n"
unfolding format_chat_ml trim_space trim_left space_rune equal
format_chat_ml-runs = refl

run-feed_example :
    (run [] chunks ≡ feed [] (concat chunks))
    × ((run [] chunks).0 ++ (flush ((run [] chunks).1)).0 ≡ concat chunks)
run-feed_example = run-feed chunks

feed-left_example :
    ((feed [] (226 ∷ 130 ∷ [])).1 ≡ [])
    ⊎ ((is_cut ((feed [] (226 ∷ 130 ∷ [])).1) ≡ true)
        × (full_rune ((feed [] (226 ∷ 130 ∷ [])).1) ≡ false)
        × (length ((feed [] (226 ∷ 130 ∷ [])).1) ≤ 3))
feed-left_example = feed-left [] (226 ∷ 130 ∷ [])
