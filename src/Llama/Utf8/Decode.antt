-- ===== src/Llama/Utf8/Decode.antt =====
-- ark/infra/llamacpp/chat.go: more bytes do not change how a rune that is not cut is decoded.
use domour.Common.{ℕ, ◌+◌, ◌≤◌, true, false, ◌≡◌, arith, List, [], ◌∷◌, ◌++◌, length, length-append}
use domour.Llama.Utf8.{decode_rune, full_rune, is_cut}

-- A rune takes from one byte to all of them.
pub decode_rune-bounds :
    (a : ℕ) (p : List ℕ) → (1 ≤ (decode_rune (a ∷ p)).0) × ((decode_rune (a ∷ p)).0 ≤ length p + 1)
unfolding decode_rune
decode_rune-bounds a p = (ground arith, ground arith)

pub is_cut-short : (p : List ℕ) → is_cut p ≡ true → length p ≤ 3
unfolding is_cut decode_rune full_rune
is_cut-short [] h = ground arith
is_cut-short (a ∷ p) h = ground arith

pub decode_rune-append :
    (a : ℕ) (p q : List ℕ)
    → is_cut (a ∷ p) ≡ false
    → decode_rune ((a ∷ p) ++ q) ≡ decode_rune (a ∷ p)
unfolding is_cut decode_rune full_rune
decode_rune-append a [] q h = ground arith
decode_rune-append a (b ∷ []) q h = ground arith
decode_rune-append a (b ∷ c ∷ []) q h = ground arith
decode_rune-append a (b ∷ c ∷ d ∷ p) q h = ground (arith, length-append p q)

pub is_cut-append : (a : ℕ) (p q : List ℕ) → is_cut (a ∷ p) ≡ false → is_cut ((a ∷ p) ++ q) ≡ false
unfolding is_cut decode_rune full_rune
is_cut-append a [] q h = ground arith
is_cut-append a (b ∷ []) q h = ground arith
is_cut-append a (b ∷ c ∷ []) q h = ground arith
is_cut-append a (b ∷ c ∷ d ∷ p) q h = ground (arith, length-append p q)
