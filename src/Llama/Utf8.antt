-- ===== src/Llama/Utf8.antt =====
-- ark/infra/llamacpp/chat.go, `UTF8StreamBuffer`: the bytes of a rune that a chunk cuts are held
-- back; and `FormatChatML`. Package `unicode/utf8` is modelled with its table of first bytes.
mod Decode
mod Runes
pub mod Stream
mod Tests
use domour.Common.{
  ℕ, zero, suc, ◌+◌, Bool, true, false, not, ◌&&◌, ◌||◌, List, [], ◌∷◌, ◌++◌, ltb, leb, ◌==◌,
  if◌then◌else◌, length, take, drop, get_or,
}
use domour.Common.Text.{Str, codes, equal}
use domour.Common.Unicode.{Unicode, trim_space}

-- The size of a rune with this first byte; 0 where no rune has it.
abbrev pub size_for : ℕ → ℕ
size_for a =
    if ltb a 128
    then 1
    else if ltb a 194
    then 0
    else if ltb a 224
    then 2
    else if ltb a 240
    then 3
    else if ltb a 245
    then 4
    else 0

abbrev pub between : ℕ → ℕ → ℕ → Bool
between lo hi b = leb lo b && leb b hi

-- the second bytes that may follow a first one
abbrev pub accepts : ℕ → ℕ → Bool
accepts a b =
    between (if a == 224 then 160 else if a == 240 then 144 else 128)
      (if a == 237 then 159 else if a == 244 then 143 else 191) b

abbrev pub is_continuation : ℕ → Bool
is_continuation b = between 128 191 b

-- utf8.DecodeRune: the size, and whether the bytes are a rune; if not, it is RuneError, of size 1.
unfoldable pub decode_rune : List ℕ → ℕ × Bool
decode_rune [] = (0, false)
decode_rune (a ∷ p) =
    let n = size_for a in
    if n == 1
    then (1, true)
    else if n == 0 || ltb (length p + 1) n
    then (1, false)
    else if not (accepts a (get_or p 0 0))
    then (1, false)
    else if leb 3 n && not (is_continuation (get_or p 1 0))
    then (1, false)
    else if leb 4 n && not (is_continuation (get_or p 2 0))
    then (1, false)
    else (n, true)

-- utf8.FullRune
unfoldable pub full_rune : List ℕ → Bool
full_rune [] = false
full_rune (a ∷ p) =
    let n = size_for a in
    leb n (length p + 1)
    || (leb 1 (length p) && not (accepts a (get_or p 0 0)))
    || (leb 2 (length p) && not (is_continuation (get_or p 1 0)))

-- the condition under which Feed leaves the loop
unfoldable pub is_cut : List ℕ → Bool
unfolding decode_rune full_rune
is_cut p = let (size, ok) = decode_rune p in not ok && size == 1 && not (full_rune p)

-- The loop of Feed on u.buf[i:]; each round takes at least one byte.
unfoldable pub feed_loop : ℕ → List ℕ → ℕ → ℕ
unfolding decode_rune is_cut
feed_loop zero p valid_len = valid_len
feed_loop (suc fuel) [] valid_len = valid_len
feed_loop (suc fuel) (a ∷ p) valid_len =
    let (size, ok) = decode_rune (a ∷ p) in
    let rest = feed_loop fuel (drop size (a ∷ p)) (valid_len + size) in
    if is_cut (a ∷ p) then valid_len else rest

-- Feed: the text, and the bytes that stay.
unfoldable pub feed : List ℕ → List ℕ → List ℕ × List ℕ
unfolding feed_loop
feed buf chunk =
    let all_bytes = buf ++ chunk in
    let valid_len = feed_loop (length all_bytes) all_bytes 0 in
    if valid_len == 0 then ([], all_bytes) else (take valid_len all_bytes, drop valid_len all_bytes)

-- Flush
unfoldable pub flush : List ℕ → List ℕ × List ℕ
flush buf = (buf, [])

-- A stream: the texts of Feed for each chunk one after another, and the bytes that stay.
abbrev pub run : List ℕ → List (List ℕ) → List ℕ × List ℕ
run buf [] = ([], buf)
run buf (c ∷ cs) =
    let (text, buf') = feed buf c in let (later, left) = run buf' cs in (text ++ later, left)

pub record ChatMessage : Type 0 where
  pub role : Str
  pub content : Str

-- FormatChatML
unfoldable pub format_chat_ml : Unicode → List ChatMessage → Str
format_chat_ml u [] = codes "<|im_start|>assistant\n"
format_chat_ml u (m ∷ ms) =
    let role = trim_space u m.role in
    codes "<|im_start|>"
    ++ (if equal role [] then codes "user" else role)
    ++ codes "\n"
    ++ m.content
    ++ codes "<|im_end|>\n"
    ++ format_chat_ml u ms
