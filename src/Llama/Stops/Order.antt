-- ===== src/Llama/Stops/Order.antt =====
-- With several stop words the order of the list decides, not the order in the text.
use domour.Common.{ℕ, ◌+◌, ◌≤◌, true, [], ◌∷◌, ◌≡◌, refl, some, length, take}
use domour.Common.Text.{Str, index}
use domour.Common.Text.Match.{index-take}
use domour.Llama.Stops.{find_stop, process}

-- If the listed first of two stop words stands in a buffer behind a whole occurrence of the second,
-- `Process` stops there and emits text in which the second stop word stands.
pub process-emits-stop :
    (v w x : Str) (i j : ℕ)
    → index x w ≡ some i
    → index x v ≡ some j
    → j + length v ≤ i
    → let out = process (record { stops = w ∷ v ∷ []; buf = [] }) x in
      (out.1 ≡ true) × (out.0 ≡ take i x) × (index out.0 v ≡ some j)
unfolding process find_stop
process-emits-stop v w x i j hw hv h =
    rw (hw, process, find_stop) (refl, refl, index-take x v j i hv h)
