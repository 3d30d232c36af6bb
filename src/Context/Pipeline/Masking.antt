-- ===== src/Context/Pipeline/Masking.antt =====
-- internal/bionic/context/pipeline.go: what `truncateToolOutput` keeps of the lines.
use domour.Common.{
  ℕ, ◌+◌, ◌-◌, ◌≤◌, ◌<◌, Bool-cases, inl, inr, ◌≡◌, ap, sym, ◌∙◌, arith, List, [], ◌∷◌, ◌++◌, map,
  concat, ltb, dec_lt, ◌⊎◌, length, take, length-append, append_assoc, append-nil, take-append_le,
  suc_left,
}
use domour.Common.Text.{Str, equal, equal_iff}
use domour.Common.Unicode.{Unicode, trim_space}
use domour.Context.Pipeline.{truncate_loop}

concat-snoc : (out : List Str) (s : Str) → concat (out ++ (s ∷ [])) ≡ concat out ++ s
concat-snoc [] s = append-nil s
concat-snoc (x ∷ out) s = ap (λ t. x ++ t) (concat-snoc out s) ∙ sym (append_assoc x (concat out) s)

take-append-more : (t rest : Str) (n : ℕ) → take (length t + n) (t ++ rest) ≡ t ++ take n rest
take-append-more [] rest n = ap (λ k. take k rest) (omega arith)
take-append-more (x ∷ t) rest n =
    ap (λ k. take k (x ∷ (t ++ rest))) (sym (suc_left (length t) n))
    ∙ ap (◌∷◌ x) (take-append-more t rest n)

module _ (u : Unicode) (max : ℕ) where
  abbrev pub trimmed_text : List Str → Str
  trimmed_text lines = concat (map (trim_space u) lines)

  -- the lines that are kept, of those behind `out`
  Keeps : List Str → List Str → ℕ → List Str → Type 0
  Keeps lines out total r =
      (n : ℕ) × (total + n ≤ max)
      × (concat r ≡ concat out ++ take n (trimmed_text lines))
      × (total + length (trimmed_text lines) ≤ max → concat r ≡ concat out ++ trimmed_text lines)

  Keeps-blank :
      (line : Str) (lines out : List Str) (total : ℕ) (r : List Str)
      → trim_space u line ≡ []
      → Keeps lines out total r
      → Keeps (line ∷ lines) out total r
  unfolding Keeps
  Keeps-blank line lines out total r blank (n, le, prefix, whole) =
      let same : trimmed_text (line ∷ lines) ≡ trimmed_text lines =
        ap (λ t. t ++ trimmed_text lines) blank in
      (
        n,
        le,
        prefix ∙ ap (λ t. concat out ++ take n t) (sym same),
        λ h. whole (omega (arith, ap length same)) ∙ ap (λ t. concat out ++ t) (sym same),
      )

  Keeps-next :
      (line : Str) (lines out : List Str) (total : ℕ) (r : List Str)
      → Keeps lines (out ++ (trim_space u line ∷ [])) (total + length (trim_space u line)) r
      → Keeps (line ∷ lines) out total r
  unfolding Keeps
  Keeps-next line lines out total r (n, le, prefix, whole) =
      let t = trim_space u line in
      let rest = trimmed_text lines in
      let size = length-append t rest in
      (
        length t + n,
        omega arith,
        prefix
            ∙ ap (λ x. x ++ take n rest) (concat-snoc out t)
            ∙ append_assoc (concat out) t (take n rest)
            ∙ ap (λ x. concat out ++ x) (sym (take-append-more t rest n)),
        λ h.
            whole (omega (arith, size))
            ∙ ap (λ x. x ++ rest) (concat-snoc out t)
            ∙ append_assoc (concat out) t rest,
      )

  -- a line that does not fit, of which `n` runes are kept
  Keeps-over :
      (line : Str) (lines out : List Str) (total n : ℕ) (r : List Str)
      → total + n ≤ max
      → max < total + length (trim_space u line)
      → concat r ≡ concat out ++ take n (trim_space u line)
      → Keeps (line ∷ lines) out total r
  unfolding Keeps
  Keeps-over line lines out total n r le over e =
      let t = trim_space u line in
      let rest = trimmed_text lines in
      (
        n,
        le,
        e ∙ ap (λ x. concat out ++ x) (sym (take-append_le n t rest (omega arith))),
        λ h. absurd (omega (arith, length-append t rest)),
      )

  truncate_loop-Keeps :
      (lines out : List Str) (total : ℕ)
      → total ≤ max
      → Keeps lines out total (truncate_loop u max lines out total).0
  unfolding truncate_loop
  truncate_loop-Keeps [] out total le =
      unfold Keeps in
      (0, omega arith, sym (append-nil (concat out)), λ h. sym (append-nil (concat out)))
  truncate_loop-Keeps (line ∷ lines) out total le =
      let t = trim_space u line in
      elim (Bool-cases (equal (trim_space u line) [])) [
        | inl blank ↦
            rw (truncate_loop, blank)
              (Keeps-blank line lines out total (truncate_loop u max lines out total).0
                ((equal_iff (trim_space u line) []).0 blank)
                (truncate_loop-Keeps lines out total le))
        | inr filled ↦ elim (Bool-cases (ltb max (total + length (trim_space u line)))) [
          | inl over ↦ elim (Bool-cases (ltb 20 (max - total))) [
            | inl cut ↦
                rw (truncate_loop, filled, over, cut)
                  (Keeps-over line lines out total (max - total)
                    (out ++ (take (max - total) t ∷ [])) (omega arith) (ground arith)
                    (concat-snoc out (take (max - total) t)))
            | inr little ↦
                rw (truncate_loop, filled, over, little)
                  (Keeps-over line lines out total 0 out (omega arith) (ground arith)
                    (sym (append-nil (concat out))))
          ]
          | inr fits ↦
              rw (truncate_loop, filled, fits)
                (Keeps-next line lines out total
                  (truncate_loop u max lines (out ++ (t ∷ [])) (total + length t)).0
                  (truncate_loop-Keeps lines (out ++ (t ∷ [])) (total + length t) (ground arith)))
        ]
      ]

  -- The lines that are kept, one after another, are the first runes of the trimmed lines, at most as
  -- many as the maximum, and all of them unless those are more than the maximum.
  pub truncate_loop-keeps :
      (lines : List Str)
      → let r = (truncate_loop u max lines [] 0).0 in
        (n : ℕ) × (n ≤ max)
        × (concat r ≡ take n (trimmed_text lines))
        × ((max < length (trimmed_text lines)) ⊎ (concat r ≡ trimmed_text lines))
  unfolding Keeps
  truncate_loop-keeps lines =
      let (n, le, prefix, whole) = truncate_loop-Keeps lines [] 0 (omega arith) in
      (
        n,
        omega (arith, le),
        prefix,
        elim (dec_lt max (length (trimmed_text lines))) [
          | yes more ↦ inl more
          | no fits ↦ inr (whole (omega arith))
        ],
      )
