-- ===== src/Context/Stm/Protected.antt =====
-- The protected zone is the longest run of last nodes with at most `ProtectedTurns` turns.
use mathlib.Core.List.{reverse, reverse-cons, reverse-reverse}
use domour.Common.{
  ℕ, suc, ◌+◌, ◌-◌, ◌≤◌, ◌<◌, ◌≡◌, refl, ap, sym, subst, subst₂, ◌∙◌, arith, inl, inr, List, [],
  ◌∷◌, ◌++◌, append_assoc, append-nil, ltb, ◌==◌, not, if◌then◌else◌, Bool, Bool-cases, false, ◌||◌,
  any, length, length-append, drop, drop-length, drop-append_le, none, Option,
}
use domour.Common.Ring.{window-nil}
use domour.Common.Text.{Str, equal, equal_iff}
use domour.Context.Stm.{
  Config, Buffer, new, set_capacity, append, snapshot, boundary_loop, protected_boundary,
}
use domour.Context.Stm.Spec.{recent, values}
use domour.Context.Stm.Inv.{Inv, oldest, new-Inv}
use domour.Context.Stm.Recent.{append_all, append_all-contents, snapshot-contents, snapshot-recent}

module _ {A : Type 0} (turn_id : A → Str) where
  abbrev of_turn : Str → List A → Bool
  of_turn t [] = false
  of_turn t (x ∷ xs) = equal t (turn_id x) || of_turn t xs

  -- the number of different turns
  abbrev pub turns : List A → ℕ
  turns [] = 0
  turns (x ∷ xs) = if of_turn (turn_id x) xs then turns xs else turns xs + 1

  -- From `k` on there are at most `limit` turns, and from one node earlier one too many.
  pub record IsBoundary (limit : ℕ) (nodes : List A) (k : ℕ) : Type 0 where
    pub inside : k ≤ length nodes
    pub few : turns (drop k nodes) ≤ limit
    pub longest : 0 < k → turns (drop (k - 1) nodes) ≡ limit + 1

  abbrev Seen : List Str → List A → Type 0
  Seen seen tail = (t : Str) → any (equal t) seen ≡ of_turn t tail

  -- one node more
  Seen-cons :
      (seen : List Str) (x : A) (tail : List A)
      → Seen seen tail
      → Seen (if not (any (equal (turn_id x)) seen) then turn_id x ∷ seen else seen) (x ∷ tail)
  Seen-cons seen x tail h t = elim (Bool-cases (equal t (turn_id x))) [
    | inl e ↦
        let at : of_turn t tail ≡ of_turn (turn_id x) tail =
          ap (λ y. of_turn y tail) ((equal_iff t (turn_id x)).0 e) in
        ground (arith, h t, h (turn_id x), at)
    | inr ne ↦ ground (arith, h t)
  ]

  drop-at :
      (front : List A) (x : A) (tail : List A)
      → drop (length front + 1) (front ++ (x ∷ tail)) ≡ tail
  drop-at [] x tail = refl
  drop-at (y ∷ front) x tail =
      ap (λ k. drop k (y ∷ (front ++ (x ∷ tail)))) (step (length front)) ∙ drop-at front x tail
    where
      step : (n : ℕ) → suc n + 1 ≡ suc (n + 1)
      step n = omega arith

  -- the last place before the boundary
  drop-before :
      (front : List A) (x : A) (tail : List A)
      → drop (length front + 1 - 1) (front ++ (x ∷ tail)) ≡ x ∷ tail
  drop-before front x tail =
      ap (λ k. drop k (front ++ (x ∷ tail))) (same (length front))
      ∙ drop-append_le (length front) front (x ∷ tail) (omega arith)
      ∙ ap (λ q. q ++ (x ∷ tail)) (drop-length front)
    where
      same : (n : ℕ) → n + 1 - 1 ≡ n
      same n = omega arith

  length-reverse : (xs : List A) → length (reverse xs) ≡ length xs
  length-reverse [] = refl
  length-reverse (x ∷ xs) =
      ap length (reverse-cons x xs)
      ∙ omega (arith, length-append (reverse xs) (x ∷ []), length-reverse xs)

  IsBoundary-here :
      (limit : ℕ) (front : List A) (x : A) (tail : List A) (k : ℕ)
      → k ≡ length front + 1
      → turns tail ≤ limit
      → limit < turns (x ∷ tail)
      → IsBoundary limit (front ++ (x ∷ tail)) k
  IsBoundary-here limit front x tail k e few many = record {
    inside = omega (arith, length-append front (x ∷ tail));
    few =
        subst (λ q. turns q ≤ limit)
          (sym (ap (λ j. drop j (front ++ (x ∷ tail))) e ∙ drop-at front x tail)) few;
    longest = λ p.
        ap (λ j. turns (drop (j - 1) (front ++ (x ∷ tail)))) e
        ∙ ap turns (drop-before front x tail)
        ∙ ground arith;
  }

  boundary_loop-IsBoundary :
      (limit : ℕ) (rev : List A) (tail : List A) (seen : List Str)
      → Seen seen tail
      → turns tail ≤ limit
      → IsBoundary limit (reverse rev ++ tail) (boundary_loop turn_id limit rev seen (turns tail))
  unfolding boundary_loop
  boundary_loop-IsBoundary limit [] tail seen same few = record {
    inside = omega arith;
    few = few;
    longest = λ p. absurd (omega arith);
  }
  boundary_loop-IsBoundary limit (x ∷ rev) tail seen same few =
      let now : (if not (any (equal (turn_id x)) seen) then turns tail + 1 else turns tail)
          ≡ turns (x ∷ tail) =
        ground (arith, same (turn_id x)) in
      let whole : reverse rev ++ (x ∷ tail) ≡ reverse (x ∷ rev) ++ tail =
        sym (append_assoc (reverse rev) (x ∷ []) tail)
        ∙ ap (λ q. q ++ tail) (sym (reverse-cons x rev)) in
      subst (λ q. IsBoundary limit q (boundary_loop turn_id limit (x ∷ rev) seen (turns tail)))
        whole
        (elim (Bool-cases (ltb limit (turns (x ∷ tail)))) [
          | inl many ↦
              rw (boundary_loop, now, many)
                (IsBoundary-here limit (reverse rev) x tail (length rev + 1)
                  (ap (λ n. n + 1) (sym (length-reverse rev))) few (ground arith))
          | inr still ↦
              rw (boundary_loop, now, still)
                (boundary_loop-IsBoundary limit rev (x ∷ tail)
                  (if not (any (equal (turn_id x)) seen) then turn_id x ∷ seen else seen)
                  (Seen-cons seen x tail same) (ground arith))
        ])

  protected_boundary-IsBoundary :
      (b : Buffer A)
      → Inv b
      → IsBoundary b.config.protected_turns (snapshot b) (protected_boundary turn_id b)
  unfolding protected_boundary
  protected_boundary-IsBoundary b inv = elim (Bool-cases (b.size == 0)) [
    | inl is_empty ↦
        rw (protected_boundary, is_empty)
          (subst (λ q. IsBoundary b.config.protected_turns q 0)
            (sym (
              snapshot-contents b inv
              ∙ ap values
                  (window-nil none b.config.capacity b.nodes (oldest b) b.size (ground arith))))
            (record {
              inside = omega arith;
              few = omega arith;
              longest = λ p. absurd (omega arith);
            }))
    | inr filled ↦
        rw (protected_boundary, filled)
          (subst
            (λ q.
              IsBoundary b.config.protected_turns q
                (boundary_loop turn_id b.config.protected_turns (reverse (snapshot b)) [] 0))
            (append-nil (reverse (reverse (snapshot b))) ∙ reverse-reverse (snapshot b))
            (boundary_loop-IsBoundary b.config.protected_turns (reverse (snapshot b)) [] []
              (λ t. refl) (omega arith)))
  ]

  same-config : (b : Buffer A) (xs : List (Option A)) → (append_all b xs).config ≡ b.config
  unfolding append
  same-config b [] = refl
  same-config b (x ∷ xs) = same-config (append b x) xs

  -- After any appends to a new buffer the protected boundary splits the snapshot so that the nodes
  -- from it on have at most `ProtectedTurns` different turns, and with the node before it (if there
  -- is one) they have exactly one turn more.
  pub protected_boundary-longest :
      (cfg : Config) (n : ℕ) (xs : List (Option A))
      → 0 < n
      → n ≤ cfg.capacity
      → let b = append_all (set_capacity (new cfg) n) xs in
        IsBoundary cfg.protected_turns (values (recent n xs)) (protected_boundary turn_id b)
  unfolding new set_capacity
  protected_boundary-longest cfg n xs pos le =
      let start : Buffer A = set_capacity (new cfg) n in
      let b : Buffer A = append_all start xs in
      let inv = (append_all-contents start xs (new-Inv cfg n pos le)).0 in
      subst₂ (λ limit q. IsBoundary limit q (protected_boundary turn_id b))
        (ap (λ c. c.protected_turns) (same-config start xs)) (snapshot-recent cfg n xs pos le)
        (protected_boundary-IsBoundary b inv)
