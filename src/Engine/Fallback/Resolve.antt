-- ===== src/Engine/Fallback/Resolve.antt =====
-- internal/engine/fallback.go: what resolveWithFallback returns.
use domour.Common.{
  ℕ, suc, ◌+◌, ◌<◌, Bool, true, false, ◌≡◌, refl, ap, sym, subst, ◌⊎◌, inl, inr, arith, Option,
  none, some, List, [], ◌∷◌, ◌++◌, ◌==◌, if◌then◌else◌, Bool-cases, length,
}
use domour.Common.Text.{Str}
use domour.Common.Unicode.{Unicode}
use domour.Config.{DomourConfig}
use domour.Engine.Fallback.{
  Candidate, ResolveError, primary, no_usable, is_ready, resolve_loop, resolve_with_fallback,
  fallback_candidates,
}

module _ {S Client E : Type 0} (build : Str → Str → Str → S → (E ⊎ Client) × S)
    (ready : Client → S → (Bool × Option E) × S) (entry : Str) where
  -- The candidates from `i` on are refused one after another, from one state to another: building
  -- fails, or, after the first, the client is not ready.
  pub data Refused : ℕ → List Candidate → S → S → Type 0 where
    all_refused : {i : ℕ} {s : S} → Refused i [] s s
    unbuilt :
        {i : ℕ} {cand : Candidate} {cands : List Candidate} {err : E} {s s1 s' : S}
        → build entry cand.provider cand.model s ≡ (inl err, s1)
        → Refused (i + 1) cands s1 s'
        → Refused i (cand ∷ cands) s s'
    unready :
        {i : ℕ} {cand : Candidate} {cands : List Candidate} {cl : Client} {r : Bool × Option E}
        {s s1 s2 s' : S}
        → 0 < i
        → build entry cand.provider cand.model s ≡ (inr cl, s1)
        → ready cl s1 ≡ (r, s2)
        → is_ready build ready entry r ≡ false
        → Refused (i + 1) cands s2 s'
        → Refused i (cand ∷ cands) s s'

  -- Candidate number `i` is taken: it is built, and ready unless it is the first.
  pub data Taken (i : ℕ) (cand : Candidate) (cl : Client) (s : S) : S → Type 0 where
    first_built :
        {s1 : S}
        → i ≡ 0
        → build entry cand.provider cand.model s ≡ (inr cl, s1)
        → Taken i cand cl s s1
    built_ready :
        {s1 s2 : S} {r : Bool × Option E}
        → 0 < i
        → build entry cand.provider cand.model s ≡ (inr cl, s1)
        → ready cl s1 ≡ (r, s2)
        → is_ready build ready entry r ≡ true
        → Taken i cand cl s s2

  -- Candidate number `i` or a later one is taken after those before it are refused, or all are
  -- refused and `err` is returned.
  pub data Outcome (i : ℕ) (cands : List Candidate) (err : ResolveError E) (s : S)
      : (ResolveError E ⊎ Client) × S → Type 0 where
    taken :
        (pre post : List Candidate) {cand : Candidate} {cl : Client} {s1 s' : S}
        → cands ≡ pre ++ (cand ∷ post)
        → Refused i pre s s1
        → Taken (i + length pre) cand cl s1 s'
        → Outcome i cands err s (inr cl, s')
    none_taken : {s' : S} → Refused i cands s s' → Outcome i cands err s (inl err, s')

  -- the error of building the first candidate
  abbrev pub first_error : List Candidate → S → ResolveError E
  first_error [] s = no_usable entry
  first_error (cand ∷ cands) s = elim ((build entry cand.provider cand.model s).0) [
    | inl err ↦ primary err
    | inr cl ↦ no_usable entry
  ]

  abbrev error_of : Option E → ResolveError E
  error_of none = no_usable entry
  error_of (some err) = primary err

  built-cases :
      (b : (E ⊎ Client) × S)
      → ((err : E) × (s1 : S) × (b ≡ (inl err, s1)))
        ⊎ ((cl : Client) × (s1 : S) × (b ≡ (inr cl, s1)))
  built-cases (inl err, s1) = inl (err, s1, refl)
  built-cases (inr cl, s1) = inr (cl, s1, refl)

  shift :
      {cand : Candidate} {cl : Client} {s s' : S} (i n : ℕ)
      → Taken (i + 1 + n) cand cl s s'
      → Taken (i + suc n) cand cl s s'
  shift {cand = cand} {cl = cl} {s = s} {s' = s'} i n t =
      subst (λ k. Taken k cand cl s s') (omega arith) t

  module _ {i : ℕ} {cand : Candidate} {cands : List Candidate} {err : ResolveError E} where
    later_unbuilt :
        {e : E} {s s1 : S} {res : (ResolveError E ⊎ Client) × S}
        → build entry cand.provider cand.model s ≡ (inl e, s1)
        → Outcome (i + 1) cands err s1 res
        → Outcome i (cand ∷ cands) err s res
    later_unbuilt b (taken pre post same before here) =
        taken (cand ∷ pre) post (ap (◌∷◌ cand) same) (unbuilt b before) (shift i (length pre) here)
    later_unbuilt b (none_taken all) = none_taken (unbuilt b all)

    later_unready :
        {cl : Client} {r : Bool × Option E} {s s1 s2 : S} {res : (ResolveError E ⊎ Client) × S}
        → 0 < i
        → build entry cand.provider cand.model s ≡ (inr cl, s1)
        → ready cl s1 ≡ (r, s2)
        → is_ready build ready entry r ≡ false
        → Outcome (i + 1) cands err s2 res
        → Outcome i (cand ∷ cands) err s res
    later_unready pos b rd no_r (taken pre post same before here) =
        taken (cand ∷ pre) post (ap (◌∷◌ cand) same) (unready pos b rd no_r before)
          (shift i (length pre) here)
    later_unready pos b rd no_r (none_taken all) = none_taken (unready pos b rd no_r all)

  -- the loop once the first candidate was built or not
  abbrev step : ℕ → List Candidate → Option E → (E ⊎ Client) × S → (ResolveError E ⊎ Client) × S
  step i cands primary_err x =
      let (built, s1) = x in
      elim built [
        | inl err ↦
            resolve_loop build ready entry (i + 1) cands (if i == 0 then some err else primary_err)
              s1
        | inr cl ↦
            let (r, s2) = ready cl s1 in
            let rest = resolve_loop build ready entry (i + 1) cands primary_err s2 in
            if i == 0
            then (inr cl, s1)
            else if is_ready build ready entry r
            then (inr cl, s2)
            else rest
      ]

  module _ {i : ℕ} {cand : Candidate} {cands : List Candidate} {err : ResolveError E} {s : S} where
    stepped :
        (primary_err : Option E) {x : (E ⊎ Client) × S}
        → build entry cand.provider cand.model s ≡ x
        → Outcome i (cand ∷ cands) err s (step i cands primary_err x)
        → Outcome i
            (cand ∷ cands)
            err
            s
            (resolve_loop build ready entry i (cand ∷ cands) primary_err s)
    unfolding resolve_loop
    stepped primary_err b o =
        subst (λ x. Outcome i (cand ∷ cands) err s (step i cands primary_err x)) (sym b) o

  resolve_loop-Outcome :
      (i : ℕ) (cands : List Candidate) (err : Option E) (s : S)
      → 0 < i
      → Outcome i cands (error_of err) s (resolve_loop build ready entry i cands err s)
  unfolding resolve_loop
  resolve_loop-Outcome i [] none s pos = none_taken all_refused
  resolve_loop-Outcome i [] (some err) s pos = none_taken all_refused
  resolve_loop-Outcome i (cand ∷ cands) err s pos =
      let later : (i == 0) ≡ false = ground arith in
      elim (built-cases (build entry cand.provider cand.model s)) [
        | inl (e, s1, b) ↦
            stepped err b
              (rw later (later_unbuilt b (resolve_loop-Outcome (i + 1) cands err s1 (omega arith))))
        | inr (cl, s1, b) ↦ elim (Bool-cases (is_ready build ready entry ((ready cl s1).0))) [
          | inl h ↦ stepped err b (
              rw (later, h)
                (taken [] cands refl all_refused (
                  subst (λ k. Taken k cand cl s ((ready cl s1).1)) (omega arith)
                    (built_ready pos b refl h))))
          | inr h ↦ stepped err b (
              rw (later, h)
                (later_unready pos b refl h
                  (resolve_loop-Outcome (i + 1) cands err ((ready cl s1).1) (omega arith))))
        ]
      ]

  resolve_loop-first :
      (cands : List Candidate) (s : S)
      → Outcome 0 cands (first_error cands s) s (resolve_loop build ready entry 0 cands none s)
  unfolding resolve_loop
  resolve_loop-first [] s = none_taken all_refused
  resolve_loop-first (cand ∷ cands) s =
      elim (built-cases (build entry cand.provider cand.model s)) [
        | inl (e, s1, b) ↦ stepped none b (
            rw (b, first_error)
              (later_unbuilt b (resolve_loop-Outcome 1 cands (some e) s1 (omega arith))))
        | inr (cl, s1, b) ↦ stepped none b (taken [] cands refl all_refused (first_built refl b))
      ]

  -- The client that is returned is that of the first candidate that is taken: the candidates before
  -- it are refused, since building them fails or, after the first one, they are not ready, and it is
  -- built, and ready unless it is the first. Otherwise every candidate is refused, and the error is
  -- that of building the first one; that nothing is usable is said only when there is no candidate.
  pub resolve_with_fallback-Outcome :
      (u : Unicode) (provider model : Str) (c : DomourConfig) (s : S)
      → let cands = fallback_candidates u entry provider model c in
        Outcome 0 cands
          (first_error cands s)
          s
          (resolve_with_fallback build ready entry u provider model c s)
  unfolding resolve_with_fallback
  resolve_with_fallback-Outcome u provider model c s =
      resolve_loop-first (fallback_candidates u entry provider model c) s
