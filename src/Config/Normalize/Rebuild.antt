-- ===== src/Config/Normalize/Rebuild.antt =====
-- internal/config/config.go: a map that was rebuilt is rebuilt to itself.
use domour.Common.{
  Bool, true, false, not, ◌||◌, ◌≡◌, refl, subst, ap, sym, ◌∙◌, inl, inr, arith, List, [], ◌∷◌,
  ◌++◌, append_assoc, append-nil, any, all, map, if◌then◌else◌, Bool-cases,
}
use domour.Common.Text.{Str, equal, equal_iff}
use domour.Common.Assoc.{Assoc, insert}
use domour.Common.Sort.{has}
use domour.Config.Normalize.{rebuild}

abbrev keys_of {ℓ} : {V : Type ℓ} → Assoc V → List Str
keys_of m = map (λ e. e.0) m

module _ {V : Type 0} (skip : Str → Bool) (key : Str → Str) (value : V → V) where
  -- The keys differ, and every key and value is its own normal form.
  pub data IsNormal : Assoc V → Type 0 where
    nothing : IsNormal []
    entry :
        {k : Str} {v : V} {m : Assoc V}
        → key k ≡ k
        → skip k ≡ false
        → value v ≡ v
        → has (keys_of m) k ≡ false
        → IsNormal m
        → IsNormal ((k, v) ∷ m)

  keys_of-insert :
      (p : Str → Bool) (k : Str) (v : V) (m : Assoc V)
      → any p (keys_of (insert k v m)) ≡ p k || any p (keys_of m)
  unfolding insert
  keys_of-insert p k v [] = refl
  keys_of-insert p k v ((j, w) ∷ m) = ground (arith, equal_iff j k, keys_of-insert p k v m)

  insert-IsNormal :
      (k : Str) (v : V) (m : Assoc V)
      → key k ≡ k
      → skip k ≡ false
      → value v ≡ v
      → IsNormal m
      → IsNormal (insert k v m)
  unfolding insert
  insert-IsNormal k v [] kk sk vv nothing = entry kk sk vv refl nothing
  insert-IsNormal k v ((j, w) ∷ m) kk sk vv (entry jj sj ww fresh n) =
      elim (Bool-cases (equal j k)) [
        | inl e ↦
            let same : j ≡ k = (equal_iff j k).0 e in
            let fresh' : has (keys_of m) k ≡ false =
              subst (λ i. has (keys_of m) i ≡ false) same fresh in
            rw e (entry kk sk vv fresh' n)
        | inr e ↦ rw e (
            entry jj sj ww
              (keys_of-insert (equal j) k v m ∙ ground (arith, equal_iff j k, equal_iff k j))
              (insert-IsNormal k v m kk sk vv n))
      ]

  rebuild-IsNormal :
      ((k : Str) → key (key k) ≡ key k)
      → ((v : V) → value (value v) ≡ value v)
      → (m out : Assoc V) → IsNormal out
      → IsNormal (rebuild skip key value m out)
  unfolding rebuild
  rebuild-IsNormal kk vv [] out n = n
  rebuild-IsNormal kk vv ((k, v) ∷ m) out n = elim (Bool-cases (skip (key k))) [
    | inl e ↦ rw e (rebuild-IsNormal kk vv m out n)
    | inr e ↦ rw e (
        rebuild-IsNormal kk vv m (insert (key k) (value v) out)
          (insert-IsNormal (key k) (value v) out (kk k) e (vv v) n))
  ]

  insert-fresh :
      (k : Str) (v : V) (m : Assoc V)
      → has (keys_of m) k ≡ false
      → insert k v m ≡ m ++ ((k, v) ∷ [])
  unfolding insert
  insert-fresh k v [] fresh = refl
  insert-fresh k v ((j, w) ∷ m) fresh =
      ground (arith, equal_iff j k, equal_iff k j, insert-fresh k v m)

  -- no key of the one is a key of the other
  abbrev apart : Assoc V → Assoc V → Bool
  apart m out = all (λ k. not (has (keys_of out) k)) (keys_of m)

  any-keys-append :
      (p : Str → Bool) (out : Assoc V) (k : Str) (v : V)
      → any p (keys_of (out ++ ((k, v) ∷ []))) ≡ any p (keys_of out) || p k
  any-keys-append p [] k v = ground arith
  any-keys-append p ((j, w) ∷ out) k v = ground (arith, any-keys-append p out k v)

  apart-append :
      (m out : Assoc V) (k : Str) (v : V)
      → apart m out ≡ true
      → has (keys_of m) k ≡ false
      → apart m (out ++ ((k, v) ∷ [])) ≡ true
  apart-append [] out k v h fresh = refl
  apart-append ((j, w) ∷ m) out k v h fresh = ground (
    arith,
    equal_iff j k,
    equal_iff k j,
    any-keys-append (equal j) out k v,
    apart-append m out k v,
  )

  apart-nil : (m : Assoc V) → apart m [] ≡ true
  apart-nil [] = refl
  apart-nil (e ∷ m) = apart-nil m

  rebuild-same :
      (m out : Assoc V) → IsNormal m → apart m out ≡ true → rebuild skip key value m out ≡ out ++ m
  unfolding rebuild
  rebuild-same [] out n h = sym (append-nil out)
  rebuild-same ((k, v) ∷ m) out (entry kk sk vv fresh n) h =
      let last : (if skip (key k) then out else insert (key k) (value v) out)
          ≡ out ++ ((k, v) ∷ []) =
        rw (kk, sk, vv) (insert-fresh k v out (ground arith)) in
      ap (rebuild skip key value m) last
      ∙ rebuild-same m (out ++ ((k, v) ∷ [])) n (apart-append m out k v (ground arith) fresh)
      ∙ append_assoc out ((k, v) ∷ []) m

  pub rebuild_twice :
      ((k : Str) → key (key k) ≡ key k)
      → ((v : V) → value (value v) ≡ value v)
      → (m : Assoc V)
      → rebuild skip key value (rebuild skip key value m []) [] ≡ rebuild skip key value m []
  rebuild_twice kk vv m =
      rebuild-same (rebuild skip key value m []) [] (rebuild-IsNormal kk vv m [] nothing)
        (apart-nil (rebuild skip key value m []))
