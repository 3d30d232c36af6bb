-- ===== src/Supervisor/Registry/Fill.antt =====
-- ark/supervisor/registry.go: one notification fills the channels of the listeners.
use domour.Common.{
  ℕ, zero, suc, ◌≡◌, refl, ap, sym, ◌∙◌, arith, inl, inr, List, [], ◌∷◌, ◌++◌, length,
  length-append, ◌-◌, take, length-take, append_assoc, append-nil, ◌==◌, ltb, if◌then◌else◌,
  Bool-cases,
}
use domour.Supervisor.Registry.{
  ProcessEvent, ProcessEventType, Channel, Registry, put, offer, notify_all, notify,
}

abbrev pub occurrences : ℕ → List ℕ → ℕ
occurrences ch [] = 0
occurrences ch (l ∷ ls) = if l == ch then suc (occurrences ch ls) else occurrences ch ls

abbrev pub times : ℕ → ProcessEvent → List ProcessEvent
times zero event = []
times (suc n) event = event ∷ times n event

-- each event `n` times
abbrev pub repeated : ℕ → List ProcessEvent → List ProcessEvent
repeated n [] = []
repeated n (event ∷ es) = times n event ++ repeated n es

-- A channel after events were sent to it: it takes the first of them, while it has room.
abbrev pub filled : List ProcessEvent → Channel → Channel
filled es c = record c { queue = c.queue ++ take (c.capacity - length c.queue) es }

take-nil : (n : ℕ) → take {A = ProcessEvent} n [] ≡ []
take-nil zero = refl
take-nil (suc n) = refl

sub_zero : (n : ℕ) → n ≡ n - 0
sub_zero n = omega arith

none_left : (m : ℕ) → 0 ≡ 0 - suc m
none_left m = omega arith

less_one : (n m : ℕ) → n - m ≡ suc n - suc m
less_one n m = omega arith

take-append_rest :
    (n : ℕ) (es fs : List ProcessEvent) → take n (es ++ fs) ≡ take n es ++ take (n - length es) fs
take-append_rest n [] fs =
    ap (λ k. take k fs) (sub_zero n) ∙ ap (λ q. q ++ take (n - 0) fs) (sym (take-nil n))
take-append_rest zero (e ∷ es) fs = ap (λ k. take k fs) (none_left (length es))
take-append_rest (suc n) (e ∷ es) fs =
    ap (◌∷◌ e)
      (take-append_rest n es fs ∙ ap (λ k. take n es ++ take k fs) (less_one n (length es)))

same_queue :
    (c : Channel) (q r : List ProcessEvent)
    → q ≡ r
    → (record c { queue = q }) ≡ record c { queue = r }
same_queue c q r e = ap (λ x. record c { queue = x }) e

offer-filled : (event : ProcessEvent) (c : Channel) → offer event c ≡ filled (event ∷ []) c
unfolding offer
offer-filled event c = elim (Bool-cases (ltb (length c.queue) c.capacity)) [
  | inl room ↦
      let left : suc (c.capacity - length c.queue - 1) ≡ c.capacity - length c.queue =
        ground arith in
      rw room (
        same_queue c (c.queue ++ (event ∷ []))
          (c.queue ++ take (c.capacity - length c.queue) (event ∷ []))
          (ap (λ q. c.queue ++ (event ∷ q)) (sym (take-nil (c.capacity - length c.queue - 1)))
            ∙ ap (λ n. c.queue ++ take n (event ∷ [])) left))
  | inr full ↦
      let left : 0 ≡ c.capacity - length c.queue = ground arith in
      rw full (
        same_queue c c.queue (c.queue ++ take (c.capacity - length c.queue) (event ∷ []))
          (sym (append-nil c.queue) ∙ ap (λ n. c.queue ++ take n (event ∷ [])) left))
]

pub filled-filled :
    (es fs : List ProcessEvent) (c : Channel) → filled fs (filled es c) ≡ filled (es ++ fs) c
filled-filled es fs c =
    let n = c.capacity - length c.queue in
    let left : c.capacity - length (c.queue ++ take n es) ≡ n - length es =
      omega (arith, length-append c.queue (take n es), length-take n es) in
    same_queue c ((c.queue ++ take n es) ++ take (c.capacity - length (c.queue ++ take n es)) fs)
      (c.queue ++ take n (es ++ fs))
      (append_assoc c.queue (take n es) (take (c.capacity - length (c.queue ++ take n es)) fs)
        ∙ ap (λ k. c.queue ++ (take n es ++ take k fs)) left
        ∙ ap (λ q. c.queue ++ q) (sym (take-append_rest n es fs)))

pub filled-none : (c : Channel) → c ≡ filled [] c
filled-none c = same_queue c c.queue (c.queue ++ take (c.capacity - length c.queue) []) (
    sym (append-nil c.queue)
    ∙ ap (λ q. c.queue ++ q) (sym (take-nil (c.capacity - length c.queue))))

notify_all-filled :
    (ls : List ℕ) (event : ProcessEvent) (cs : ℕ → Channel) (ch : ℕ)
    → notify_all ls event cs ch ≡ filled (times (occurrences ch ls) event) (cs ch)
unfolding notify_all
notify_all-filled [] event cs ch = filled-none (cs ch)
notify_all-filled (l ∷ ls) event cs ch = elim (Bool-cases (l == ch)) [
  | inl e ↦
      let same : l ≡ ch = ground arith in
      rw e (
        notify_all-filled ls event (put cs l (offer event (cs l))) ch
        ∙ ap (filled (times (occurrences ch ls) event)) (rw (e, same) (offer-filled event (cs ch)))
        ∙ filled-filled (event ∷ []) (times (occurrences ch ls) event) (cs ch))
  | inr ne ↦ rw ne (
      notify_all-filled ls event (put cs l (offer event (cs l))) ch
      ∙ ap (filled (times (occurrences ch ls) event)) (rw ne refl))
]

pub repeated-append :
    (n : ℕ) (es fs : List ProcessEvent) → repeated n (es ++ fs) ≡ repeated n es ++ repeated n fs
repeated-append n [] fs = refl
repeated-append n (e ∷ es) fs =
    ap (λ q. times n e ++ q) (repeated-append n es fs)
    ∙ sym (append_assoc (times n e) (repeated n es) (repeated n fs))

pub notify-delivers :
    (r : Registry) (kind : ProcessEventType) (a ch : ℕ)
    → (notify r kind a).channels ch
      ≡ filled
          (repeated (occurrences ch r.listeners) (record { kind = kind; process = a } ∷ []))
          (r.channels ch)
unfolding notify
notify-delivers r kind a ch =
    let event : ProcessEvent = record { kind = kind; process = a } in
    let n = occurrences ch r.listeners in
    notify_all-filled r.listeners event r.channels ch
    ∙ ap (λ es. filled es (r.channels ch)) (sym (append-nil (times n event)))
