-- ===== src/Driver/Once.antt =====
-- The driver is opened once, and who returns finds it open.
use czarr.Prelude.{
  one_if, ℕ, suc, ◌+◌, ◌≤◌, ◌≡◌, refl, sym, ap, ◌∙◌, inl, inr, Bool, true, false, not, Option, none,
  some, ◌==◌, if◌then◌else◌, arith,
}
use czarr.Driver.{
  Place, starting, waiting, checking, opening, marking, hooking, finished, refused, inside, Driver,
  step_from, step, Reach, initial, next,
}
use czarr.Driver.Moves.{
  owns, agrees, is_marking, holder, Sound, at_start-Sound, outside-Sound, counts, stay-Sound,
  leave-Sound, enter-Sound,
}

-- Both branches of a test.
branch-Sound :
    (b : Bool) (s t : Driver)
    → (b ≡ true → Sound s)
    → (b ≡ false → Sound t)
    → Sound (if b then s else t)
branch-Sound true s t held free = held refl
branch-Sound false s t held free = free refl

step_from-Sound :
    (disabled opens : Bool) (s : Driver) (i : ℕ) (p : Place)
    → s.place i ≡ p
    → Sound s
    → Sound (step_from disabled opens s i p)
step_from-Sound disabled opens s i starting e h =
    let out = ap inside e in
    branch-Sound s.opened _ _ (λ o. outside-Sound s i finished out refl o h)
      (λ c.
        branch-Sound disabled _ _ (λ d. outside-Sound s i refused out refl refl h)
          (λ d. outside-Sound s i waiting out refl refl h))
step_from-Sound disabled opens s i waiting e h = enter-Sound s i s.lock refl h
step_from-Sound disabled opens s i checking e h =
    let under : true ≡ inside (s.place i) = ap inside (sym e) in
    let (c₁, c₂) = counts s i under h checking e in
    branch-Sound s.opened _ _
      (λ o. leave-Sound s i under h finished s.hooks refl o (omega arith) (omega arith))
      (λ c.
        stay-Sound s i under h opening s.opened s.opens s.hooks refl (ap not c) (inr refl) c₁ c₂)
step_from-Sound disabled opens s i opening e h =
    let under : true ≡ inside (s.place i) = ap inside (sym e) in
    let (c₁, c₂) = counts s i under h opening e in
    let shut : not s.opened ≡ true = sym (ap (λ q. agrees q s.opened) e) ∙ h.fitting i in
    branch-Sound opens _ _
      (λ o.
        stay-Sound s i under h marking s.opened (suc s.opens) s.hooks refl shut (inr refl)
          (omega arith) c₂)
      (λ c. leave-Sound s i under h refused s.hooks refl refl (omega arith) (omega arith))
step_from-Sound disabled opens s i marking e h =
    let under : true ≡ inside (s.place i) = ap inside (sym e) in
    let (c₁, c₂) = counts s i under h marking e in
    let shut : not s.opened ≡ true = sym (ap (λ q. agrees q s.opened) e) ∙ h.fitting i in
    stay-Sound s i under h hooking true s.opens s.hooks refl refl (inl refl) (ground arith)
      (ground arith)
step_from-Sound disabled opens s i hooking e h =
    let under : true ≡ inside (s.place i) = ap inside (sym e) in
    let (c₁, c₂) = counts s i under h hooking e in
    let open_now : s.opened ≡ true = sym (ap (λ q. agrees q s.opened) e) ∙ h.fitting i in
    leave-Sound s i under h finished (suc s.hooks) refl open_now (omega arith) (omega arith)
step_from-Sound disabled opens s i finished e h =
    outside-Sound s i starting (ap inside e) refl refl h
step_from-Sound disabled opens s i refused e h =
    outside-Sound s i starting (ap inside e) refl refl h

step-Sound :
    (disabled opens : Bool) (i : ℕ) (s : Driver) → Sound s → Sound (step disabled opens i s)
unfolding step
step-Sound disabled opens i s h = step_from-Sound disabled opens s i (s.place i) refl h

Reach-Sound : {s : Driver} → Reach s → Sound s
Reach-Sound initial = at_start-Sound
Reach-Sound (next {s} disabled opens i r) = step-Sound disabled opens i s (Reach-Sound r)

marking_bound : (o : Bool) (q : Place) → agrees q o ≡ true → one_if o + one_if (is_marking q) ≤ 1
marking_bound true marking h = absurd cc
marking_bound false marking h = omega arith
marking_bound o starting h = ground arith
marking_bound o waiting h = ground arith
marking_bound o checking h = ground arith
marking_bound o opening h = ground arith
marking_bound o hooking h = ground arith
marking_bound o finished h = ground arith
marking_bound o refused h = ground arith

holder_bound :
    (o : Bool) (place : ℕ → Place) (lock : Option ℕ)
    → ((i : ℕ) → agrees (place i) o ≡ true)
    → one_if o + one_if (holder is_marking place lock) ≤ 1
holder_bound o place none h = ground arith
holder_bound o place (some i) h = marking_bound o (place i) (h i)

same_owner : (i j : ℕ) (lock : Option ℕ) → true ≡ owns i lock → true ≡ owns j lock → i ≡ j
same_owner i j none p q = absurd cc
same_owner i j (some k) p q = ground arith

-- In every state that the threads can reach by calls of `ensure_driver_open`, in any interleaving:
-- `driver_open` has returned at most once and the close is registered at most once; two threads are
-- never both under the lock; and where a thread has returned, the driver was opened exactly once.
pub Reach-once :
    {s : Driver}
    → Reach s
    → (s.opens ≤ 1)
      × (s.hooks ≤ 1)
      × ((i j : ℕ) → inside (s.place i) ≡ true → inside (s.place j) ≡ true → i ≡ j)
      × ((i : ℕ) → s.place i ≡ finished → (s.opened ≡ true) × (s.opens ≡ 1))
Reach-once {s} r =
    let h = Reach-Sound r in
    let most = holder_bound s.opened s.place s.lock h.fitting in
    let open_at : (i : ℕ) → s.place i ≡ finished → s.opened ≡ true =
      λ i e. sym (ap (λ q. agrees q s.opened) e) ∙ h.fitting i in
    (
      omega (arith, h.opens_eq),
      (let registered = h.hooks_eq in ground arith),
      (λ i j p q. same_owner i j s.lock (sym p ∙ h.owner i) (sym q ∙ h.owner j)),
      (λ i e. let o = open_at i e in let count = h.opens_eq in (o, ground arith)),
    )

-- Who has the lock is at a place under it.
pub Reach-holder : {s : Driver} → Reach s → (j : ℕ) → s.lock ≡ some j → inside (s.place j) ≡ true
Reach-holder {s} r j e =
    let h = Reach-Sound r in
    let self : (j == j) ≡ true = ground arith in h.owner j ∙ ap (λ l. owns j l) e ∙ self
