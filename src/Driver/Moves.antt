-- ===== src/Driver/Moves.antt =====
-- The invariant of the threads that open the driver, and that each kind of move keeps it.
use czarr.Prelude.{
  one_if, ℕ, ◌+◌, ◌≡◌, refl, sym, ap, ◌∙◌, ◌⊎◌, inl, inr, Bool, true, false, not, Option, none,
  some, ◌==◌, if◌then◌else◌, arith, ==_iff, Bool-cases,
}
use czarr.Driver.{
  Place, starting, waiting, checking, opening, marking, hooking, finished, refused, inside, Driver,
  at_start, go, leave, enter,
}

abbrev pub owns : ℕ → Option ℕ → Bool
owns i none = false
owns i (some j) = i == j

-- What `_opened` is for a thread at the place.
abbrev pub agrees : Place → Bool → Bool
agrees opening o = not o
agrees marking o = not o
agrees hooking o = o
agrees finished o = o
agrees _ o = true

abbrev pub is_marking : Place → Bool
is_marking marking = true
is_marking _ = false

abbrev is_hooking : Place → Bool
is_hooking hooking = true
is_hooking _ = false

-- Whether the thread that has the lock is at such a place.
abbrev pub holder : (Place → Bool) → (ℕ → Place) → Option ℕ → Bool
holder f place none = false
holder f place (some i) = f (place i)

pub record Sound (s : Driver) : Type 0 where
  pub owner : (i : ℕ) → inside (s.place i) ≡ owns i s.lock
  pub fitting : (i : ℕ) → agrees (s.place i) s.opened ≡ true
  pub opens_eq : s.opens ≡ one_if s.opened + one_if (holder is_marking s.place s.lock)
  pub hooks_eq : s.hooks + one_if (holder is_hooking s.place s.lock) ≡ one_if s.opened

pub at_start-Sound : Sound at_start
at_start-Sound = record { owner = λ i. refl; fitting = λ i. refl; opens_eq = refl; hooks_eq = refl }

owner_lock : (i : ℕ) (lock : Option ℕ) → true ≡ owns i lock → lock ≡ some i
owner_lock i none h = absurd cc
owner_lock i (some j) h = ap some (ground arith)

abbrev with_place : ℕ → Place → (ℕ → Place) → ℕ → Place
with_place i p place j = if j == i then p else place j

-- The places under the lock do not change where the thread that moves does not have it.
holder-with_place :
    (f : Place → Bool) (i : ℕ) (p : Place) (place : ℕ → Place) (lock : Option ℕ)
    → owns i lock ≡ false
    → holder f (with_place i p place) lock ≡ holder f place lock
holder-with_place f i p place none h = refl
holder-with_place f i p place (some j) h = let e : (j == i) ≡ false = ground arith in rw e refl

-- The holder is the thread that moves.
holder_self :
    (f : Place → Bool) (i : ℕ) (p : Place) (place : ℕ → Place)
    → holder f (with_place i p place) (some i) ≡ f p
holder_self f i p place = let e : (i == i) ≡ true = ground arith in rw e refl

-- A thread moves: what has to hold of it, of the others and of the counts.
move-Sound :
    (s : Driver) (i : ℕ) (p : Place) (opened : Bool) (lock : Option ℕ) (opens hooks : ℕ)
    → inside p ≡ owns i lock
    → ((j : ℕ) → (j == i) ≡ false → owns j s.lock ≡ owns j lock)
    → agrees p opened ≡ true
    → ((j : ℕ) → (j == i) ≡ false → agrees (s.place j) opened ≡ true)
    → opens ≡ one_if opened + one_if (holder is_marking (with_place i p s.place) lock)
    → hooks + one_if (holder is_hooking (with_place i p s.place) lock) ≡ one_if opened
    → Sound s
    → Sound (record {
      opened = opened;
      lock = lock;
      opens = opens;
      hooks = hooks;
      place = with_place i p s.place;
    })
move-Sound s i p opened lock opens hooks own others fit fits_others count registered h = record {
  owner = λ j. elim (Bool-cases (j == i)) [
    | inl same ↦ rw same (own ∙ ap (λ k. owns k lock) (sym ((==_iff j i).0 same)))
    | inr other ↦ rw other (h.owner j ∙ others j other)
  ];
  fitting = λ j. elim (Bool-cases (j == i)) [
    | inl same ↦ rw same fit
    | inr other ↦ rw other (fits_others j other)
  ];
  opens_eq = count;
  hooks_eq = registered;
}

-- A thread outside the lock stays outside.
pub outside-Sound :
    (s : Driver) (i : ℕ) (p : Place)
    → inside (s.place i) ≡ false
    → inside p ≡ false
    → agrees p s.opened ≡ true
    → Sound s
    → Sound (go s i p)
outside-Sound s i p was is fit h =
    let free : owns i s.lock ≡ false = sym (h.owner i) ∙ was in
    move-Sound s i p s.opened s.lock s.opens s.hooks (is ∙ sym free) (λ j e. refl) fit
      (λ j e. h.fitting j)
      (h.opens_eq
        ∙ ap (λ b. one_if s.opened + one_if b)
            (sym (holder-with_place is_marking i p s.place s.lock free)))
      (ap (λ b. s.hooks + one_if b) (holder-with_place is_hooking i p s.place s.lock free)
        ∙ h.hooks_eq)
      h

fits_outside : (q : Place) → inside q ≡ false → agrees q true ≡ true
fits_outside starting h = refl
fits_outside waiting h = refl
fits_outside checking h = refl
fits_outside opening h = absurd cc
fits_outside marking h = absurd cc
fits_outside hooking h = refl
fits_outside finished h = refl
fits_outside refused h = refl

module _ (s : Driver) (i : ℕ) (under : true ≡ inside (s.place i)) (h : Sound s) where
  has_lock : s.lock ≡ some i
  has_lock = owner_lock i s.lock (under ∙ h.owner i)

  other_owner : (j : ℕ) → (j == i) ≡ false → owns j s.lock ≡ false
  other_owner j e = rw has_lock e

  -- The others are outside, so that they fit where the driver gets open.
  others_fit :
      (opened : Bool)
      → (opened ≡ true) ⊎ (opened ≡ s.opened)
      → (j : ℕ) → (j == i) ≡ false
      → agrees (s.place j) opened ≡ true
  others_fit opened (inl open_now) j e =
      rw open_now (fits_outside (s.place j) (h.owner j ∙ other_owner j e))
  others_fit opened (inr as_before) j e = rw as_before (h.fitting j)

  -- The counts, by the place of the thread.
  pub counts :
      (p : Place)
      → s.place i ≡ p
      → (s.opens ≡ one_if s.opened + one_if (is_marking p))
        × (s.hooks + one_if (is_hooking p) ≡ one_if s.opened)
  counts p e = (
    h.opens_eq
        ∙ ap (λ l. one_if s.opened + one_if (holder is_marking s.place l)) has_lock
        ∙ ap (λ q. one_if s.opened + one_if (is_marking q)) e,
    sym (ap (λ q. s.hooks + one_if (is_hooking q)) e)
        ∙ sym (ap (λ l. s.hooks + one_if (holder is_hooking s.place l)) has_lock)
        ∙ h.hooks_eq,
  )

  pub stay-Sound :
      (p : Place) (opened : Bool) (opens hooks : ℕ)
      → inside p ≡ true
      → agrees p opened ≡ true
      → (opened ≡ true) ⊎ (opened ≡ s.opened)
      → opens ≡ one_if opened + one_if (is_marking p)
      → hooks + one_if (is_hooking p) ≡ one_if opened
      → Sound (record {
        opened = opened;
        lock = s.lock;
        opens = opens;
        hooks = hooks;
        place = with_place i p s.place;
      })
  stay-Sound p opened opens hooks is fit grows count registered =
      move-Sound s i p opened s.lock opens hooks (is ∙ under ∙ h.owner i) (λ j e. refl) fit
        (others_fit opened grows)
        (rw has_lock
          (count ∙ ap (λ b. one_if opened + one_if b) (sym (holder_self is_marking i p s.place))))
        (rw has_lock (ap (λ b. hooks + one_if b) (holder_self is_hooking i p s.place) ∙ registered))
        h

  pub leave-Sound :
      (p : Place) (hooks : ℕ)
      → inside p ≡ false
      → agrees p s.opened ≡ true
      → s.opens ≡ one_if s.opened
      → hooks ≡ one_if s.opened
      → Sound (record (leave s i p) { hooks = hooks })
  leave-Sound p hooks out fit count registered =
      move-Sound s i p s.opened none s.opens hooks out other_owner fit (λ j e. h.fitting j)
        (count ∙ omega arith) (omega arith) h

pub enter-Sound :
    (s : Driver) (i : ℕ) (lock : Option ℕ) → s.lock ≡ lock → Sound s → Sound (enter s i lock)
enter-Sound s i (some j) e h = h
enter-Sound s i none e h =
    move-Sound s i checking s.opened (some i) s.opens s.hooks (ground arith)
      (λ j other. rw e (sym other)) refl (λ j other. h.fitting j)
      (h.opens_eq
        ∙ ap (λ l. one_if s.opened + one_if (holder is_marking s.place l)) e
        ∙ ap (λ b. one_if s.opened + one_if b) (sym (holder_self is_marking i checking s.place)))
      (ap (λ b. s.hooks + one_if b) (holder_self is_hooking i checking s.place)
        ∙ sym (ap (λ l. s.hooks + one_if (holder is_hooking s.place l)) e)
        ∙ h.hooks_eq)
      h
