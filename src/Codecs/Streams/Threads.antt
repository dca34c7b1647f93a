-- ===== src/Codecs/Streams/Threads.antt =====
-- The codecs and streams of `CudaBytesBytesCodec` in src/czarr/codecs/base.py, over the calls of several
-- threads: no two threads use one nvCOMP codec, and a thread's stream stays the same.
use czarr.Prelude.{
  ℕ, ◌<◌, ◌≡◌, ◌≢◌, refl, sym, ap, ◌∙◌, ◌⊎◌, inl, inr, Bool, true, false, Option, none, some, List,
  ◌==◌, ==_iff, if◌then◌else◌, done, >>=-eq-done, arith,
}
use czarr.Prelude.Int.{ℤ}
use czarr.Codecs.Metadata.{Field}
use czarr.Codecs.Metadata.Names.{NvcompClass}
use czarr.Codecs.Streams.{
  Stream, resolve_stream, NvcompModule, CodecObject, Slots, Locals, add_codec, set_handle,
  create_codec, codec_or, get_codec, explicit_or, handle_or, get_stream,
}

module _ (nvcomp : NvcompModule) (cls : NvcompClass) (self : List Field)
    (cuda_stream : Stream) where
  -- One call in the thread t. A call of `get_stream` whose probe raises leaves what `get_codec` left.
  pub data Step : Locals nvcomp → Locals nvcomp → Type 0 where
    codec_step :
        (t : ℕ) (s s' : Locals nvcomp) (c : CodecObject nvcomp)
        → get_codec nvcomp cls self cuda_stream t s ≡ done (s', c)
        → Step s s'
    stream_step :
        (t : ℕ) (s s' : Locals nvcomp) (h : ℤ)
        → get_stream nvcomp cls self cuda_stream t s ≡ done (s', h)
        → Step s s'

  pub data Reach : Locals nvcomp → Locals nvcomp → Type 0 where
    stay : (s : Locals nvcomp) → Reach s s
    call : (s s' s'' : Locals nvcomp) → Reach s s' → Step s' s'' → Reach s s''

  -- No codec and no handle yet.
  abbrev pub fresh : Locals nvcomp
  fresh = record { slots = λ t. record { codec = none; stream_handle = none }; created = 0 }

  abbrev codec_at : Locals nvcomp → ℕ → Option (CodecObject nvcomp)
  codec_at s t = (s.slots t).codec

  -- Codecs have numbers below the count, and threads that have the same codec are the same.
  record IsUnshared (s : Locals nvcomp) : Type 0 where
    numbered : (t : ℕ) (c : CodecObject nvcomp) → codec_at s t ≡ some c → c.number < s.created
    unshared :
        (t u : ℕ) (c d : CodecObject nvcomp)
        → codec_at s t ≡ some c
        → codec_at s u ≡ some d
        → c.number ≡ d.number
        → t ≡ u

  fresh-IsUnshared : IsUnshared fresh
  fresh-IsUnshared = record { numbered = λ t c h. cc; unshared = λ t u c d ht hu e. cc }

  -- The codec in a slot that may have been replaced.
  codec-if :
      (b : Bool) (new old : Slots nvcomp) (c : CodecObject nvcomp)
      → (if b then new else old).codec ≡ some c
      → (b ≡ true) × (new.codec ≡ some c) ⊎ old.codec ≡ some c
  codec-if true new old c h = inl (refl, h)
  codec-if false new old c h = inr h

  some_eq : (c d : CodecObject nvcomp) → Option.some c ≡ some d → c ≡ d
  some_eq c d h = cc

  add_codec-at :
      (t : ℕ) (native : nvcomp.Native) (s : Locals nvcomp) (u : ℕ) (c : CodecObject nvcomp)
      → codec_at (add_codec nvcomp t native s) u ≡ some c
      → (t ≡ u) × (c.number ≡ s.created) ⊎ codec_at s u ≡ some c
  add_codec-at t native s u c h =
      let new : CodecObject nvcomp = record { number = s.created; native = native } in
      elim (codec-if (t == u)
        (record { codec = some new; stream_handle = (s.slots t).stream_handle }) (s.slots u) c h) [
          | inl at ↦ inl ((==_iff t u).0 at.0, ap (λ x. x.number) (sym (some_eq new c at.1)))
          | inr old ↦ inr old
        ]

  add_codec-IsUnshared :
      (t : ℕ) (native : nvcomp.Native) (s : Locals nvcomp)
      → IsUnshared s
      → IsUnshared (add_codec nvcomp t native s)
  add_codec-IsUnshared t native s inv = record {
    numbered = λ u c h. elim (add_codec-at t native s u c h) [
      | inl new ↦ let e = new.1 in omega arith
      | inr old ↦ let lt = inv.numbered u c old in omega arith
    ];
    unshared = λ u v c d hu hv e. elim (add_codec-at t native s u c hu) [
      | inl a ↦ elim (add_codec-at t native s v d hv) [
        | inl b ↦ sym a.0 ∙ b.0
        | inr old ↦ let lt = inv.numbered v d old in let n = a.1 in absurd (omega arith)
      ]
      | inr old ↦ elim (add_codec-at t native s v d hv) [
        | inl b ↦ let lt = inv.numbered u c old in let n = b.1 in absurd (omega arith)
        | inr other ↦ inv.unshared u v c d old other e
      ]
    ];
  }

  same_codec :
      (b : Bool) (t u : ℕ) (h : ℤ) (s : Locals nvcomp)
      → (t == u) ≡ b
      → (if b
          then record { codec = (s.slots t).codec; stream_handle = some h }
          else s.slots u).codec
        ≡ (s.slots u).codec
  same_codec true t u h s e = ap (codec_at s) ((==_iff t u).0 e)
  same_codec false t u h s e = refl

  set_handle-IsUnshared :
      (t : ℕ) (h : ℤ) (s : Locals nvcomp) → IsUnshared s → IsUnshared (set_handle nvcomp t h s)
  set_handle-IsUnshared t h s inv = record {
    numbered = λ u c e. inv.numbered u c (sym (same_codec (t == u) t u h s refl) ∙ e);
    unshared = λ u v c d hu hv e.
        inv.unshared u v c d (sym (same_codec (t == u) t u h s refl) ∙ hu)
          (sym (same_codec (t == v) t v h s refl) ∙ hv) e;
  }

  -- `_get_codec` keeps the codecs unshared, and gives the thread's own.
  codec_or-IsUnshared :
      (o : Option (CodecObject nvcomp)) (t : ℕ) (s s' : Locals nvcomp) (c : CodecObject nvcomp)
      → codec_or nvcomp cls self cuda_stream o t s ≡ done (s', c)
      → IsUnshared s
      → IsUnshared s'
  codec_or-IsUnshared (some old) t s s' c h inv = let e : s ≡ s' = cc in rw (sym e) inv
  codec_or-IsUnshared none t s s' c h inv =
      let made = >>=-eq-done {w = (s', c)} (create_codec nvcomp cls self cuda_stream) _ h in
      let h' = made.2 in
      let e : add_codec nvcomp t made.0 s ≡ s' = cc in
      rw (sym e) (add_codec-IsUnshared t made.0 s inv)

  explicit_or-IsUnshared :
      (o : Option ℤ) (t : ℕ) (s s' : Locals nvcomp) (h : ℤ)
      → explicit_or nvcomp cls self cuda_stream o t s ≡ done (s', h)
      → IsUnshared s
      → IsUnshared s'
  unfolding get_codec
  explicit_or-IsUnshared (some x) t s s' h e inv =
      let e' : set_handle nvcomp t x s ≡ s' = cc in rw (sym e') (set_handle-IsUnshared t x s inv)
  explicit_or-IsUnshared none t s s' h e inv =
      let got = >>=-eq-done {w = (s', h)} (get_codec nvcomp cls self cuda_stream t s) _ e in
      let probed = >>=-eq-done {w = (s', h)} (nvcomp.probe got.0.1.native) _ got.2 in
      let last = probed.2 in
      let e' : set_handle nvcomp t probed.0 got.0.0 ≡ s' = cc in
      let inner = codec_or-IsUnshared (codec_at s t) t s got.0.0 got.0.1 got.1 inv in
      rw (sym e') (set_handle-IsUnshared t probed.0 got.0.0 inner)

  handle_or-IsUnshared :
      (o : Option ℤ) (t : ℕ) (s s' : Locals nvcomp) (h : ℤ)
      → handle_or nvcomp cls self cuda_stream o t s ≡ done (s', h)
      → IsUnshared s
      → IsUnshared s'
  handle_or-IsUnshared (some x) t s s' h e inv = let e' : s ≡ s' = cc in rw (sym e') inv
  handle_or-IsUnshared none t s s' h e inv =
      let r = >>=-eq-done {w = (s', h)} (resolve_stream cuda_stream) _ e in
      explicit_or-IsUnshared r.0 t s s' h r.2 inv

  Step-IsUnshared : (s s' : Locals nvcomp) → Step s s' → IsUnshared s → IsUnshared s'
  unfolding get_codec get_stream
  Step-IsUnshared s s' (codec_step t _ _ c e) inv =
      codec_or-IsUnshared (codec_at s t) t s s' c e inv
  Step-IsUnshared s s' (stream_step t _ _ h e) inv =
      handle_or-IsUnshared ((s.slots t).stream_handle) t s s' h e inv

  Reach-IsUnshared : (s s' : Locals nvcomp) → Reach s s' → IsUnshared s → IsUnshared s'
  Reach-IsUnshared s _ (stay _) inv = inv
  Reach-IsUnshared s s'' (call _ s' _ r step) inv =
      Step-IsUnshared s' s'' step (Reach-IsUnshared s s' r inv)

  -- After any calls of `_get_codec` and `get_stream` in any threads, two threads never hold the same
  -- nvCOMP codec.
  pub Reach-unshared :
      (s : Locals nvcomp) (t u : ℕ) (c d : CodecObject nvcomp)
      → Reach fresh s
      → t ≢ u
      → (s.slots t).codec ≡ some c
      → (s.slots u).codec ≡ some d
      → c.number ≢ d.number
  Reach-unshared s t u c d r other hc hd e =
      other ((Reach-IsUnshared fresh s r fresh-IsUnshared).unshared t u c d hc hd e)

  handle_stored :
      (t : ℕ) (h : ℤ) (s : Locals nvcomp)
      → get_stream nvcomp cls self cuda_stream t (set_handle nvcomp t h s)
        ≡ done (set_handle nvcomp t h s, h)
  unfolding get_stream
  handle_stored t h s = let e : (t == t) ≡ true = (==_iff t t).1 refl in rw e refl

  explicit_or-stored :
      (o : Option ℤ) (t : ℕ) (s s' : Locals nvcomp) (h : ℤ)
      → explicit_or nvcomp cls self cuda_stream o t s ≡ done (s', h)
      → (r : Locals nvcomp) × (set_handle nvcomp t h r ≡ s')
  explicit_or-stored (some x) t s s' h e =
      let same : x ≡ h = cc in
      let stored : set_handle nvcomp t x s ≡ s' = cc in (s, rw (sym same) stored)
  explicit_or-stored none t s s' h e =
      let got = >>=-eq-done {w = (s', h)} (get_codec nvcomp cls self cuda_stream t s) _ e in
      let probed = >>=-eq-done {w = (s', h)} (nvcomp.probe got.0.1.native) _ got.2 in
      let last = probed.2 in
      let same : probed.0 ≡ h = cc in
      let stored : set_handle nvcomp t probed.0 got.0.0 ≡ s' = cc in (got.0.0, rw (sym same) stored)

  handle_or-again :
      (o : Option ℤ) (t : ℕ) (s s' : Locals nvcomp) (h : ℤ)
      → (s.slots t).stream_handle ≡ o
      → handle_or nvcomp cls self cuda_stream o t s ≡ done (s', h)
      → get_stream nvcomp cls self cuda_stream t s' ≡ done (s', h)
  handle_or-again (some x) t s s' h at e =
      let same : s ≡ s' = cc in
      let value : x ≡ h = cc in rw (sym same, sym value) (unfold get_stream in rw at refl)
  handle_or-again none t s s' h at e =
      let r = >>=-eq-done {w = (s', h)} (resolve_stream cuda_stream) _ e in
      let stored = explicit_or-stored r.0 t s s' h r.2 in
      rw (sym stored.1) (handle_stored t h stored.0)

  -- A thread that asks for its stream again gets the same handle, and nothing changes.
  pub get_stream-again :
      (t : ℕ) (s s' : Locals nvcomp) (h : ℤ)
      → get_stream nvcomp cls self cuda_stream t s ≡ done (s', h)
      → get_stream nvcomp cls self cuda_stream t s' ≡ done (s', h)
  unfolding get_stream
  get_stream-again t s s' h e = handle_or-again ((s.slots t).stream_handle) t s s' h refl e
