-- ===== src/Cache/Key.antt =====
-- The cache's key: which devices share it.
use device_handler.Prelude.{
  ℕ, ◌+◌, Bool, true, false, ◌||◌, ◌≡◌, ◌↔◌, refl, sym, ap, ◌∙◌, [], ◌∷◌, ◌++◌, append_assoc, arith,
  ◌==◌, if◌then◌else◌,
}
use device_handler.Text.{Text, Unicode, is_space, keep, trim_left, trim_right, trim_space, to_lower}
use device_handler.Text.Normal.{trim_space_idem, to_lower_idem, trim_space-to_lower}
use device_handler.Dict
use device_handler.Cache.{DeviceCache, key, lookup}

-- The separator of the key stands in the text.
unfoldable pub has_bar : Text → Bool
has_bar [] = false
has_bar (c ∷ s) = c == b'|' || has_bar s

has_bar-append : (s t : Text) → has_bar (s ++ (b'|' ∷ t)) ≡ true
unfolding has_bar
has_bar-append [] t = ground arith
has_bar-append (c ∷ s) t = ground (arith, has_bar-append s t)

has_bar-keep : (c : ℕ) (s : Text) → has_bar (keep c s) ≡ has_bar (c ∷ s)
unfolding has_bar is_space
has_bar-keep c [] = ground arith
has_bar-keep c (d ∷ s) = refl

has_bar-trim_left : (s : Text) → has_bar (trim_left s) ≡ has_bar s
unfolding has_bar trim_left is_space
has_bar-trim_left [] = refl
has_bar-trim_left (c ∷ s) = ground (arith, has_bar-trim_left s)

has_bar-trim_right : (s : Text) → has_bar (trim_right s) ≡ has_bar s
unfolding has_bar trim_right
has_bar-trim_right [] = refl
has_bar-trim_right (c ∷ s) =
    has_bar-keep c (trim_right s) ∙ ap (λ b. (c == b'|') || b) (has_bar-trim_right s)

pub has_bar-trim_space : (s : Text) → has_bar (trim_space s) ≡ has_bar s
unfolding trim_space
has_bar-trim_space s = has_bar-trim_right (trim_left s) ∙ has_bar-trim_left s

-- A text is cut at its last separator in one way.
pub split_last :
    (a b s t : Text)
    → has_bar s ≡ false
    → has_bar t ≡ false
    → a ++ (b'|' ∷ s) ≡ b ++ (b'|' ∷ t)
    → (a ≡ b) × (s ≡ t)
split_last [] [] s t hs ht e = (refl, cc)
split_last [] (x ∷ b) s t hs ht e = ground (arith, has_bar-append b t)
split_last (x ∷ a) [] s t hs ht e = ground (arith, has_bar-append a s)
split_last (x ∷ a) (y ∷ b) s t hs ht e = ground (arith, split_last a b s t hs ht)

module _ ⦃u : Unicode⦄ where
  key_cut :
      (m mo s : Text)
      → key m mo s
        ≡ (to_lower (trim_space m) ++ (b'|' ∷ to_lower (trim_space mo))) ++ (b'|' ∷ trim_space s)
  unfolding key
  key_cut m mo s = sym (append_assoc (to_lower (trim_space m)) _ _)

  pub key-serial :
      (m mo s m' mo' s' : Text)
      → has_bar s ≡ false
      → has_bar s' ≡ false
      → key m mo s ≡ key m' mo' s'
      → (to_lower (trim_space m) ++ (b'|' ∷ to_lower (trim_space mo))
          ≡ to_lower (trim_space m') ++ (b'|' ∷ to_lower (trim_space mo')))
        × (trim_space s ≡ trim_space s')
  key-serial m mo s m' mo' s' h h' e =
      split_last _ _ _ _ (has_bar-trim_space s ∙ h) (has_bar-trim_space s' ∙ h')
        (sym (key_cut m mo s) ∙ e ∙ key_cut m' mo' s')

  -- Where serials and the normal forms of models hold no '|', two devices have one key exactly if
  -- their manufacturers and models agree up to case and outer white space, and their serials up to
  -- outer white space.
  pub key_iff :
      (m mo s m' mo' s' : Text)
      → has_bar s ≡ false
      → has_bar s' ≡ false
      → has_bar (to_lower (trim_space mo)) ≡ false
      → has_bar (to_lower (trim_space mo')) ≡ false
      → (key m mo s ≡ key m' mo' s') ↔ (
          (to_lower (trim_space m) ≡ to_lower (trim_space m'))
          × (to_lower (trim_space mo) ≡ to_lower (trim_space mo'))
          × (trim_space s ≡ trim_space s'))
  key_iff m mo s m' mo' s' hs hs' hm hm' = (
    λ e.
        let (front, back) = key-serial m mo s m' mo' s' hs hs' e in
        let (a, b) = split_last _ _ _ _ hm hm' front in (a, b, back),
    λ h. unfold key in cc (h.0, h.1, h.2),
  )

  -- A serial that agrees up to white space can stand for the record's own.
  pub key-replace_serial :
      (m mo s s' : Text) → trim_space s ≡ trim_space s' → key m mo s ≡ key m mo s'
  unfolding key
  key-replace_serial m mo s s' e = cc e

-- The separators in a text, counted.
abbrev pub bars : Text → ℕ
bars [] = 0
bars (c ∷ s) = (if c == b'|' then 1 else 0) + bars s

pub bars-append : (s t : Text) → bars (s ++ t) ≡ bars s + bars t
bars-append [] t = omega arith
bars-append (c ∷ s) t = omega (arith, bars-append s t)

pub bars-has_bar : (s : Text) → has_bar s ≡ false → bars s ≡ 0
unfolding has_bar
bars-has_bar [] h = refl
bars-has_bar (c ∷ s) h = ground (arith, bars-has_bar s)

pub has_bar-bars : (s : Text) → bars s ≡ 0 → has_bar s ≡ false
unfolding has_bar
has_bar-bars [] h = refl
has_bar-bars (c ∷ s) h = ground (arith, has_bar-bars s)

module _ ⦃u : Unicode⦄ where
  bars-key :
      (m mo s : Text)
      → bars (key m mo s)
        ≡ bars (to_lower (trim_space m)) + bars (to_lower (trim_space mo)) + bars (trim_space s) + 2
  unfolding key
  bars-key m mo s = omega (
    arith,
    bars-append (to_lower (trim_space m))
        (b'|' ∷ (to_lower (trim_space mo) ++ (b'|' ∷ trim_space s))),
    bars-append (to_lower (trim_space mo)) (b'|' ∷ trim_space s),
  )

  -- Where the parts of one key hold no '|', another device with that key has the same serial.
  pub key-same_serial :
      (m mo s m' mo' s' : Text)
      → has_bar (to_lower (trim_space m)) ≡ false
      → has_bar (to_lower (trim_space mo)) ≡ false
      → has_bar s ≡ false
      → key m mo s ≡ key m' mo' s'
      → trim_space s ≡ trim_space s'
  key-same_serial m mo s m' mo' s' hm hmo hs e =
      let clear : bars (trim_space s') ≡ 0 = omega (
        arith,
        bars-key m mo s,
        bars-key m' mo' s',
        ap bars e,
        bars-has_bar (to_lower (trim_space m)) hm,
        bars-has_bar (to_lower (trim_space mo)) hmo,
        bars-has_bar (trim_space s) (has_bar-trim_space s ∙ hs),
      ) in
      (key-serial m mo s m' mo' s' hs
        (sym (has_bar-trim_space s') ∙ has_bar-bars (trim_space s') clear) e).1

  -- The normal forms of the parts make the same key.
  key-normal :
      (m mo s : Text)
      → key (to_lower (trim_space m)) (to_lower (trim_space mo)) (trim_space s) ≡ key m mo s
  unfolding key
  key-normal m mo s = cc (normal m, normal mo, trim_space_idem s)
    where
      normal :
          (t : Text) → to_lower (trim_space (to_lower (trim_space t))) ≡ to_lower (trim_space t)
      normal t =
          ap to_lower (trim_space-to_lower (trim_space t))
          ∙ to_lower_idem (trim_space (trim_space t))
          ∙ ap to_lower (trim_space_idem t)

  -- A lookup by the normal forms of manufacturer, model and serial number finds what a lookup by
  -- the texts themselves finds.
  pub lookup-normal :
      (c : DeviceCache) (m mo s : Text)
      → lookup c (to_lower (trim_space m)) (to_lower (trim_space mo)) (trim_space s)
        ≡ lookup c m mo s
  unfolding lookup
  lookup-normal c m mo s = ap (λ k. Dict.lookup k c.by_key) (key-normal m mo s)
