-- ===== src/Main/Served.antt =====
-- Which devices the registry of cmd/device-handler/main.go serves.
use device_handler.Prelude.{
  ◌≡◌, ◌≢◌, ◌⊎◌, inl, inr, refl, ap, ◌∙◌, arith, Option, none, some, List, [], ◌∷◌, ◌++◌, All,
  Bool-cases, Bool, true, false, not, ◌&&◌, subst, if◌then◌else◌,
}
use device_handler.Text.{Text, Unicode, equal, to_lower, trim_space}
use device_handler.Cache.Key.{has_bar, split_last, bars, bars-append, bars-has_bar, has_bar-bars}
use device_handler.Text.Normal.{equal_iff}
use device_handler.Device.{parser_key}
use device_handler.Device.Registry.{
  Parser, Registry, new_registry, register, lookup, lookup-register,
}
use device_handler.Main.{Libraries, register_all, parsers, registry}

module _ ⦃u : Unicode⦄ {E : Type 0} where
  abbrev pub key_of : Parser E → Text
  key_of p = parser_key p.manufacturer p.model

  -- The last parser of the list under the key.
  pub record IsLast (ps : List (Parser E)) (k : Text) (p : Parser E) : Type 0 where
    pub before : List (Parser E)
    pub behind : List (Parser E)
    pub place : ps ≡ before ++ (p ∷ behind)
    pub same_key : key_of p ≡ k
    pub others : All (λ q. key_of q ≢ k) behind

  -- What a lookup finds: the last parser under the key, or none, and then there is none.
  abbrev pub IsFound : List (Parser E) → Text → Option (Parser E) → Type 0
  IsFound ps k (some p) = IsLast ps k p
  IsFound ps k none = All (λ p. key_of p ≢ k) ps

  -- The same behind a registry that was there before.
  abbrev Overlays : List (Parser E) → Text → Option (Parser E) → Option (Parser E) → Type 0
  Overlays ps k o o' =
      ((p : Parser E) × IsLast ps k p × (o' ≡ some p)) ⊎ (All (λ p. key_of p ≢ k) ps × (o' ≡ o))

  lookup-register_all :
      (ps : List (Parser E)) (r : Registry E) (manufacturer model : Text)
      → Overlays ps
          (parser_key manufacturer model)
          (lookup r manufacturer model)
          (lookup (register_all ps r) manufacturer model)
  unfolding register_all
  lookup-register_all [] r manufacturer model = inr (tt, refl)
  lookup-register_all (p ∷ ps) r manufacturer model =
      let k = parser_key manufacturer model in
      elim (lookup-register_all ps (register p r) manufacturer model) [
        | inl (q, last, e) ↦ inl (
          q,
          record {
            before = p ∷ last.before;
            behind = last.behind;
            place = ap (λ l. p ∷ l) last.place;
            same_key = last.same_key;
            others = last.others;
          },
          e,
        )
        | inr (absent, e) ↦ elim (Bool-cases (equal (key_of p) k)) [
          | inl same ↦ inl (
            p,
            record {
              before = [];
              behind = ps;
              place = refl;
              same_key = (equal_iff (key_of p) k).0 same;
              others = absent;
            },
            e
                ∙ lookup-register p r manufacturer model
                ∙ ap (λ b. if b then some p else lookup r manufacturer model) same,
          )
          | inr other ↦ inr (
            ((λ h. ground (arith, equal_iff (key_of p) k)), absent),
            e
                ∙ lookup-register p r manufacturer model
                ∙ ap (λ b. if b then some p else lookup r manufacturer model) other,
          )
        ]
      ]

  lookup-new_registry :
      (manufacturer model : Text) → lookup (new_registry {E = E}) manufacturer model ≡ none
  unfolding lookup device_handler.Dict.lookup
  lookup-new_registry manufacturer model = refl

  Overlays-IsFound :
      (ps : List (Parser E)) (k : Text) (o o' : Option (Parser E))
      → o ≡ none
      → Overlays ps k o o'
      → IsFound ps k o'
  Overlays-IsFound ps k o o' e (inl (p, last, h)) = rw h last
  Overlays-IsFound ps k o o' e (inr (absent, h)) = rw h (rw e absent)

middle {ℓ κ} : {A : Type ℓ} (P : A → Type κ) (xs ys : List A) (p : A) → All P (xs ++ (p ∷ ys)) → P p
middle P [] ys p h = h.0
middle P (x ∷ xs) ys p h = middle P xs ys p h.1

module _ ⦃u : Unicode⦄ where
  abbrev pub normal : Text → Text
  normal t = to_lower (trim_space t)

  -- Without a separator in the parts of one key, another manufacturer and model with that key have
  -- the same parts.
  parser_key-parts :
      (m k m' k' : Text)
      → has_bar (normal m) ≡ false
      → has_bar (normal k) ≡ false
      → parser_key m k ≡ parser_key m' k'
      → (normal m ≡ normal m') × (normal k ≡ normal k')
  unfolding parser_key
  parser_key-parts m k m' k' hm hk e =
      split_last _ _ _ _ hk
        (has_bar-bars (normal k') (
          omega (
            arith,
            bars-append (normal m) (b'|' ∷ normal k),
            bars-append (normal m') (b'|' ∷ normal k'),
            ap bars e,
            bars-has_bar (normal m) hm,
            bars-has_bar (normal k) hk,
          )))
        e

  -- The parser is for this manufacturer and this model, up to case and outer white space.
  pub record IsFor {E : Type 0} (manufacturer model : Text) (p : Parser E) : Type 0 where
    pub same_manufacturer : normal p.manufacturer ≡ normal manufacturer
    pub same_model : normal p.model ≡ normal model

  -- The last parser of the list for the device.
  pub record IsLastFor {E : Type 0} (ps : List (Parser E)) (manufacturer model : Text)
      (p : Parser E) : Type 0 where
    pub before : List (Parser E)
    pub behind : List (Parser E)
    pub place : ps ≡ before ++ (p ∷ behind)
    pub for_it : IsFor manufacturer model p
    pub others : All (λ q. ¬ IsFor manufacturer model q) behind

  -- The parser that serves the device, or none.
  abbrev pub Serves : {E : Type 0} → List (Parser E) → Text → Text → Option (Parser E) → Type 0
  Serves ps manufacturer model (some p) = IsLastFor ps manufacturer model p
  Serves ps manufacturer model none = All (λ p. ¬ IsFor manufacturer model p) ps

  module _ {E : Type 0} (manufacturer model : Text) where
    IsFor-key :
        (p : Parser E) → IsFor manufacturer model p → key_of p ≡ parser_key manufacturer model
    unfolding parser_key
    IsFor-key p h = cc (h.same_manufacturer, h.same_model)

    all_others :
        (ps : List (Parser E))
        → All (λ p. key_of p ≢ parser_key manufacturer model) ps
        → All (λ p. ¬ IsFor manufacturer model p) ps
    all_others [] h = tt
    all_others (p ∷ ps) h = ((λ f. h.0 (IsFor-key p f)), all_others ps h.1)

  -- No separator stands in the manufacturer or the model.
  abbrev IsPlain : {E : Type 0} → Parser E → Type 0
  IsPlain p = (has_bar (normal p.manufacturer) ≡ false) × (has_bar (normal p.model) ≡ false)

  IsFound-Serves :
      {E : Type 0} (ps : List (Parser E)) (manufacturer model : Text) (o : Option (Parser E))
      → All IsPlain ps
      → IsFound ps (parser_key manufacturer model) o
      → Serves ps manufacturer model o
  IsFound-Serves ps manufacturer model none h f = all_others manufacturer model ps f
  IsFound-Serves ps manufacturer model (some p) h f =
      let plain = middle IsPlain f.before f.behind p (subst (All IsPlain) f.place h) in
      let parts =
        parser_key-parts p.manufacturer p.model manufacturer model plain.0 plain.1 f.same_key in
      record {
        before = f.before;
        behind = f.behind;
        place = f.place;
        for_it = record { same_manufacturer = parts.0; same_model = parts.1 };
        others = all_others manufacturer model f.behind f.others;
      }

  abbrev is_plain : {E : Type 0} → Parser E → Bool
  is_plain p = not (has_bar (normal p.manufacturer)) && not (has_bar (normal p.model))

  abbrev all_plain : {E : Type 0} → List (Parser E) → Bool
  all_plain [] = true
  all_plain (p ∷ ps) = is_plain p && all_plain ps

  all_plain-IsPlain : {E : Type 0} (ps : List (Parser E)) → all_plain ps ≡ true → All IsPlain ps
  all_plain-IsPlain [] h = tt
  all_plain-IsPlain (p ∷ ps) h =
      ((ground (arith, h), ground (arith, h)), all_plain-IsPlain ps (ground (arith, h)))

  parsers-IsPlain : (libs : Libraries) → all_plain (parsers libs) ≡ true
  unfolding has_bar to_lower trim_space device_handler.Text.trim_right device_handler.Text.trim_left
      device_handler.Text.is_space device_handler.Text.rune_lower
  parsers-IsPlain libs = refl

  -- For any manufacturer and model the registry of the program has the last of its parsers whose
  -- manufacturer and model are the same, up to case and the white space around them; it has none
  -- exactly if none of its parsers has such a manufacturer and model.
  pub registry-Serves :
      (libs : Libraries) (manufacturer model : Text)
      → Serves (parsers libs) manufacturer model (lookup (registry libs) manufacturer model)
  registry-Serves libs manufacturer model =
      IsFound-Serves (parsers libs) manufacturer model _
        (all_plain-IsPlain (parsers libs) (parsers-IsPlain libs))
        (Overlays-IsFound (parsers libs) _ _ _ (lookup-new_registry manufacturer model)
          (lookup-register_all (parsers libs) new_registry manufacturer model))
