-- ===== src/Metrics/Registry/Order.antt =====
-- The order of strings and the sorting of names in internal/metrics/metrics.go.
use mathlib.Core.List.Permᴰ as Permᴰ
use mathlib.Core.List.{Permᴰ}
use device_handler.Prelude.{
  ◌≡◌, refl, ap, ◌∙◌, true, false, inl, inr, List, [], ◌∷◌, arith, All, Bool-cases,
}
use device_handler.Text.{Text}
use device_handler.Metrics.Registry.{text_leb, insert_name, sort}

text_leb_total : (s t : Text) → text_leb s t ≡ false → text_leb t s ≡ true
unfolding text_leb
text_leb_total [] t h = cc
text_leb_total (a ∷ s) [] h = refl
text_leb_total (a ∷ s) (b ∷ t) h = ground (arith, text_leb_total s t)

text_leb_antisym : (s t : Text) → text_leb s t ≡ true → text_leb t s ≡ true → s ≡ t
unfolding text_leb
text_leb_antisym [] [] h k = refl
text_leb_antisym [] (b ∷ t) h k = cc
text_leb_antisym (a ∷ s) [] h k = cc
text_leb_antisym (a ∷ s) (b ∷ t) h k = ground (arith, text_leb_antisym s t)

text_leb_trans : (s t v : Text) → text_leb s t ≡ true → text_leb t v ≡ true → text_leb s v ≡ true
unfolding text_leb
text_leb_trans [] t v h k = refl
text_leb_trans (a ∷ s) [] v h k = cc
text_leb_trans (a ∷ s) (b ∷ t) [] h k = cc
text_leb_trans (a ∷ s) (b ∷ t) (c ∷ v) h k = ground (arith, text_leb_trans s t v)

insert_name_comm :
    (x y : Text) (l : List Text) → insert_name x (insert_name y l) ≡ insert_name y (insert_name x l)
unfolding insert_name
insert_name_comm x y [] = ground (arith, text_leb_total x y, text_leb_antisym x y)
insert_name_comm x y (a ∷ l) = ground (
  arith,
  insert_name_comm x y l,
  text_leb_total x y,
  text_leb_antisym x y,
  text_leb_trans x y a,
  text_leb_trans y x a,
  text_leb_total x a,
  text_leb_total y a,
  text_leb_trans x a y,
  text_leb_trans y a x,
)

pub sort-Permᴰ-eq : {xs ys : List Text} → Permᴰ xs ys → sort xs ≡ sort ys
unfolding sort
sort-Permᴰ-eq Permᴰ.nil = refl
sort-Permᴰ-eq (Permᴰ.cons {a = a} {b = b} e p) = rw e (ap (insert_name b) (sort-Permᴰ-eq p))
sort-Permᴰ-eq (Permᴰ.swap {a = a} {b = b} {a' = a'} {b' = b'} {l = l} e h) =
    rw (e, h) (insert_name_comm b' a' (sort l))
sort-Permᴰ-eq (Permᴰ.trans p q) = sort-Permᴰ-eq p ∙ sort-Permᴰ-eq q

insert_name-Permᴰ : (x : Text) (l : List Text) → Permᴰ (insert_name x l) (x ∷ l)
unfolding insert_name
insert_name-Permᴰ x [] = Permᴰ.refl _
insert_name-Permᴰ x (y ∷ ys) = elim (Bool-cases (text_leb x y)) [
  | inl e ↦ rw e (Permᴰ.refl _)
  | inr e ↦ rw e (Permᴰ.trans (Permᴰ.cons refl (insert_name-Permᴰ x ys)) (Permᴰ.swap refl refl))
]

pub sort-Permᴰ : (xs : List Text) → Permᴰ (sort xs) xs
unfolding sort
sort-Permᴰ [] = Permᴰ.nil
sort-Permᴰ (x ∷ xs) = Permᴰ.trans (insert_name-Permᴰ x (sort xs)) (Permᴰ.cons refl (sort-Permᴰ xs))

-- Each text is at most those behind it.
abbrev pub IsSorted : List Text → Type 0
IsSorted [] = Unit
IsSorted (x ∷ xs) = All (λ y. text_leb x y ≡ true) xs × IsSorted xs

All-insert_name :
    (P : Text → Type 0) (x : Text) (l : List Text) → P x → All P l → All P (insert_name x l)
unfolding insert_name
All-insert_name P x [] p h = (p, tt)
All-insert_name P x (y ∷ ys) p h = elim (Bool-cases (text_leb x y)) [
  | inl e ↦ rw e (p, h)
  | inr e ↦ rw e (h.0, All-insert_name P x ys p h.1)
]

All-le :
    (x y : Text) (l : List Text)
    → text_leb x y ≡ true
    → All (λ z. text_leb y z ≡ true) l
    → All (λ z. text_leb x z ≡ true) l
All-le x y [] e h = tt
All-le x y (z ∷ l) e h = (text_leb_trans x y z e h.0, All-le x y l e h.1)

insert_name-IsSorted : (x : Text) (l : List Text) → IsSorted l → IsSorted (insert_name x l)
unfolding insert_name
insert_name-IsSorted x [] h = (tt, tt)
insert_name-IsSorted x (y ∷ ys) h = elim (Bool-cases (text_leb x y)) [
  | inl e ↦ rw e ((e, All-le x y ys e h.0), h)
  | inr e ↦ rw e (All-insert_name _ x ys (text_leb_total x y e) h.0, insert_name-IsSorted x ys h.1)
]

pub sort-IsSorted : (xs : List Text) → IsSorted (sort xs)
unfolding sort
sort-IsSorted [] = tt
sort-IsSorted (x ∷ xs) = insert_name-IsSorted x (sort xs) (sort-IsSorted xs)
