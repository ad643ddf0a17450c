-- ===== src/Metrics/Registry/Rendering.antt =====
-- What RenderPrometheus of internal/metrics/metrics.go writes, and that the order in which the map
-- is read does not matter.
use mathlib.Core.List.Permᴰ as Permᴰ
use mathlib.Core.List.{Permᴰ}
use device_handler.Prelude.{
  ◌≡◌, refl, ap, ◌∙◌, sym, false, Option, none, some, List, [], ◌∷◌, map, arith, All, subst,
}
use device_handler.Text.{Text, equal}
use device_handler.Text.Normal.{equal_iff, equal_refl, equal_comm}
use device_handler.Dict.{Dict, lookup, IsKeyed, insert-IsKeyed, lookup-IsKeyed, values}
use device_handler.Metrics.{AppMetrics}
use device_handler.Metrics.Registry.{
  Metric, name, Registry, new_registry, register, sort, names, found, ordered, blocks, written,
  render_prometheus,
}
use device_handler.Metrics.App.{register_metrics}
use device_handler.Metrics.Registry.Order.{sort-Permᴰ-eq, sort-Permᴰ, IsSorted, sort-IsSorted}

-- Inversion of `found`.
found-eq-some :
    (o : Option Metric) (os : Option (List Metric)) (ms : List Metric)
    → found o os ≡ some ms
    → (x : Metric) × (xs : List Metric) × (o ≡ some x) × (os ≡ some xs) × (x ∷ xs ≡ ms)
found-eq-some (some x) (some xs) ms h = (x, xs, refl, refl, cc)
found-eq-some (some x) none ms h = cc
found-eq-some none os ms h = cc

-- The metrics under rearranged names are rearranged.
ordered-Permᴰ :
    (m : Dict Metric) {ns ns' : List Text} (ms : List Metric)
    → Permᴰ ns ns'
    → ordered m ns ≡ some ms
    → (ms' : List Metric) × (ordered m ns' ≡ some ms') × Permᴰ ms' ms
unfolding ordered
ordered-Permᴰ m ms Permᴰ.nil h = (ms, h, Permᴰ.refl ms)
ordered-Permᴰ m ms (Permᴰ.cons {a = a} {b = b} e p) h =
    let (x, xs, hx, hxs, same) = found-eq-some _ _ ms h in
    let (ys, hys, q) = ordered-Permᴰ m xs p hxs in
    (x ∷ ys, rw⁻¹ e (rw (hx, hys) refl), rw⁻¹ same (Permᴰ.cons refl q))
ordered-Permᴰ m ms (Permᴰ.swap {a = a} {b = b} {a' = a'} {b' = b'} {l = l} e g) h =
    let (x, xs, hx, hxs, same) = found-eq-some _ _ ms h in
    let (y, ys, hy, hys, same') = found-eq-some _ _ xs hxs in
    (y ∷ x ∷ ys, rw⁻¹ (e, g) (rw (hy, hx, hys) refl), rw⁻¹ same (rw⁻¹ same' (Permᴰ.swap refl refl)))
ordered-Permᴰ m ms (Permᴰ.trans p q) h =
    let (xs, hxs, r) = ordered-Permᴰ m ms p h in
    let (ys, hys, t) = ordered-Permᴰ m xs q hxs in (ys, hys, Permᴰ.trans t r)

-- The metrics under the names have these names.
ordered-names :
    (m : Dict Metric) (ns : List Text) (ms : List Metric)
    → IsKeyed name m
    → ordered m ns ≡ some ms
    → map name ms ≡ ns
unfolding ordered
ordered-names m [] [] k h = refl
ordered-names m [] (x ∷ ms) k h = cc
ordered-names m (n ∷ ns) ms k h =
    let (x, xs, hx, hxs, same) = found-eq-some _ _ ms h in
    rw⁻¹ same (rw (lookup-IsKeyed name n m k hx, ordered-names m ns xs k hxs) refl)

fresh : (k : Text) (m : Dict Metric) → lookup k m ≡ none → All (λ n. equal k n ≡ false) (names m)
unfolding lookup
fresh k [] h = tt
fresh k ((j, v) ∷ m) h =
    (ground (arith, equal_comm k j), fresh k m (ground (arith, equal_comm k j)))

ordered-fresh :
    (k : Text) (v : Metric) (m : Dict Metric) (ns : List Text)
    → All (λ n. equal k n ≡ false) ns
    → ordered ((k, v) ∷ m) ns ≡ ordered m ns
unfolding ordered lookup
ordered-fresh k v m [] h = refl
ordered-fresh k v m (n ∷ ns) h = rw (h.0) (ap (found (lookup n m)) (ordered-fresh k v m ns h.1))

-- All names together have all the metrics.
ordered_all : (m : Dict Metric) → IsKeyed name m → ordered m (names m) ≡ some (values m)
unfolding ordered lookup
ordered_all [] k = refl
ordered_all ((j, v) ∷ m) k =
    rw (equal_refl j)
      (ap (found (some v)) (ordered-fresh j v m (names m) (fresh j m k.1) ∙ ordered_all m k.2))

-- The same map, read in another order.
abbrev IsSameMap : Dict Metric → Dict Metric → Type 0
IsSameMap m m' = IsKeyed name m' × ((k : Text) → lookup k m ≡ lookup k m')

IsSameMap-Permᴰ : {m m' : Dict Metric} → Permᴰ m m' → IsKeyed name m → IsSameMap m m'
unfolding lookup
IsSameMap-Permᴰ Permᴰ.nil h = (tt, λ k. refl)
IsSameMap-Permᴰ (Permᴰ.cons {a = a} {b = (j, v)} {l₁ = l₁} {l₂ = l₂} e p) h =
    let g : IsKeyed name ((j, v) ∷ l₁) = subst (λ x. IsKeyed name (x ∷ l₁)) e h in
    let (keyed, same) = IsSameMap-Permᴰ p g.2 in
    ((g.0, sym (same j) ∙ g.1, keyed), rw e (λ k. ground (arith, same k)))
IsSameMap-Permᴰ (Permᴰ.swap {a = a} {b = b} {a' = (i, v)} {b' = (j, w)} {l = l} e g) h =
    let k : IsKeyed name ((j, w) ∷ (i, v) ∷ l) =
      subst (λ x. IsKeyed name (x ∷ (i, v) ∷ l)) e (subst (λ x. IsKeyed name (a ∷ x ∷ l)) g h) in
    (
      (
        k.2.0,
        ground (arith, equal_comm i j, equal_iff i j, k),
        (k.0, ground (arith, equal_comm i j, k), k.2.2),
      ),
      rw (e, g)
          (λ n. ground (arith, equal_comm i j, equal_iff i n, equal_iff j n, equal_iff i j, k)),
    )
IsSameMap-Permᴰ (Permᴰ.trans p q) h =
    let (keyed, same) = IsSameMap-Permᴰ p h in
    let (keyed', same') = IsSameMap-Permᴰ q keyed in (keyed', λ k. same k ∙ same' k)

names-Permᴰ : {m m' : Dict Metric} → Permᴰ m m' → Permᴰ (names m) (names m')
names-Permᴰ Permᴰ.nil = Permᴰ.nil
names-Permᴰ (Permᴰ.cons {a = (i, v)} {b = (j, w)} e p) =
    Permᴰ.cons (ap (λ x. x.0) e) (names-Permᴰ p)
names-Permᴰ (Permᴰ.swap {a = (i, v)} {b = (j, w)} {a' = (i', v')} {b' = (j', w')} e g) =
    Permᴰ.swap (ap (λ x. x.0) e) (ap (λ x. x.0) g)
names-Permᴰ (Permᴰ.trans p q) = Permᴰ.trans (names-Permᴰ p) (names-Permᴰ q)

ordered-lookup :
    (m m' : Dict Metric) (ns : List Text)
    → ((k : Text) → lookup k m ≡ lookup k m')
    → ordered m ns ≡ ordered m' ns
unfolding ordered
ordered-lookup m m' [] h = refl
ordered-lookup m m' (n ∷ ns) h = rw (h n, ordered-lookup m m' ns h) refl

rendered :
    (r r' : Registry) (m : AppMetrics)
    → IsKeyed name r.metrics
    → Permᴰ r.metrics r'.metrics
    → (ms : List Metric) × Permᴰ ms (values r.metrics)
      × IsSorted (map name ms)
      × (render_prometheus r m ≡ some (blocks m ms))
      × (render_prometheus r' m ≡ some (blocks m ms))
unfolding render_prometheus
rendered r r' m keyed p =
    let (ms, found_all, q) =
      ordered-Permᴰ r.metrics (values r.metrics) (Permᴰ.symm (sort-Permᴰ (names r.metrics)))
        (ordered_all r.metrics keyed) in
    let (keyed', same) = IsSameMap-Permᴰ p keyed in
    let other : ordered r'.metrics (sort (names r'.metrics)) ≡ some ms =
      ap (ordered r'.metrics) (sym (sort-Permᴰ-eq (names-Permᴰ p)))
      ∙ sym (ordered-lookup r.metrics r'.metrics (sort (names r.metrics)) same)
      ∙ found_all in
    (
      ms,
      q,
      rw (ordered-names r.metrics _ ms keyed found_all) (sort-IsSorted (names r.metrics)),
      ap (written m) found_all,
      ap (written m) other,
    )

register_metrics-IsKeyed :
    (ms : List Metric) (r : Registry)
    → IsKeyed name r.metrics
    → IsKeyed name (register_metrics ms r).metrics
unfolding register_metrics register
register_metrics-IsKeyed [] r h = h
register_metrics-IsKeyed (m ∷ ms) r h =
    register_metrics-IsKeyed ms (register m r) (insert-IsKeyed name (name m) m r.metrics refl h)

-- Whatever metrics are registered, RenderPrometheus does not panic, and writes the blocks of the
-- metrics in the registry, each once and in the order of the names; and in whatever other order it
-- reads the map, it writes the same.
pub render_prometheus-Renders :
    (registered : List Metric) (r' : Registry) (m : AppMetrics)
    → Permᴰ (register_metrics registered new_registry).metrics r'.metrics
    → (ms : List Metric) × Permᴰ ms (values (register_metrics registered new_registry).metrics)
      × IsSorted (map name ms)
      × (render_prometheus (register_metrics registered new_registry) m ≡ some (blocks m ms))
      × (render_prometheus r' m ≡ some (blocks m ms))
render_prometheus-Renders registered r' m p =
    rendered (register_metrics registered new_registry) r' m
      (register_metrics-IsKeyed registered new_registry tt) p
