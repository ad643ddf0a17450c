-- ===== src/Metrics/Registry.antt =====
-- internal/metrics/metrics.go: the registry and its rendering. A pointer to a counter or a gauge is
-- the function that reads it from the metrics of internal/metrics/app_metrics.go.
pub mod Order
pub mod Rendering
use device_handler.Prelude.{
  ℕ, Bool, true, false, ◌&&◌, ◌||◌, Option, none, some, List, [], ◌∷◌, ◌++◌, ltb, ◌==◌,
  if◌then◌else◌,
}
use device_handler.Time.{ℤ, pos}
use device_handler.Text.{Text, codes}
use device_handler.Dict.{Dict, insert, lookup}
use device_handler.Comet.{format_int}
use device_handler.Metrics.{AppMetrics}

-- The two implementations of the interface metric.
pub data Metric : Type 0 where
  counter : (name help : Text) (value : AppMetrics → ℕ) → Metric
  gauge : (name help : Text) (value : AppMetrics → ℤ) → Metric

abbrev pub name : Metric → Text
name (counter n help value) = n
name (gauge n help value) = n

abbrev pub type : Metric → Text
type (counter n help value) = codes "counter"
type (gauge n help value) = codes "gauge"

abbrev pub help : Metric → Text
help (counter n h value) = h
help (gauge n h value) = h

-- ValueString; a uint64 has at most 20 digits too.
unfoldable pub value_string : Metric → AppMetrics → Text
unfolding format_int
value_string (counter n help value) m = format_int (pos (value m))
value_string (gauge n help value) m = format_int (value m)

pub record Registry : Type 0 where
  pub metrics : Dict Metric

abbrev pub new_registry : Registry
new_registry = record { metrics = [] }

unfoldable pub register : Metric → Registry → Registry
unfolding insert
register m r = record { metrics = insert (name m) m r.metrics }

abbrev pub new_counter : Text → Text → (AppMetrics → ℕ) → Registry → Registry
new_counter n help value r = register (counter n help value) r

abbrev pub new_gauge : Text → Text → (AppMetrics → ℤ) → Registry → Registry
new_gauge n help value r = register (gauge n help value) r

-- The order of strings; that of the bytes of UTF-8 is that of the code points.
unfoldable pub text_leb : Text → Text → Bool
text_leb [] t = true
text_leb (a ∷ s) [] = false
text_leb (a ∷ s) (b ∷ t) = ltb a b || (a == b && text_leb s t)

-- slices.Sort
unfoldable pub insert_name : Text → List Text → List Text
unfolding text_leb
insert_name x [] = x ∷ []
insert_name x (y ∷ ys) =
    let rest = insert_name x ys in if text_leb x y then x ∷ y ∷ ys else y ∷ rest

unfoldable pub sort : List Text → List Text
unfolding insert_name
sort [] = []
sort (x ∷ xs) = insert_name x (sort xs)

abbrev pub names : Dict Metric → List Text
names [] = []
names ((k, m) ∷ ms) = k ∷ names ms

-- The metrics under the names; a name without a metric is a nil pointer, and none.
abbrev pub found : Option Metric → Option (List Metric) → Option (List Metric)
found (some m) (some ms) = some (m ∷ ms)
found _ _ = none

unfoldable pub ordered : Dict Metric → List Text → Option (List Metric)
unfolding lookup
ordered ms [] = some []
ordered ms (n ∷ ns) = found (lookup n ms) (ordered ms ns)

abbrev pub newline : Text
newline = codes "\n"

unfoldable pub block : AppMetrics → Metric → Text
unfolding value_string
block values m =
    codes "# HELP "
    ++ (name m
        ++ (codes " "
            ++ (help m
                ++ (newline
                    ++ (codes "# TYPE "
                        ++ (name m
                            ++ (codes " "
                                ++ (type m
                                    ++ (newline
                                        ++ (name m
                                            ++ (codes " "
                                                ++ (value_string m values ++ newline))))))))))))

unfoldable pub blocks : AppMetrics → List Metric → Text
unfolding block
blocks values [] = []
blocks values (m ∷ ms) = block values m ++ blocks values ms

abbrev pub written : AppMetrics → Option (List Metric) → Option Text
written values none = none
written values (some ms) = some (blocks values ms)

-- none is a panic.
unfoldable pub render_prometheus : Registry → AppMetrics → Option Text
unfolding sort ordered blocks
render_prometheus r values = written values (ordered r.metrics (sort (names r.metrics)))
