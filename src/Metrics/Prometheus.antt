-- ===== src/Metrics/Prometheus.antt =====
-- connections/prometheus-connector.ts: what is read of the answer to a range query. Numbers of the
-- answer are natural numbers, as everywhere in `Json`.
use metricops_backend.Common.{
  ℕ, ◌+◌, String, Bool, false, ◌&&◌, ◌||◌, List, [], ◌∷◌, Option, none, some, ltb, leb, ◌==◌,
  nat_eq, string_eq, if◌then◌else◌, length, all, codes, utf16,
}
use metricops_backend.Common.Patterns.{is_letter, is_alphanumeric}
use metricops_backend.Json.{Json, num, str, arr, obj, Items, nil, cons, Fields, end, field}
use metricops_backend.Domain.Errors.{plain_error}
use metricops_backend.Effects.{Result, ok, thrown, bind_result}

pub record MetricSample : Type 0 where
  pub timestamp : ℕ
  pub value : String

pub record MetricSeries : Type 0 where
  pub labels : List (String × String)
  pub values : List MetricSample

abbrev pub property : String → Fields → Option Json
property key end = none
property key (field k v rest) = if k == key then some v else property key rest

-- an object's members; an array is an object that has none of the names asked for
abbrev pub members_of : Option Json → Option Fields
members_of (some (obj fields)) = some fields
members_of (some (arr items)) = some end
members_of _ = none

abbrev pub is_text : String → Option Json → Bool
is_text word (some (str s)) = s == word
is_text word _ = false

abbrev pub items_in : Option Json → Option Items
items_in (some (arr items)) = some items
items_in _ = none

unfoldable pub count_items : Items → ℕ
count_items nil = 0
count_items (cons item rest) = 1 + count_items rest

abbrev shape_invalid : {A : Type 0} → Result A
shape_invalid = thrown (plain_error "Prometheus response shape is invalid")

abbrev not_successful : {A : Type 0} → Result A
not_successful = thrown (plain_error "Prometheus query was not successful")

abbrev wrong_type : {A : Type 0} → Result A
wrong_type = thrown (plain_error "Prometheus result exceeds the series limit or has the wrong type")

abbrev series_invalid : {A : Type 0} → Result A
series_invalid = thrown (plain_error "Prometheus series is invalid")

abbrev label_invalid : {A : Type 0} → Result A
label_invalid = thrown (plain_error "Prometheus label is invalid")

abbrev samples_invalid : {A : Type 0} → Result A
samples_invalid = thrown (plain_error "Prometheus samples exceed limits or are invalid")

abbrev is_label_head : ℕ → Bool
is_label_head c = is_letter c || c == 95

abbrev is_label_part : ℕ → Bool
is_label_part c = is_alphanumeric c || c == 95

unfoldable pub is_label_name : List ℕ → Bool
is_label_name [] = false
is_label_name (c ∷ cs) = is_label_head c && all is_label_part cs

-- at most so many code units
abbrev pub is_short : ℕ → String → Bool
is_short bound s = leb (length (utf16 s)) bound

abbrev pub label_value : Json → Option String
label_value (str s) = if is_short 500 s then some s else none
label_value _ = none

unfoldable pub read_label : String → Json → Result (String × String)
read_label key value = elim (label_value value) [
  | none ↦ label_invalid
  | some s ↦ if is_label_name (codes key) then ok (key, s) else label_invalid
]

unfoldable pub read_labels : Fields → Result (List (String × String))
read_labels end = ok []
read_labels (field key value rest) =
    bind_result (read_label key value)
      (λ label. bind_result (read_labels rest) (λ labels. ok (label ∷ labels)))

-- the pair of a time and a text that a sample is
abbrev pub sample_pair : Json → Option MetricSample
sample_pair (arr (cons (num t) (cons (str s) nil))) =
    if is_short 64 s then some (record { timestamp = t; value = s }) else none
sample_pair _ = none

-- one round of `values.map`; `samples` counts across all series
unfoldable pub read_sample : ℕ → Json → Result MetricSample
read_sample samples value = elim (sample_pair value) [
  | none ↦ samples_invalid
  | some sample ↦ if ltb 5000 (samples + 1) then samples_invalid else ok sample
]

unfoldable pub read_samples : ℕ → Items → Result (List MetricSample)
read_samples samples nil = ok []
read_samples samples (cons value rest) =
    bind_result (read_sample samples value)
      (λ sample. bind_result (read_samples (samples + 1) rest) (λ values. ok (sample ∷ values)))

abbrev pub object_in : Option Json → Option Fields
object_in (some (obj fields)) = some fields
object_in _ = none

unfoldable pub read_series : ℕ → Option Fields → Option Items → Result MetricSeries
read_series samples (some metric) (some values) = bind_result (read_labels metric) (λ labels.
    bind_result (read_samples samples values)
      (λ found. ok (record { labels = labels; values = found })))
read_series samples _ _ = series_invalid

abbrev pub series_of : ℕ → Option Fields → Result MetricSeries
series_of samples none = series_invalid
series_of samples (some series) =
    read_series samples (object_in (property "metric" series)) (items_in (property "values" series))

unfoldable pub read_all_series : ℕ → Items → Result (List MetricSeries)
read_all_series samples nil = ok []
read_all_series samples (cons item rest) =
    bind_result (series_of samples (members_of (some item))) (λ series.
      bind_result (read_all_series (samples + length series.values) rest)
        (λ others. ok (series ∷ others)))

abbrev pub matrix_of : Option Items → Result (List MetricSeries)
matrix_of none = wrong_type
matrix_of (some items) = if ltb 100 (count_items items) then wrong_type else read_all_series 0 items

abbrev pub result_in : Option Fields → Result (List MetricSeries)
result_in none = not_successful
result_in (some data_fields) =
    if is_text "matrix" (property "resultType" data_fields)
    then matrix_of (items_in (property "result" data_fields))
    else wrong_type

abbrev pub payload_of : Option Fields → Result (List MetricSeries)
payload_of none = shape_invalid
payload_of (some root) =
    if is_text "success" (property "status" root)
    then result_in (members_of (property "data" root))
    else not_successful

unfoldable pub normalize_prometheus_matrix : Json → Result (List MetricSeries)
normalize_prometheus_matrix payload = payload_of (members_of (some payload))
