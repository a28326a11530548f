-- ===== src/Metrics/Bounds.antt =====
-- How much of an answer of the metrics backend is let in.
use metricops_backend.Common.{
  ℕ, ◌+◌, ◌≤◌, String, ◌≡◌, refl, sym, Bool, true, false, inl, inr, List, [], ◌∷◌, Option, none,
  some, ltb, nat_eq, string_eq, if◌then◌else◌, arith, length, All, codes, utf16, Bool-cases,
  Option-cases,
}
use metricops_backend.Json.{
  Json, null, bool, num, str, arr, obj, Items, nil, cons, Fields, end, field,
}
use metricops_backend.Effects.{ok, bind_result-ok, ok-injective}
use metricops_backend.Metrics.Prometheus.{
  MetricSample, MetricSeries, property, members_of, is_text, items_in, count_items, is_label_name,
  is_short, read_label, read_labels, read_sample, read_samples, read_series, read_all_series,
  normalize_prometheus_matrix, sample_pair, matrix_of, result_in, payload_of, series_of,
}

unfoldable pub total_samples : List MetricSeries → ℕ
total_samples [] = 0
total_samples (series ∷ rest) = length series.values + total_samples rest

-- labels with names of the documented form and short values, samples with short values
abbrev pub IsBounded : MetricSeries → Type 0
IsBounded series =
    All (λ label. (is_label_name (codes label.0) ≡ true) × (length (utf16 label.1) ≤ 500))
      series.labels
    × All (λ sample. length (utf16 sample.value) ≤ 64) series.values

read_label-bounded :
    (key : String) (value : Json) (label : String × String)
    → read_label key value ≡ ok label
    → (is_label_name (codes label.0) ≡ true) × (length (utf16 label.1) ≤ 500)
unfolding read_label
read_label-bounded key null label h = absurd (cc h)
read_label-bounded key (bool b) label h = absurd (cc h)
read_label-bounded key (num n) label h = absurd (cc h)
read_label-bounded key (arr items) label h = absurd (cc h)
read_label-bounded key (obj fields) label h = absurd (cc h)
read_label-bounded key (str s) label h = elim (Bool-cases (is_short 500 s)) [
  | inr long ↦ absurd (cc (rw (read_label, long) at h))
  | inl short ↦ elim (Bool-cases (is_label_name (codes key))) [
    | inr other ↦ absurd (cc (rw (read_label, short, other) at h))
    | inl name ↦
        rw (sym (ok-injective (key, s) label (rw (read_label, short, name) at h)))
          (name, ground arith)
  ]
]

read_labels-bounded :
    (fields : Fields) (labels : List (String × String))
    → read_labels fields ≡ ok labels
    → All (λ label. (is_label_name (codes label.0) ≡ true) × (length (utf16 label.1) ≤ 500)) labels
unfolding read_labels
read_labels-bounded end labels h = rw (sym (ok-injective [] labels h)) tt
read_labels-bounded (field key value rest) labels h =
    let (label, one, more) = bind_result-ok (read_label key value) _ labels h in
    let (others, tail_read, done) = bind_result-ok (read_labels rest) _ labels more in
    rw (sym (ok-injective (label ∷ others) labels done))
      (read_label-bounded key value label one, read_labels-bounded rest others tail_read)

abbrev PairShort : Option MetricSample → Type 0
PairShort none = Unit
PairShort (some sample) = length (utf16 sample.value) ≤ 64

PairShort-if :
    (b : Bool) (t : ℕ) (s : String)
    → is_short 64 s ≡ b
    → PairShort (if b then some (record { timestamp = t; value = s }) else none)
PairShort-if true t s e = ground arith
PairShort-if false t s e = tt

sample_pair-PairShort : (value : Json) → PairShort (sample_pair value)
sample_pair-PairShort null = tt
sample_pair-PairShort (bool b) = tt
sample_pair-PairShort (num n) = tt
sample_pair-PairShort (str s) = tt
sample_pair-PairShort (obj fields) = tt
sample_pair-PairShort (arr nil) = tt
sample_pair-PairShort (arr (cons (num t) nil)) = tt
sample_pair-PairShort (arr (cons (num t) (cons (str s) nil))) =
    PairShort-if (is_short 64 s) t s refl
sample_pair-PairShort (arr (cons (num t) (cons (str s) (cons x rest)))) = tt
sample_pair-PairShort (arr (cons (num t) (cons null rest))) = tt
sample_pair-PairShort (arr (cons (num t) (cons (bool b) rest))) = tt
sample_pair-PairShort (arr (cons (num t) (cons (num n) rest))) = tt
sample_pair-PairShort (arr (cons (num t) (cons (arr items) rest))) = tt
sample_pair-PairShort (arr (cons (num t) (cons (obj fields) rest))) = tt
sample_pair-PairShort (arr (cons null rest)) = tt
sample_pair-PairShort (arr (cons (bool b) rest)) = tt
sample_pair-PairShort (arr (cons (str s) rest)) = tt
sample_pair-PairShort (arr (cons (arr items) rest)) = tt
sample_pair-PairShort (arr (cons (obj fields) rest)) = tt

read_sample-bounded :
    (samples : ℕ) (value : Json) (sample : MetricSample)
    → read_sample samples value ≡ ok sample
    → (samples + 1 ≤ 5000) × (length (utf16 sample.value) ≤ 64)
unfolding read_sample
read_sample-bounded samples value sample h = elim (Option-cases (sample_pair value)) [
  | inl absent ↦ absurd (cc (rw (read_sample, absent) at h))
  | inr (found, e) ↦
      let short : PairShort (some found) = rw e at (sample_pair-PairShort value) in
      elim (Bool-cases (ltb 5000 (samples + 1))) [
        | inl over ↦ absurd (cc (rw (read_sample, e, over) at h))
        | inr within ↦ (
          ground arith,
          rw (sym (ok-injective found sample (rw (read_sample, e, within) at h))) short,
        )
      ]
]

read_samples-bounded :
    (samples : ℕ) (items : Items) (values : List MetricSample)
    → samples ≤ 5000
    → read_samples samples items ≡ ok values
    → (samples + length values ≤ 5000) × All (λ sample. length (utf16 sample.value) ≤ 64) values
unfolding read_samples
read_samples-bounded samples nil values k h =
    rw (sym (ok-injective [] values h)) (omega (arith, k), tt)
read_samples-bounded samples (cons value rest) values k h =
    let (sample, one, more) = bind_result-ok (read_sample samples value) _ values h in
    let (others, tail_read, done) =
      bind_result-ok (read_samples (samples + 1) rest) _ values more in
    let (within, short) = read_sample-bounded samples value sample one in
    let (total, all_short) = read_samples-bounded (samples + 1) rest others within tail_read in
    rw (sym (ok-injective (sample ∷ others) values done)) (omega (arith, total), (short, all_short))

read_series-IsBounded :
    (samples : ℕ) (metric : Option Fields) (values : Option Items) (series : MetricSeries)
    → samples ≤ 5000
    → read_series samples metric values ≡ ok series
    → (samples + length series.values ≤ 5000) × IsBounded series
unfolding read_series
read_series-IsBounded samples none values series k h = absurd (cc h)
read_series-IsBounded samples (some metric) none series k h = absurd (cc h)
read_series-IsBounded samples (some metric) (some values) series k h =
    let (labels, named, more) = bind_result-ok (read_labels metric) _ series h in
    let (found, sampled, done) = bind_result-ok (read_samples samples values) _ series more in
    let (total, short) = read_samples-bounded samples values found k sampled in
    rw (sym (ok-injective (record { labels = labels; values = found }) series done))
      (total, (read_labels-bounded metric labels named, short))

series_of-IsBounded :
    (samples : ℕ) (fields : Option Fields) (series : MetricSeries)
    → samples ≤ 5000
    → series_of samples fields ≡ ok series
    → (samples + length series.values ≤ 5000) × IsBounded series
series_of-IsBounded samples none series k h = absurd (cc h)
series_of-IsBounded samples (some fields) series k h = read_series-IsBounded samples _ _ series k h

read_all_series-IsBounded :
    (samples : ℕ) (items : Items) (result : List MetricSeries)
    → samples ≤ 5000
    → read_all_series samples items ≡ ok result
    → (length result ≡ count_items items)
      × (samples + total_samples result ≤ 5000)
      × All IsBounded result
unfolding read_all_series count_items total_samples
read_all_series-IsBounded samples nil result k h =
    rw (sym (ok-injective [] result h)) (refl, omega (arith, k), tt)
read_all_series-IsBounded samples (cons item rest) result k h =
    let (series, one, more) =
      bind_result-ok (series_of samples (members_of (some item))) _ result h in
    let (others, tail_read, done) =
      bind_result-ok (read_all_series (samples + length series.values) rest) _ result more in
    let (within, bounded) = series_of-IsBounded samples (members_of (some item)) series k one in
    let (counted, total, all_bounded) =
      read_all_series-IsBounded (samples + length series.values) rest others within tail_read in
    rw (sym (ok-injective (series ∷ others) result done))
      (omega (arith, counted), omega (arith, total), (bounded, all_bounded))

matrix_of-IsBounded :
    (items : Option Items) (result : List MetricSeries)
    → matrix_of items ≡ ok result
    → (length result ≤ 100) × (total_samples result ≤ 5000) × All IsBounded result
matrix_of-IsBounded none result h = absurd (cc h)
matrix_of-IsBounded (some items) result h = elim (Bool-cases (ltb 100 (count_items items))) [
  | inl many ↦ absurd (cc (rw many at h))
  | inr few ↦
      let (counted, total, bounded) =
        read_all_series-IsBounded 0 items result (omega arith) (rw few at h) in
      let small : count_items items ≤ 100 = ground arith in
      (omega (arith, counted, small), omega (arith, total), bounded)
]

-- Whatever text the metrics backend answers, a result that is returned has at most 100 series and
-- 5000 samples in all; its label names are of the documented form, its label values have at most
-- 500 code units and its sample values at most 64.
pub normalize_prometheus_matrix-IsBounded :
    (payload : Json) (result : List MetricSeries)
    → normalize_prometheus_matrix payload ≡ ok result
    → (length result ≤ 100) × (total_samples result ≤ 5000) × All IsBounded result
unfolding normalize_prometheus_matrix
normalize_prometheus_matrix-IsBounded payload result h = root_bounded (members_of (some payload)) h
  where
    data_bounded :
        (fields : Option Fields)
        → result_in fields ≡ ok result
        → (length result ≤ 100) × (total_samples result ≤ 5000) × All IsBounded result
    data_bounded none h = absurd (cc h)
    data_bounded (some fields) h =
        elim (Bool-cases (is_text "matrix" (property "resultType" fields))) [
          | inl matrix ↦
              matrix_of-IsBounded (items_in (property "result" fields)) result (rw matrix at h)
          | inr other ↦ absurd (cc (rw other at h))
        ]

    root_bounded :
        (root : Option Fields)
        → payload_of root ≡ ok result
        → (length result ≤ 100) × (total_samples result ≤ 5000) × All IsBounded result
    root_bounded none h = absurd (cc h)
    root_bounded (some fields) h =
        elim (Bool-cases (is_text "success" (property "status" fields))) [
          | inl success ↦ data_bounded (members_of (property "data" fields)) (rw success at h)
          | inr other ↦ absurd (cc (rw other at h))
        ]
