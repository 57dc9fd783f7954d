-- ===== src/Anomaly/Windows.antt =====
-- The windows of the detector, against the metrics that it was given.
use gate_flow.Prelude.{
  ℕ, zero, suc, ◌+◌, ◌-◌, ◌/◌, ◌≤◌, ◌≡◌, refl, sym, ap, ◌∙◌, inl, inr, Option, none, some, List, [],
  ◌∷◌, ◌++◌, length, drop, length-append, arith, if◌then◌else◌, Bool-cases,
}
use mathlib.Core.List.{append_assoc, append-nil}
use gate_flow.Prelude.Text.{Text, same, eq_of_same}
use gate_flow.Anomaly.{
  Settings, Sample, Metric, Detector, fresh, group_key, last, push, window_checks, count_traffic,
  traffic_check, check_sample, check_numbers, check, run,
}

module _ {ℓ} {A : Type ℓ} where
  drop_nil : (n : ℕ) → ◌≡◌ {A = List A} (drop n []) []
  drop_nil zero = refl
  drop_nil (suc n) = refl

  drop_equal : (m n : ℕ) (xs : List A) → m ≡ n → drop m xs ≡ drop n xs
  drop_equal m n xs e = ap (λ k. drop k xs) e

  drop-drop : (m n : ℕ) (xs : List A) → drop m (drop n xs) ≡ drop (n + m) xs
  drop-drop m zero xs = drop_equal m (0 + m) xs (omega arith)
  drop-drop m (suc n) [] = drop_nil m ∙ sym (drop_nil (suc n + m))
  drop-drop m (suc n) (x ∷ xs) =
      drop-drop m n xs ∙ drop_equal (suc (n + m)) (suc n + m) (x ∷ xs) (omega arith)

  drop_append : (n : ℕ) (xs ys : List A) → n ≤ length xs → drop n xs ++ ys ≡ drop n (xs ++ ys)
  drop_append zero xs ys h = refl
  drop_append (suc n) [] ys h = absurd (omega (arith, h))
  drop_append (suc n) (x ∷ xs) ys h = drop_append n xs ys (omega (arith, h))

  length-drop : (n : ℕ) (xs : List A) → length (drop n xs) ≡ length xs - n
  length-drop zero xs = omega arith
  length-drop (suc n) [] = omega arith
  length-drop (suc n) (x ∷ xs) = omega (arith, length-drop n xs)

  last-append : (w : ℕ) (xs ys : List A) → last w (last w xs ++ ys) ≡ last w (xs ++ ys)
  unfolding last
  last-append w xs ys =
      let k = length xs - w in
      let joined = drop_append k xs ys (omega arith) in
      let amount : k + (length (drop k (xs ++ ys)) - w) ≡ length (xs ++ ys) - w =
        omega (arith, length-drop k (xs ++ ys), length-append xs ys) in
      rw (joined, drop-drop (length (drop k (xs ++ ys)) - w) k (xs ++ ys))
        (ap (λ n. drop n (xs ++ ys)) amount)

-- The samples of a group among the metrics.
unfoldable pub sample_of : Text → Text → Option Sample → List Sample
sample_of group g none = []
sample_of group g (some sample) = if same g group then sample ∷ [] else []

unfoldable pub samples_of : Text → List (ℕ × Metric) → List Sample
samples_of group [] = []
samples_of group ((now, m) ∷ metrics) =
    sample_of group (group_key m) m.numbers ++ samples_of group metrics

module _ (settings : Settings) where
  abbrev window : List Sample → List Sample
  window samples = last settings.window_size samples

  numbers-samples :
      (now : ℕ) (group g : Text) (o : Option Sample) (d : Detector)
      → window (d.samples group) ≡ d.samples group
      → (check_numbers settings now g o d).0.samples group
        ≡ window (d.samples group ++ sample_of group g o)
  unfolding check_numbers check_sample sample_of push
  numbers-samples now group g none d h = sym h ∙ ap window (sym (append-nil (d.samples group)))
  numbers-samples now group g (some sample) d h = elim (Bool-cases (same g group)) [
    | inl t ↦ rw (t, eq_of_same g group t) refl
    | inr f ↦ rw f (sym h ∙ ap window (sym (append-nil (d.samples group))))
  ]

  windowed : (xs : List Sample) → window (window xs) ≡ window xs
  windowed xs =
      ap window (sym (append-nil (window xs)))
      ∙ last-append settings.window_size xs []
      ∙ ap window (append-nil xs)

  run-samples :
      (group : Text) (metrics : List (ℕ × Metric)) (d : Detector)
      → window (d.samples group) ≡ d.samples group
      → (run settings metrics d).samples group
        ≡ window (d.samples group ++ samples_of group metrics)
  unfolding run samples_of check
  run-samples group [] d h = sym h ∙ ap window (sym (append-nil (d.samples group)))
  run-samples group ((now, m) ∷ metrics) d h =
      let more = sample_of group (group_key m) m.numbers in
      let one = numbers-samples now group (group_key m) m.numbers d h in
      let d' = (check settings now m d).0 in
      run-samples group metrics d' (ap window one ∙ windowed (d.samples group ++ more) ∙ sym one)
      ∙ ap (λ xs. window (xs ++ samples_of group metrics)) one
      ∙ last-append settings.window_size (d.samples group ++ more) (samples_of group metrics)
      ∙ ap window (append_assoc (d.samples group) more (samples_of group metrics))

  -- Whatever metrics came before, of this group and of others: what is found for a metric with
  -- readable numbers depends on the last `window_size` samples of its own group, in the order in which
  -- they came, and on the traffic of its group.
  pub check-samples_of :
      (metrics : List (ℕ × Metric)) (now : ℕ) (m : Metric) (sample : Sample)
      → m.numbers ≡ some sample
      → let d = run settings metrics fresh in
        let samples = last settings.window_size (samples_of (group_key m) metrics ++ sample ∷ []) in
        (check settings now m d).1
        ≡ window_checks settings samples sample.duration
          ++ traffic_check settings (count_traffic (now / 60) (d.traffic (group_key m)))
  unfolding check check_numbers check_sample push
  check-samples_of metrics now m sample e =
      let g = group_key m in
      let d = run settings metrics fresh in
      let before : d.samples g ≡ window (samples_of g metrics) =
        run-samples g metrics fresh (unfold last in drop_nil _) in
      let all : window (d.samples g ++ sample ∷ []) ≡ window (samples_of g metrics ++ sample ∷ []) =
        ap (λ xs. window (xs ++ sample ∷ [])) before
        ∙ last-append settings.window_size (samples_of g metrics) (sample ∷ []) in
      rw (e, all) refl
