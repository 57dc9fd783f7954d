-- ===== src/Notifications/Progress.antt =====
-- A turn of the worker while Redis answers.
use gate_flow.Prelude.{
  ℕ, suc, ◌≡◌, ◌⊎◌, refl, sym, ap, ◌∙◌, inl, inr, Bool, true, false, Option, none, some, List, [],
  ◌∷◌, ◌++◌, take, drop, All, All-map, Bool-cases,
}
use gate_flow.Prelude.Text.{Text, same, same_refl}
use gate_flow.Notifications.{
  done, Settings, Outside, Worker, without, dead_letter, unless_raised, rested, call,
  send_webhook_with_retry, request, write_dead_letter, add_dead_letter, acknowledge, settle,
  dispatch, take_new, turn,
}
use gate_flow.Notifications.Growth.{
  Among, Among-left, Among-right, Among-append, take-or-drop, Grows, Grows-refl, Grows-trans, Keeps,
}
use gate_flow.Notifications.Delivery.{
  IsDelivered, IsSettled, IsSettled-Grows, sent-Keeps, sent-IsDelivered,
}

abbrev without_all : List Text → List Text → List Text
without_all [] ps = ps
without_all (id ∷ ids) ps = without_all ids (without id ps)

without-other :
    (id k : Text) (ps : List Text) → Among k (without id ps) → Among k ps × (same id k ≡ false)
unfolding without
without-other id k [] m = elim m [ ]
without-other id k (p ∷ ps) m = elim (Bool-cases (same id p)) [
  | inl t ↦ let (n, d) = without-other id k ps (rw t at m) in (inr n, d)
  | inr f ↦
      let kept : (p ≡ k) ⊎ Among k (without id ps) = rw f at m in
      elim kept [
        | inl e ↦ (inl e, rw (sym e) f)
        | inr n ↦ let (n', d) = without-other id k ps n in (inr n', d)
      ]
]

without_all-other :
    (ids : List Text) (k : Text) (ps : List Text)
    → Among k (without_all ids ps)
    → Among k ps × (Among k ids → ⊥)
without_all-other [] k ps m = (m, λ n. n)
without_all-other (id ∷ ids) k ps m =
    let (n, away) = without_all-other ids k (without id ps) m in
    let (there, differ) = without-other id k ps n in (there, not_there differ away)
  where
    not_there : same id k ≡ false → (Among k ids → ⊥) → Among k (id ∷ ids) → ⊥
    not_there differ away (inl e) =
        let no : ◌≡◌ {A = Bool} true false = sym (same_refl k) ∙ (rw e at differ) in cc
    not_there differ away (inr m') = away m'

All-Among : {P : Text → Type 0} (xs : List Text) → ((x : Text) → Among x xs → P x) → All P xs
All-Among [] h = tt
All-Among (x ∷ xs) h = (h x (inl refl), All-Among xs (λ y m. h y (inr m)))

module _ (settings : Settings) (outside : Outside)
    (answers : (n : ℕ) → outside.redis n ≡ done) where
  abbrev counted : Worker → Worker
  counted w = record w { calls = suc w.calls }

  request_done :
      (f : Worker → Worker) (w : Worker) → request settings outside f w ≡ (f (counted w), true)
  unfolding request call
  request_done f w = rw (answers w.calls) refl

  -- The entries are settled and acknowledged, and nothing else has changed.
  record HasSettled (ids : List Text) (w : Worker) (x : Worker × Bool) : Type 0 where
    returned : x.1 ≡ true
    settled : All (λ id. IsSettled settings outside id x.0) ids
    pending : x.0.pending ≡ without_all ids w.pending
    fresh : x.0.fresh ≡ w.fresh
    grows : Grows w x.0

  all-Grows :
      (ids : List Text) (w v : Worker)
      → Grows w v
      → All (λ id. IsSettled settings outside id w) ids
      → All (λ id. IsSettled settings outside id v) ids
  all-Grows ids w v g = All-map (λ id s. IsSettled-Grows settings outside id w v g s) ids

  acknowledge-HasSettled :
      (id : Text) (w : Worker)
      → IsSettled settings outside id w
      → HasSettled (id ∷ []) w (acknowledge settings outside id w)
  unfolding acknowledge
  acknowledge-HasSettled id w s =
      let drop_id : Worker → Worker = λ v. record v { pending = without id v.pending } in
      let acknowledged = drop_id (counted w) in
      let g : Grows w acknowledged = record { posts = λ p m. m; written = λ d m. m } in
      rw (request_done drop_id w) (record {
        returned = refl;
        settled = (IsSettled-Grows settings outside id w acknowledged g s, tt);
        pending = refl;
        fresh = refl;
        grows = g;
      })

  -- What was kept before the entries were settled.
  after-Keeps :
      (ids : List Text) (w v : Worker) (x : Worker × Bool)
      → Keeps w v
      → HasSettled ids v x
      → HasSettled ids w x
  after-Keeps ids w v x k h = record {
    returned = h.returned;
    settled = h.settled;
    pending = h.pending ∙ ap (without_all ids) k.pending;
    fresh = h.fresh ∙ k.fresh;
    grows = Grows-trans w v x.0 k.grows h.grows;
  }

  settle-HasSettled :
      (id : Text) (x : Worker × Option Text)
      → (x.1 ≡ none → IsDelivered settings outside id x.0)
      → HasSettled (id ∷ []) x.0 (settle settings outside id x)
  unfolding settle
  settle-HasSettled id (w, none) h = acknowledge-HasSettled id w (inl (h refl))
  settle-HasSettled id (w, some error) h =
      let write : Worker → Worker =
        add_dead_letter settings outside w.calls
          (dead_letter error (outside.clock w.calls) (outside.content id)) in
      let written = write (counted w) in
      unfold write_dead_letter unless_raised in
      rw (request_done write w) (
        after-Keeps (id ∷ []) w written (acknowledge settings outside id written)
          (record {
            grows = record { posts = λ p m. m; written = λ d m. inr m };
            fresh = refl;
            pending = refl;
          })
          (acknowledge-HasSettled id written (inr (error, outside.clock w.calls, inl refl))))

  next-HasSettled :
      (id : Text) (ids : List Text) (w : Worker) (x : Worker × Bool)
      → HasSettled (id ∷ []) w x
      → ((v : Worker) → HasSettled ids v (dispatch settings outside ids v))
      → HasSettled (id ∷ ids) w (unless_raised x (dispatch settings outside ids))
  unfolding unless_raised
  next-HasSettled id ids w (v, false) h rest = cc
  next-HasSettled id ids w (v, true) h rest =
      let r = rest v in
      let x = dispatch settings outside ids v in
      record {
        returned = r.returned;
        settled = (IsSettled-Grows settings outside id v x.0 r.grows h.settled.0, r.settled);
        pending = r.pending ∙ ap (without_all ids) h.pending;
        fresh = r.fresh ∙ h.fresh;
        grows = Grows-trans w v x.0 h.grows r.grows;
      }

  dispatch-HasSettled :
      (ids : List Text) (w : Worker) → HasSettled ids w (dispatch settings outside ids w)
  unfolding dispatch
  dispatch-HasSettled [] w = record {
    returned = refl;
    settled = tt;
    pending = refl;
    fresh = refl;
    grows = Grows-refl w;
  }
  dispatch-HasSettled (id ∷ ids) w =
      let x = send_webhook_with_retry settings outside (outside.content id) w in
      next-HasSettled id ids w (settle settings outside id x)
        (after-Keeps (id ∷ []) w x.0 (settle settings outside id x)
          (sent-Keeps settings outside (outside.content id) w)
          (settle-HasSettled id x (sent-IsDelivered settings outside id w)))
        (dispatch-HasSettled ids)

  module _ (count : ℕ) where
    abbrev batch : Worker → List Text
    batch w = take count w.pending ++ take count w.fresh

    turn_dispatches :
        (w : Worker)
        → turn settings outside count w
          ≡ rested (
              dispatch settings outside
                (batch w)
                (take_new settings outside count (counted (counted w))))
    unfolding turn unless_raised
    turn_dispatches w =
        rw (request_done (λ v. v) w, request_done (take_new settings outside count) (counted w))
          refl

    left_over :
        (w : Worker) (k : Text)
        → Among k (without_all (batch w) (w.pending ++ take count w.fresh))
        → Among k (drop count w.pending)
    left_over w k m =
        let (there, away) = without_all-other (batch w) k (w.pending ++ take count w.fresh) m in
        elim (Among-append k w.pending (take count w.fresh) there) [
          | inl p ↦ elim (take-or-drop count k w.pending p) [
            | inl t ↦ absurd (away (Among-left k (take count w.pending) (take count w.fresh) t))
            | inr d ↦ d
          ]
          | inr f ↦ absurd (away (Among-right k (take count w.pending) (take count w.fresh) f))
        ]

    rested_returned : (x : Worker × Bool) → x.1 ≡ true → rested x ≡ x.0
    unfolding rested
    rested_returned (w, true) h = refl
    rested_returned (w, false) h = cc

    -- A turn in which Redis answers gets on, whatever the webhooks do: of the entries that are read
    -- and not acknowledged, and of the unread ones, the first `count` are each taken by every webhook
    -- or have a dead letter written for them, only later ones of the former are still not
    -- acknowledged, and the unread ones behind them are left.
    pub turn-IsSettled :
        (w : Worker)
        → let w' = turn settings outside count w in
          All (λ id. IsSettled settings outside id w') (take count w.pending ++ take count w.fresh)
          × (All (λ id. Among id (drop count w.pending)) w'.pending
              × (w'.fresh ≡ drop count w.fresh))
    turn-IsSettled w =
        let start = take_new settings outside count (counted (counted w)) in
        let x = dispatch settings outside (batch w) start in
        let h = dispatch-HasSettled (batch w) start in
        rw (turn_dispatches w ∙ rested_returned x h.returned) (
          h.settled,
          (All-Among x.0.pending (λ id m. left_over w id (rw (h.pending) at m)), h.fresh),
        )
