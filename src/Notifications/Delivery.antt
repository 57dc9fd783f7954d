-- ===== src/Notifications/Delivery.antt =====
-- One entry: its posts, its dead letter and its acknowledgement.
use mathlib.Core.Path.{subst}
use gate_flow.Prelude.{
  suc, ◌≡◌, ◌⊎◌, refl, ◌∙◌, inl, inr, Bool, true, false, Option, none, some, List, [], ◌∷◌, All,
  All-map, Bool-cases, arith,
}
use gate_flow.Prelude.Text.{Text, same, eq_of_same}
use gate_flow.Notifications.{
  Fields, Result, done, unsent, unheard, Settings, Outside, Worker, max_retries, without, add_error,
  raised_of, dead_letter, unless_raised, call, webhook_targets, try_url, send_to_all,
  send_webhook_with_retry, request, write_dead_letter, add_dead_letter, acknowledge, settle,
  dispatch,
}
use gate_flow.Notifications.Growth.{
  Among, Grows, Keeps, Keeps-refl, Keeps-trans, IsAccepted, try_url-Keeps, try_url-IsAccepted,
}

without-Among : (id k : Text) (ids : List Text) → Among k ids → (id ≡ k) ⊎ Among k (without id ids)
unfolding without
without-Among id k [] m = elim m [ ]
without-Among id k (i ∷ ids) (inl e) = elim (Bool-cases (same id i)) [
  | inl t ↦ inl (eq_of_same id i t ∙ e)
  | inr f ↦ rw f (inr (inl e))
]
without-Among id k (i ∷ ids) (inr m) = elim (without-Among id k ids m) [
  | inl e ↦ inl e
  | inr n ↦ elim (Bool-cases (same id i)) [ inl t ↦ rw t (inr n) | inr f ↦ rw f (inr (inr n)) ]
]

module _ (settings : Settings) (outside : Outside) where
  -- Every webhook has taken the entry.
  abbrev pub IsDelivered : Text → Worker → Type 0
  IsDelivered id w =
      All (λ url. IsAccepted settings outside url (outside.content id) w)
        (webhook_targets settings outside)

  -- A dead letter with its fields has been written.
  abbrev pub IsDeadLetter : Text → Worker → Type 0
  IsDeadLetter id w =
      (error : Text) × (stamp : Text) × Among (dead_letter error stamp (outside.content id))
        w.written

  abbrev pub IsSettled : Text → Worker → Type 0
  IsSettled id w = IsDelivered id w ⊎ IsDeadLetter id w

  pub IsSettled-Grows : (id : Text) (w v : Worker) → Grows w v → IsSettled id w → IsSettled id v
  IsSettled-Grows id w v g (inl all) = inl (All-map (λ url m. g.posts _ m) _ all)
  IsSettled-Grows id w v g (inr (error, stamp, m)) = inr (error, stamp, g.written _ m)

  send_to_all-Keeps :
      (urls : List Text) (payload : Fields) (w : Worker)
      → Keeps w (send_to_all settings outside urls payload w).0
  unfolding send_to_all
  send_to_all-Keeps [] payload w = Keeps-refl w
  send_to_all-Keeps (url ∷ urls) payload w =
      Keeps-trans w (try_url settings outside max_retries url payload w).0 _
        (try_url-Keeps settings outside max_retries url payload w)
        (send_to_all-Keeps urls payload (try_url settings outside max_retries url payload w).0)

  no_error : (e : Option Text) (es : List Text) → add_error e es ≡ [] → (e ≡ none) × (es ≡ [])
  no_error none es h = (refl, h)
  no_error (some e) es h = cc

  send_to_all-IsAccepted :
      (urls : List Text) (payload : Fields) (w : Worker)
      → (send_to_all settings outside urls payload w).1 ≡ []
      → All
          (λ url.
            IsAccepted settings outside url payload (send_to_all settings outside urls payload w).0)
          urls
  unfolding send_to_all
  send_to_all-IsAccepted [] payload w h = tt
  send_to_all-IsAccepted (url ∷ urls) payload w h =
      let x = try_url settings outside max_retries url payload w in
      let (none_first, none_after) =
        no_error x.1 (send_to_all settings outside urls payload x.0).1 h in
      let taken : IsAccepted settings outside url payload x.0 =
        elim (try_url-IsAccepted settings outside max_retries url payload w) [
          | inl z ↦ absurd (omega (arith, z))
          | inr g ↦ g none_first
        ] in
      (
        (send_to_all-Keeps urls payload x.0).grows.posts _ taken,
        send_to_all-IsAccepted urls payload x.0 none_after,
      )

  raised_none : (es : List Text) → raised_of es ≡ none → es ≡ []
  unfolding raised_of
  raised_none [] h = refl
  raised_none (e ∷ es) h = cc

  pub sent-Keeps :
      (payload : Fields) (w : Worker)
      → Keeps w (send_webhook_with_retry settings outside payload w).0
  unfolding send_webhook_with_retry
  sent-Keeps payload w = send_to_all-Keeps (webhook_targets settings outside) payload w

  pub sent-IsDelivered :
      (id : Text) (w : Worker)
      → (send_webhook_with_retry settings outside (outside.content id) w).1 ≡ none
      → IsDelivered id (send_webhook_with_retry settings outside (outside.content id) w).0
  unfolding send_webhook_with_retry
  sent-IsDelivered id w h =
      send_to_all-IsAccepted (webhook_targets settings outside) (outside.content id) w
        (raised_none _ h)

  -- An entry is not lost: it is not read yet, or not acknowledged yet, or settled.
  abbrev pub IsKnown : Text → Worker → Type 0
  IsKnown id w = Among id w.fresh ⊎ (Among id w.pending ⊎ IsSettled id w)

  abbrev pub Preserves : Worker → Worker → Type 0
  Preserves w v = (id : Text) → IsKnown id w → IsKnown id v

  pub Keeps-Preserves : (w v : Worker) → Keeps w v → Preserves w v
  Keeps-Preserves w v k id (inl m) = inl (rw (k.fresh) m)
  Keeps-Preserves w v k id (inr (inl m)) = inr (inl (rw (k.pending) m))
  Keeps-Preserves w v k id (inr (inr s)) = inr (inr (IsSettled-Grows id w v k.grows s))

  call-Preserves :
      (r : Result) (f : Worker → Worker) (w v : Worker)
      → Preserves w v
      → Preserves w (f v)
      → Preserves w (call r f v).0
  unfolding call
  call-Preserves done f w v h k = k
  call-Preserves unsent f w v h k = h
  call-Preserves unheard f w v h k = k

  abbrev counted : Worker → Worker
  counted w = record w { calls = suc w.calls }

  counted-Keeps : (w : Worker) → Keeps w (counted w)
  counted-Keeps w = record {
    grows = record { posts = λ p m. m; written = λ d m. m };
    fresh = refl;
    pending = refl;
  }

  pub request-Preserves :
      (f : Worker → Worker) (w : Worker)
      → ((v : Worker) → Keeps w v → Preserves v (f v))
      → Preserves w (request settings outside f w).0
  unfolding request
  request-Preserves f w h =
      let one = Keeps-Preserves w (counted w) (counted-Keeps w) in
      call-Preserves (outside.redis w.calls) f w (counted w) one
        (λ id m. h (counted w) (counted-Keeps w) id (one id m))

  acknowledged-Preserves :
      (id : Text) (w : Worker)
      → IsSettled id w
      → Preserves w (record w { pending = without id w.pending })
  acknowledged-Preserves id w s k (inl m) = inl m
  acknowledged-Preserves id w s k (inr (inr (inl d))) = inr (inr (inl d))
  acknowledged-Preserves id w s k (inr (inr (inr d))) = inr (inr (inr d))
  acknowledged-Preserves id w s k (inr (inl m)) = elim (without-Among id k w.pending m) [
    | inl e ↦ as_settled (subst (λ i. IsSettled i w) e s)
    | inr n ↦ inr (inl n)
  ]
    where
      as_settled : IsSettled k w → IsKnown k (record w { pending = without id w.pending })
      as_settled (inl d) = inr (inr (inl d))
      as_settled (inr d) = inr (inr (inr d))

  acknowledge-Preserves :
      (id : Text) (w : Worker) → IsSettled id w → Preserves w (acknowledge settings outside id w).0
  unfolding acknowledge
  acknowledge-Preserves id w s =
      request-Preserves (λ v. record v { pending = without id v.pending }) w
        (λ v k. acknowledged-Preserves id v (IsSettled-Grows id w v k.grows s))

  write_dead_letter-Preserves :
      (payload : Fields) (error : Text) (w : Worker)
      → Preserves w (write_dead_letter settings outside payload error w).0
  unfolding write_dead_letter
  write_dead_letter-Preserves payload error w =
      let write : Worker → Worker =
        add_dead_letter settings outside w.calls
          (dead_letter error (outside.clock w.calls) payload) in
      request-Preserves write w (λ v k. Keeps-Preserves v (write v) (record {
        grows = record { posts = λ p m. m; written = λ d m. inr m };
        fresh = refl;
        pending = refl;
      }))

  written-IsDeadLetter :
      (id error : Text) (w : Worker)
      → (write_dead_letter settings outside (outside.content id) error w).1 ≡ true
      → IsDeadLetter id (write_dead_letter settings outside (outside.content id) error w).0
  unfolding write_dead_letter request
  written-IsDeadLetter id error w h = of_result (outside.redis w.calls) h
    where
      write : Worker → Worker
      write =
          add_dead_letter settings outside w.calls
            (dead_letter error (outside.clock w.calls) (outside.content id))

      of_result :
          (r : Result)
          → (call r write (counted w)).1 ≡ true
          → IsDeadLetter id (call r write (counted w)).0
      of_result done k = unfold call in (error, outside.clock w.calls, inl refl)
      of_result unsent k = unfold call in cc
      of_result unheard k = unfold call in cc

  pub unless_raised-Preserves :
      (u : Worker) (x : Worker × Bool) (next : Worker → Worker × Bool)
      → Preserves u x.0
      → (x.1 ≡ true → Preserves x.0 (next x.0).0)
      → Preserves u (unless_raised x next).0
  unfolding unless_raised
  unless_raised-Preserves u (w, true) next h k = λ id m. k refl id (h id m)
  unless_raised-Preserves u (w, false) next h k = h

  settle-Preserves :
      (id : Text) (x : Worker × Option Text)
      → (x.1 ≡ none → IsDelivered id x.0)
      → Preserves x.0 (settle settings outside id x).0
  unfolding settle
  settle-Preserves id (w, none) h = acknowledge-Preserves id w (inl (h refl))
  settle-Preserves id (w, some error) h =
      unless_raised-Preserves w (write_dead_letter settings outside (outside.content id) error w)
        (acknowledge settings outside id) (write_dead_letter-Preserves (outside.content id) error w)
        (λ e. acknowledge-Preserves id _ (inr (written-IsDeadLetter id error w e)))

  pub dispatch-Preserves :
      (ids : List Text) (w : Worker) → Preserves w (dispatch settings outside ids w).0
  unfolding dispatch
  dispatch-Preserves [] w = λ id m. m
  dispatch-Preserves (id ∷ ids) w =
      let x = send_webhook_with_retry settings outside (outside.content id) w in
      unless_raised-Preserves w (settle settings outside id x) (dispatch settings outside ids)
        (λ k m.
          settle-Preserves id x (sent-IsDelivered id w) k
            (Keeps-Preserves w x.0 (sent-Keeps (outside.content id) w) k m))
        (λ e. dispatch-Preserves ids (settle settings outside id x).0)
