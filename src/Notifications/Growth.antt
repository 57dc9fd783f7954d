-- ===== src/Notifications/Growth.antt =====
-- What posts and calls leave as it was: posts, and dead letters that have been written, are only added.
use gate_flow.Prelude.{
  ℕ, zero, suc, ◌+◌, ◌-◌, ◌^◌, ◌≡◌, ◌⊎◌, refl, ap, ◌∙◌, inl, inr, true, Option, none, some, List,
  [], ◌∷◌, ◌++◌, take, drop, arith,
}
use gate_flow.Prelude.Text.{Text}
use gate_flow.Notifications.{
  Fields, Settings, Outside, Post, Worker, max_retries, is_none, after_post, post_of, send_webhook,
  try_url,
}

-- Membership, by recursion.
abbrev pub Among : {A : Type 0} → A → List A → Type 0
Among x [] = ⊥
Among x (y ∷ ys) = (y ≡ x) ⊎ Among x ys

module _ {A : Type 0} where
  pub Among-left : (x : A) (xs ys : List A) → Among x xs → Among x (xs ++ ys)
  Among-left x [] ys m = elim m [ ]
  Among-left x (y ∷ xs) ys (inl e) = inl e
  Among-left x (y ∷ xs) ys (inr m) = inr (Among-left x xs ys m)

  pub Among-right : (x : A) (xs ys : List A) → Among x ys → Among x (xs ++ ys)
  Among-right x [] ys m = m
  Among-right x (y ∷ xs) ys m = inr (Among-right x xs ys m)

  pub Among-append : (x : A) (xs ys : List A) → Among x (xs ++ ys) → Among x xs ⊎ Among x ys
  Among-append x [] ys m = inr m
  Among-append x (y ∷ xs) ys (inl e) = inl (inl e)
  Among-append x (y ∷ xs) ys (inr m) = elim (Among-append x xs ys m) [
    | inl k ↦ inl (inr k)
    | inr k ↦ inr k
  ]

  pub take-or-drop :
      (n : ℕ) (x : A) (xs : List A) → Among x xs → Among x (take n xs) ⊎ Among x (drop n xs)
  take-or-drop zero x xs m = inr m
  take-or-drop (suc n) x [] m = elim m [ ]
  take-or-drop (suc n) x (y ∷ xs) (inl e) = inl (inl e)
  take-or-drop (suc n) x (y ∷ xs) (inr m) = elim (take-or-drop n x xs m) [
    | inl k ↦ inl (inr k)
    | inr k ↦ inr k
  ]

-- The second state has all posts and written dead letters of the first.
pub record Grows (w v : Worker) : Type 0 where
  pub posts : (p : Post) → Among p w.posts → Among p v.posts
  pub written : (d : Fields) → Among d w.written → Among d v.written

pub Grows-refl : (w : Worker) → Grows w w
Grows-refl w = record { posts = λ p m. m; written = λ d m. m }

pub Grows-trans : (u w v : Worker) → Grows u w → Grows w v → Grows u v
Grows-trans u w v g h = record {
  posts = λ p m. h.posts p (g.posts p m);
  written = λ d m. h.written d (g.written d m);
}

-- It also has the same entries.
pub record Keeps (w v : Worker) : Type 0 where
  pub grows : Grows w v
  pub fresh : v.fresh ≡ w.fresh
  pub pending : v.pending ≡ w.pending

pub Keeps-refl : (w : Worker) → Keeps w w
Keeps-refl w = record { grows = Grows-refl w; fresh = refl; pending = refl }

pub Keeps-trans : (u w v : Worker) → Keeps u w → Keeps w v → Keeps u v
Keeps-trans u w v g h = record {
  grows = Grows-trans u w v g.grows h.grows;
  fresh = h.fresh ∙ g.fresh;
  pending = h.pending ∙ g.pending;
}

module _ (settings : Settings) (outside : Outside) where
  -- A post of the payload that the webhook has taken.
  abbrev pub IsAccepted : Text → Fields → Worker → Type 0
  IsAccepted url payload w = Among (post_of settings outside url payload true) w.posts

  send_webhook-Keeps :
      (url : Text) (payload : Fields) (w : Worker)
      → Keeps w (send_webhook settings outside url payload w).0
  unfolding send_webhook
  send_webhook-Keeps url payload w = record {
    grows = record { posts = λ p m. inr m; written = λ d m. m };
    fresh = refl;
    pending = refl;
  }

  send_webhook-IsAccepted :
      (url : Text) (payload : Fields) (w : Worker)
      → (send_webhook settings outside url payload w).1 ≡ none
      → IsAccepted url payload (send_webhook settings outside url payload w).0
  unfolding send_webhook is_none
  send_webhook-IsAccepted url payload w h =
      inl (ap (λ e. post_of settings outside url payload (is_none e)) h)

  after_post-Keeps :
      (u : Worker) (left : ℕ) (url : Text) (next : Worker → Worker × Option Text)
      (x : Worker × Option Text)
      → Keeps u x.0
      → ((w : Worker) → Keeps w (next w).0)
      → Keeps u (after_post left url next x).0
  unfolding after_post
  after_post-Keeps u left url next (w, none) k h = k
  after_post-Keeps u zero url next (w, some e) k h = k
  after_post-Keeps u (suc left) url next (w, some e) k h =
      let paused = record w { slept = w.slept + 2 ^ (max_retries - 1 - suc left) } in
      Keeps-trans u paused (next paused).0
        (record {
          grows = record { posts = k.grows.posts; written = k.grows.written };
          fresh = k.fresh;
          pending = k.pending;
        })
        (h paused)

  after_post-IsAccepted :
      (left : ℕ) (url : Text) (payload : Fields) (next : Worker → Worker × Option Text)
      (x : Worker × Option Text)
      → (x.1 ≡ none → IsAccepted url payload x.0)
      → ((w : Worker) → left ≡ 0 ⊎ ((next w).1 ≡ none → IsAccepted url payload (next w).0))
      → (after_post left url next x).1 ≡ none
      → IsAccepted url payload (after_post left url next x).0
  unfolding after_post
  after_post-IsAccepted left url payload next (w, none) k h e = k refl
  after_post-IsAccepted zero url payload next (w, some t) k h e = cc
  after_post-IsAccepted (suc left) url payload next (w, some t) k h e = elim (h _) [
    | inl z ↦ absurd (omega (arith, z))
    | inr g ↦ g e
  ]

  pub try_url-Keeps :
      (left : ℕ) (url : Text) (payload : Fields) (w : Worker)
      → Keeps w (try_url settings outside left url payload w).0
  unfolding try_url
  try_url-Keeps zero url payload w = Keeps-refl w
  try_url-Keeps (suc left) url payload w =
      after_post-Keeps w left url (try_url settings outside left url payload)
        (send_webhook settings outside url payload w) (send_webhook-Keeps url payload w)
        (try_url-Keeps left url payload)

  pub try_url-IsAccepted :
      (left : ℕ) (url : Text) (payload : Fields) (w : Worker)
      → left ≡ 0
        ⊎ ((try_url settings outside left url payload w).1 ≡ none
            → IsAccepted url payload (try_url settings outside left url payload w).0)
  unfolding try_url
  try_url-IsAccepted zero url payload w = inl refl
  try_url-IsAccepted (suc left) url payload w = inr (
      after_post-IsAccepted left url payload (try_url settings outside left url payload)
        (send_webhook settings outside url payload w) (send_webhook-IsAccepted url payload w)
        (try_url-IsAccepted left url payload))
