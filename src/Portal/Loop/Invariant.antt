-- ===== src/Portal/Loop/Invariant.antt =====
-- What holds after every event, in any order.
use gate_flow.Prelude.{
  ℕ, ◌≡◌, refl, Bool, true, false, Option, none, some, List, [], ◌∷◌, arith, All, All-append,
  length, length-append, if_both, inl, inr, Option-cases,
}
use gate_flow.Prelude.Text.{Text, codes}
use gate_flow.Portal.Value.{object_entries, property}
use gate_flow.Portal.Page.{
  Page, Call, Fetched, response, rejected, Body, parsed, malformed, Engine, set_result, with_key,
  call_with, load_quota, load_quota_response, show_quota, load_quota_body, rotate_key,
  rotate_key_response, rotate_key_body, request_tier, request_tier_response,
}
use gate_flow.Portal.Trim.{trim}
use gate_flow.Portal.Page.Calls.{
  blank_or_given, with_key_blank, with_key_given, IsProper, IsProperCall, load_quota-IsProper,
  rotate_key-IsProper, request_tier-IsProper,
}
use gate_flow.Portal.Loop.{
  Await, World, Event, start, proceed, finish, fetch_settled, json_settled, submitted, step, run,
  fresh,
}
use gate_flow.Portal.Loop.Parked.{
  HasDistinctIds, AllBelow, IsAbsent-below, AllBelow-suc, resume-HasDistinctIds, resume-AllBelow,
}

-- The two cards are shown together, and the quota list is empty while they are hidden.
pub record IsTogether (p : Page) : Type 0 where
  pub cards : p.quota_hidden ≡ p.actions_hidden
  pub empty : p.actions_hidden ≡ true → p.quota_html ≡ []

pub record IsConsistent (w : World) : Type 0 where
  pub page : IsTogether w.page
  pub below : AllBelow w.next w.parked
  pub distinct : HasDistinctIds w.parked
  pub counted : length w.calls ≡ w.next
  pub proper : All IsProper w.calls
  pub stays : w.navigated ≡ false

module _ {p : Page} (t : IsTogether p) where
  set_result-IsTogether : (m : Text) (e : Bool) → IsTogether (set_result m e p)
  unfolding set_result
  set_result-IsTogether m e = record { cards = t.cards; empty = t.empty }

  with_key-IsTogether : (f : Text → Call) → IsTogether (call_with f (with_key p)).0
  with_key-IsTogether f = elim (blank_or_given (trim p.api_key)) [
    | inl blank ↦ rw (with_key_blank p blank) (set_result-IsTogether _ _)
    | inr given ↦ rw (with_key_given p given) t
  ]

  load_quota-IsTogether : IsTogether (load_quota p).0
  unfolding load_quota
  load_quota-IsTogether = with_key-IsTogether _

  rotate_key-IsTogether : IsTogether (rotate_key p).0
  unfolding rotate_key
  rotate_key-IsTogether = with_key-IsTogether _

  request_tier-IsTogether : IsTogether (request_tier p).1.0
  unfolding request_tier
  request_tier-IsTogether = with_key-IsTogether _

  load_quota_response-IsTogether : (r : Fetched) → IsTogether (load_quota_response r p).0
  unfolding load_quota_response
  load_quota_response-IsTogether (rejected m) = set_result-IsTogether _ _
  load_quota_response-IsTogether (response true s) = t
  load_quota_response-IsTogether (response false s) = set_result-IsTogether _ _

  rotate_key_response-IsTogether : (r : Fetched) → IsTogether (rotate_key_response r p).0
  unfolding rotate_key_response
  rotate_key_response-IsTogether (rejected m) = set_result-IsTogether _ _
  rotate_key_response-IsTogether (response true s) = t
  rotate_key_response-IsTogether (response false s) = set_result-IsTogether _ _

  request_tier_response-IsTogether : (r : Fetched) → IsTogether (request_tier_response r p)
  unfolding request_tier_response
  request_tier_response-IsTogether (rejected m) = set_result-IsTogether _ _
  request_tier_response-IsTogether (response true s) = set_result-IsTogether _ _
  request_tier_response-IsTogether (response false s) = set_result-IsTogether _ _

  module _ (engine : Engine) where
    load_quota_body-IsTogether : (b : Body) → IsTogether (load_quota_body engine b p)
    unfolding load_quota_body
    load_quota_body-IsTogether (malformed m) = set_result-IsTogether _ _
    load_quota_body-IsTogether (parsed v) = elim (Option-cases (object_entries v)) [
      | inl e ↦ rw (e, load_quota_body) (set_result-IsTogether _ _)
      | inr (es, e) ↦
          rw (e, load_quota_body)
            (unfold show_quota set_result in record { cards = refl; empty = λ h. cc })
    ]

    rotate_key_body-IsTogether : (b : Body) → IsTogether (rotate_key_body engine b p)
    unfolding rotate_key_body
    rotate_key_body-IsTogether (malformed m) = set_result-IsTogether _ _
    rotate_key_body-IsTogether (parsed v) = elim (Option-cases (property (codes "api_key") v)) [
      | inl e ↦ rw (e, rotate_key_body) (set_result-IsTogether _ _)
      | inr (k, e) ↦
          rw (e, rotate_key_body) (unfold set_result in record { cards = t.cards; empty = t.empty })
    ]

module _ {w : World} (c : IsConsistent w) where
  page-IsConsistent : {p : Page} → IsTogether p → IsConsistent (record w { page = p })
  page-IsConsistent t = record {
    page = t;
    below = c.below;
    distinct = c.distinct;
    counted = c.counted;
    proper = c.proper;
    stays = c.stays;
  }

  start-IsConsistent :
      (a : Await) (r : Page × Option Call)
      → IsTogether r.0
      → IsProperCall r.1
      → IsConsistent (start a r w)
  start-IsConsistent a (p, none) t ok = page-IsConsistent t
  start-IsConsistent a (p, some k) t ok = record {
    page = t;
    below = (omega arith, AllBelow-suc w.next w.parked c.below);
    distinct = (IsAbsent-below w.next w.parked c.below, c.distinct);
    counted = omega (arith, length-append w.calls (k ∷ []), c.counted);
    proper = All-append IsProper w.calls (k ∷ []) c.proper (ok, tt);
    stays = c.stays;
  }

  finish-IsConsistent : (id : ℕ) (p : Page) → IsTogether p → IsConsistent (finish id p w)
  finish-IsConsistent id p t = record {
    page = t;
    below = resume-AllBelow w.next id none w.parked c.below;
    distinct = resume-HasDistinctIds id none w.parked c.distinct;
    counted = c.counted;
    proper = c.proper;
    stays = c.stays;
  }

  proceed-IsConsistent :
      (id : ℕ) (a : Await) (r : Page × Bool) → IsTogether r.0 → IsConsistent (proceed id a r w)
  proceed-IsConsistent id a (p, true) t = record {
    page = t;
    below = resume-AllBelow w.next id (some a) w.parked c.below;
    distinct = resume-HasDistinctIds id (some a) w.parked c.distinct;
    counted = c.counted;
    proper = c.proper;
    stays = c.stays;
  }
  proceed-IsConsistent id a (p, false) t = finish-IsConsistent id p t

  fetch_settled-IsConsistent :
      (id : ℕ) (r : Fetched) (o : Option Await) → IsConsistent (fetch_settled id r o w)
  unfolding fetch_settled
  fetch_settled-IsConsistent id r (some Await.load_fetch) =
      proceed-IsConsistent id _ _ (load_quota_response-IsTogether c.page r)
  fetch_settled-IsConsistent id r (some Await.rotate_fetch) =
      proceed-IsConsistent id _ _ (rotate_key_response-IsTogether c.page r)
  fetch_settled-IsConsistent id r (some Await.request_fetch) =
      finish-IsConsistent id _ (request_tier_response-IsTogether c.page r)
  fetch_settled-IsConsistent id r _ = c

  module _ (engine : Engine) where
    json_settled-IsConsistent :
        (id : ℕ) (b : Body) (o : Option Await) → IsConsistent (json_settled engine id b o w)
    unfolding json_settled
    json_settled-IsConsistent id b (some Await.load_json) =
        finish-IsConsistent id _ (load_quota_body-IsTogether c.page engine b)
    json_settled-IsConsistent id b (some Await.rotate_json) =
        finish-IsConsistent id _ (rotate_key_body-IsTogether c.page engine b)
    json_settled-IsConsistent id b _ = c

    -- The invariant is kept by every event.
    pub step-IsConsistent : (e : Event) → IsConsistent (step engine e w)
    unfolding step submitted request_tier
    step-IsConsistent (Event.edit_key s) =
        page-IsConsistent (record { cards = c.page.cards; empty = c.page.empty })
    step-IsConsistent (Event.edit_tier s) =
        page-IsConsistent (record { cards = c.page.cards; empty = c.page.empty })
    step-IsConsistent (Event.edit_reason s) =
        page-IsConsistent (record { cards = c.page.cards; empty = c.page.empty })
    step-IsConsistent Event.click_load =
        start-IsConsistent _ _ (load_quota-IsTogether c.page) (load_quota-IsProper w.page)
    step-IsConsistent Event.click_rotate =
        if_both IsConsistent w.page.actions_hidden c
          (start-IsConsistent _ _ (rotate_key-IsTogether c.page) (rotate_key-IsProper w.page))
    step-IsConsistent Event.submit_tier =
        if_both IsConsistent w.page.actions_hidden c
          (start-IsConsistent _ _ (request_tier-IsTogether c.page) (request_tier-IsProper w.page))
    step-IsConsistent (Event.fetch_settles id r) = fetch_settled-IsConsistent id r _
    step-IsConsistent (Event.json_settles id b) = json_settled-IsConsistent id b _

module _ (engine : Engine) where
  run_from-IsConsistent :
      (es : List Event) (w : World) → IsConsistent w → IsConsistent (run engine es w)
  unfolding run
  run_from-IsConsistent [] w c = c
  run_from-IsConsistent (e ∷ es) w c =
      run_from-IsConsistent es (step engine e w) (step-IsConsistent c engine e)

  -- After any events in any order, with any answers of the server: both cards are shown or none,
  -- and the list is empty while they are hidden; the parked handlers have different numbers, each
  -- below the count of calls; every call of `fetch` went to one of the three endpoints by its
  -- method with a trimmed key that is not blank; and the form never navigated away.
  pub run-IsConsistent : (es : List Event) → IsConsistent (run engine es fresh)
  run-IsConsistent es = run_from-IsConsistent es fresh (record {
    page = record { cards = refl; empty = λ h. refl };
    below = tt;
    distinct = tt;
    counted = refl;
    proper = tt;
    stays = refl;
  })
