-- ===== src/Store/Routes/Settled.antt =====
-- What the caches of several processes come to.
use gate_flow.Prelude.{
  ℕ, ◌≡◌, ◌≢◌, ◌⊎◌, refl, sym, ◌∙◌, inl, inr, Option, none, some, List, [], ◌∷◌, ◌++◌, ◌==◌,
  Bool-cases, arith, All, false,
}
use gate_flow.Prelude.Text.{Text, same}
use gate_flow.Router.{Route, Routes}
use gate_flow.Store.Routes.{value_at, with_value, row_of}
use gate_flow.Store.Routes.Entries.{value_at-with_value}
use gate_flow.Store.Routes.Processes.{
  published_next, holds, Process, System, set_process, at_stage, Step, saves, deletes, backfills,
  reads, assigns, publishes, hears, settles, Reach, here, next,
}

-- What the database has, and the prefixes that were put back.
abbrev pub contents : System → Routes × List Text
contents s = (s.rows, s.backfilled)

-- The routes are the rows, at every prefix that was not put back.
abbrev pub Agrees : Routes × List Text → Routes → Type 0
Agrees c routes = (p : Text) → All (λ q. same q p ≡ false) c.1 → value_at p routes ≡ value_at p c.0

-- The cache has the rows, and nothing is on its way.
abbrev IsUpToDate : Routes × List Text → Process → Type 0
IsUpToDate c p = (p.reading ≡ none) × Agrees c p.cache

-- The process will see the rows: it has a message, or has read them, or has them in its cache.
abbrev WillSee : Routes × List Text → Process → Type 0
WillSee c p =
    (p.mail ≢ 0)
    ⊎ (((routes : Routes) × (p.reading ≡ some routes) × Agrees c routes) ⊎ IsUpToDate c p)

-- A call that has changed the rows has not published that, or every process will see them.
abbrev pub IsAware : System → Type 0
IsAware s = (s.changes ≢ []) ⊎ ((j : ℕ) → WillSee (contents s) (s.processes j))

not_empty : {A : Type 0} (before : List A) (x : A) (later : List A) → before ++ x ∷ later ≢ []
not_empty [] x later e = cc
not_empty (y ∷ before) x later e = cc

set_process-WillSee :
    (rows : Routes × List Text) (j : ℕ) (p : Process) (processes : ℕ → Process)
    → WillSee rows p
    → ((k : ℕ) → WillSee rows (processes k))
    → (k : ℕ) → WillSee rows (set_process j p processes k)
set_process-WillSee rows j p processes h all k = elim (Bool-cases (j == k)) [
  | inl t ↦ rw t h
  | inr f ↦ rw f (all k)
]

settled-WillSee :
    (rows : Routes × List Text) (routes : Routes) (p : Process)
    → p.reading ≡ some routes
    → WillSee rows p
    → WillSee rows (record p { cache = routes; reading = none })
settled-WillSee rows routes p e (inl m) = inl m
settled-WillSee rows routes p e (inr (inl (routes', r, a))) =
    let one : some routes ≡ some routes' = sym e ∙ r in
    let eq : routes ≡ routes' = cc in inr (inr (refl, rw eq a))
settled-WillSee rows routes p e (inr (inr (n, c))) = let no : some routes ≡ none = sym e ∙ n in cc

backfilled-Agrees :
    (rows : Routes) (b : List Text) (q : Text) (r : Route) (routes : Routes)
    → Agrees (rows, b) routes
    → Agrees (with_value q r rows, q ∷ b) routes
backfilled-Agrees rows b q r routes a p (f, g) =
    a p g ∙ sym (let e = value_at-with_value q p r rows in rw f at e)

backfilled-WillSee :
    (rows : Routes) (b : List Text) (q : Text) (r : Route) (p : Process)
    → WillSee (rows, b) p
    → WillSee (with_value q r rows, q ∷ b) p
backfilled-WillSee rows b q r p (inl m) = inl m
backfilled-WillSee rows b q r p (inr (inl (routes, e, a))) =
    inr (inl (routes, e, backfilled-Agrees rows b q r routes a))
backfilled-WillSee rows b q r p (inr (inr (n, a))) =
    inr (inr (n, backfilled-Agrees rows b q r p.cache a))

Step-IsAware : {s t : System} → Step s t → IsAware s → IsAware t
Step-IsAware (saves s j r) h = inl (λ e. cc)
Step-IsAware (deletes s j p n) h = inl (λ e. cc)
Step-IsAware (backfills s r) (inl c) = inl c
Step-IsAware (backfills s r) (inr all) =
    inr (λ k. backfilled-WillSee s.rows s.backfilled r.prefix (row_of r) (s.processes k) (all k))
Step-IsAware (reads s j before later some_rows e) h =
    inl (not_empty before (at_stage j (holds s.rows)) later)
Step-IsAware (assigns s j routes before later e) h =
    inl (not_empty before (at_stage j published_next) later)
Step-IsAware (publishes s j before later e) h = inr (λ k. inl (λ z. omega (arith, z)))
Step-IsAware (hears s j n some_rows e none_yet) (inl c) = inl c
Step-IsAware (hears s j n some_rows e none_yet) (inr all) = inr (
    set_process-WillSee (contents s) j (record (s.processes j) { mail = n; reading = some s.rows })
      s.processes (inr (inl (s.rows, refl, λ p g. refl))) all)
Step-IsAware (settles s j routes e) (inl c) = inl c
Step-IsAware (settles s j routes e) (inr all) = inr (
    set_process-WillSee (contents s) j (record (s.processes j) { cache = routes; reading = none })
      s.processes (settled-WillSee (contents s) routes (s.processes j) e (all j)) all)

Reach-IsAware : {s t : System} → IsAware s → Reach s t → IsAware t
Reach-IsAware h here = h
Reach-IsAware h (next r step) = Step-IsAware step (Reach-IsAware h r)

pub Reach-trans : {s t u : System} → Reach s t → Reach t u → Reach s u
Reach-trans r here = r
Reach-trans r (next q step) = next (Reach-trans r q) step

-- However the calls and listeners of several processes take turns, once no call that changed the
-- routes is under way and a listener has read its messages and set its cache, the cache of that process
-- agrees with the rows of the database at every prefix that get_route has not put back since the
-- last commit of a save or a delete. At first every process agrees with them so or will see them, or
-- a call that changed them is under way; no call deletes the last row, listeners stay connected, and
-- Redis answers.
pub Reach-settled :
    (s t : System) (j : ℕ)
    → IsAware s
    → Reach s t
    → t.changes ≡ []
    → (t.processes j).mail ≡ 0
    → (t.processes j).reading ≡ none
    → Agrees (contents t) (t.processes j).cache
Reach-settled s t j start r quiet no_mail idle = elim (Reach-IsAware start r) [
  | inl c ↦ absurd (c quiet)
  | inr all ↦ elim (all j) [
    | inl m ↦ absurd (m no_mail)
    | inr (inl (routes, e, a)) ↦
        absurd (let no : ◌≡◌ {A = Option Routes} none (some routes) = sym idle ∙ e in cc)
    | inr (inr (n, c)) ↦ c
  ]
]
