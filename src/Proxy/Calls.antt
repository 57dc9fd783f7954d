-- ===== src/Proxy/Calls.antt =====
-- Which services a request calls, and how often.
use gate_flow.Prelude.{◌+◌, ◌≤◌, ◌≡◌, ◌⊎◌, length}
use gate_flow.Prelude.Text.{Text}
use gate_flow.Proxy.State.{World, Settings, Platform, Course, Reply, Flow}
use gate_flow.Proxy.{result}
use gate_flow.Proxy.Answers.{IsAnswer}

-- `n` calls at most were added.

-- A part that calls no service.
record IsQuiet {ℓ} {A : Type ℓ} (w : World) (x : World × Flow A) : Type 0 where
  same : x.0.sent ≡ w.sent

module _ (settings : Settings) (platform : Platform) (course : Course) where
  -- No service was called, or the reply is an answer after a bounded number of calls.
  abbrev pub IsOrderly : World → World × Reply → Type 0
  IsOrderly w (v, r) =
      (v.sent ≡ w.sent)
      ⊎ ((length v.sent ≤ length w.sent + (settings.downstream_max_retries + 1))
          × IsAnswer settings course r)

  record IsHandled (w : World) (x : World × Flow Reply) : Type 0 where
    orderly : IsOrderly w (result settings platform course x)
