-- ===== src/Wake/Limits.antt =====
-- The limits of a wake, and why its loop ends.
use open_pincery.Prelude.{
  ℕ, zero, suc, ◌+◌, ◌-◌, ◌*◌, ◌^◌, ◌≤◌, ◌<◌, ◌≡◌, refl, ◌⊎◌, inl, inr, String, Bool, true, false,
  Option, none, some, List, [], ◌∷◌, arith, leb, head?, ◌==ˢ◌, ==ˢ_refl, ap, ◌∙◌, is_some,
}
use native.Mathlib.Nat.{mul-le-mul_right}
use open_pincery.Llm.{ToolCallRequest, Choice, ChatResponse}
use open_pincery.Llm.Canary.{scan_for_canary}
use open_pincery.Db.{Agent, World, Result, ok, err, M, ask, ◌>>=◌}
use open_pincery.Db.Triple.{
  Post, Triple, ticked, Triple-bind, Triple-pure, Triple-if, Triple-weaken,
}
use open_pincery.Env.{Env}
use open_pincery.Tools.{ToolResult, output, sleep, error}
use open_pincery.Wake.{WakeConfig, saturating_suc}
use open_pincery.Wake.Calls.{
  Batch, answered, broke, slept, fall_asleep, next_call, after_result, exceed_rate_limit,
  serve_call, tool_calls,
}
use open_pincery.Wake.Turn.{
  TurnEnd, stop, asleep, again, first_invalid, report_echo, report_invalid, after_batch,
  answer_calls, check_calls, no_calls, follow, choose, screen, hear, consult, turn,
}
use open_pincery.Wake.Run.{
  LoopEnd, ending, ended, unfinished, proceed, wake_loop, finish, run_wake_loop,
}

abbrev Any : World → Type 0
Any w = Unit

-- Of a result alone: whatever the tables, a value that is returned has the property.
abbrev pub Returns : {A : Type 0} → M A → (A → Type 0) → Type 0
Returns m Q = Triple Any m (λ a _. Q a) Any

module _ {A : Type 0} where
  anything : (m : M A) → Returns m (λ _. Unit)
  anything m = record { at = λ w _. trivial (m w) }
    where
      trivial : (r : Result A × World) → Post (λ _ _. Unit {0}) Any r
      trivial (ok a, w) = tt
      trivial (err e, w) = tt

module _ {A B : Type 0} where
  -- What comes first does not matter.
  after :
      {Q : B → Type 0} (m : M A) {f : A → M B} → ((a : A) → Returns (f a) Q) → Returns (m >>= f) Q
  after m t = Triple-bind (anything m) t

-- Every response that the model gives either calls a tool, or stops without calling one.
pub record Progressing (env : Env) : Type 0 where
  pub progress :
      (n : ℕ) (response : ChatResponse) (choice : Choice)
      → env.chat n ≡ some response
      → head? response.choices ≡ some choice
      → ((tc : ToolCallRequest) × (tcs : List ToolCallRequest) × (choice.message.tool_calls
            ≡ some (tc ∷ tcs)))
        ⊎ ((choice.message.tool_calls ≡ none) × (choice.finish_reason ≡ "stop"))

module _ (env : Env) (config : WakeConfig) (agent_id wake_id : ℕ) where
  abbrev limit : ℕ
  limit = config.tool_call_rate_limit_per_wake

  abbrev cap : ℕ
  cap = config.schema_invalid_retry_cap

  module _ (current : Agent) (fits : config.tool_call_rate_limit_per_wake < 2 ^ 32) where
    -- The count after a batch, where there is a next turn.
    abbrev Counted : ℕ → Batch → Type 0
    Counted least (answered n) = (least ≤ n) × (n ≤ limit)
    Counted least (broke reason) = Unit
    Counted least (slept reason) = Unit

    after_result-Counted :
        (least : ℕ) (tool_name : String) (n : ℕ) (rest : ℕ → M Batch) (result : ToolResult)
        → Returns (rest (saturating_suc n)) (Counted least)
        → Returns
            (after_result env config agent_id wake_id current tool_name n rest result)
            (Counted least)
    unfolding after_result fall_asleep next_call
    after_result-Counted least tool_name n rest sleep t =
        after _ (λ _. after _ (λ reason. Triple-pure _ (λ w h. tt)))
    after_result-Counted least tool_name n rest (output text) t =
        after _ (λ _. after _ (λ _. after _ (λ _. after _ (λ _. t))))
    after_result-Counted least tool_name n rest (error text) t =
        after _ (λ _. after _ (λ _. after _ (λ _. after _ (λ _. t))))

    weaken-Counted : (n : ℕ) (b : Batch) → Counted (n + 1) b → Counted n b
    weaken-Counted n (answered m) (a, b) = (omega (arith, a), b)
    weaken-Counted n (broke reason) h = tt
    weaken-Counted n (slept reason) h = tt

    saturating_suc-small : (n : ℕ) → n < limit → saturating_suc n ≡ n + 1
    unfolding saturating_suc
    saturating_suc-small n h = ground (arith, fits, h)

    within : (n : ℕ) → leb limit n ≡ false → n < limit
    within n e = ground arith

    some_calls-Counted :
        (tc : ToolCallRequest) (tcs : List ToolCallRequest) (n : ℕ)
        → ((m : ℕ)
            → m ≤ limit
            → Returns (tool_calls env config agent_id wake_id current tcs m) (Counted m))
        → Returns (tool_calls env config agent_id wake_id current (tc ∷ tcs) n) (Counted (n + 1))
    unfolding tool_calls exceed_rate_limit serve_call
    some_calls-Counted tc tcs n t = after _ (λ _.
        Triple-if (leb config.tool_call_rate_limit_per_wake n)
          (λ _. after _ (λ _. Triple-pure _ (λ w _. tt)))
          (λ e. after _ (λ result.
            after_result-Counted (n + 1) tc.function.name n
              (tool_calls env config agent_id wake_id current tcs) result
              (rw (saturating_suc-small n (within n e)) (t (n + 1) (omega (arith, within n e)))))))

    -- A batch is answered in full only within the rate limit, and counts each of its calls.
    tool_calls-Counted :
        (tcs : List ToolCallRequest) (n : ℕ)
        → n ≤ limit
        → Returns (tool_calls env config agent_id wake_id current tcs n) (Counted n)
    unfolding tool_calls
    tool_calls-Counted [] n h = Triple-pure _ (λ w _. (omega arith, h))
    tool_calls-Counted (tc ∷ tcs) n h =
        Triple-weaken (some_calls-Counted tc tcs n (tool_calls-Counted tcs)) (λ w _. tt)
          (λ b w c. weaken-Counted n b c)

  -- What a turn brings nearer its end.
  abbrev Steps : ℕ → ℕ → TurnEnd → Type 0
  Steps attempts calls (stop reason) = Unit
  Steps attempts calls (asleep reason) = Unit
  Steps attempts calls (again a c) =
      ((c ≡ calls) × (a ≡ attempts + 1) × (a < cap)) ⊎ ((calls < c) × (c ≤ limit) × (a ≡ 0))

  module _ (canary_hex : String) (fits : config.tool_call_rate_limit_per_wake < 2 ^ 32) where
    report_invalid-Steps :
        (attempts calls : ℕ) (tool_name why : String)
        → Returns
            (report_invalid env config agent_id wake_id canary_hex attempts calls tool_name why)
            (Steps attempts calls)
    unfolding report_invalid
    report_invalid-Steps attempts calls tool_name why = after _ (λ _.
        Triple-if (leb config.schema_invalid_retry_cap (attempts + 1))
          (λ _. Triple-pure _ (λ w _. tt))
          (λ e. Triple-pure _ (λ w _. inl (refl, refl, ground arith))))

    batch-Steps :
        (current : Agent) (attempts calls : ℕ) (b : Batch)
        → Counted current fits (calls + 1) b
        → Steps attempts calls (after_batch env config agent_id wake_id canary_hex b)
    batch-Steps current attempts calls (answered n) (more, less) =
        inr (omega (arith, more), less, refl)
    batch-Steps current attempts calls (broke reason) h = tt
    batch-Steps current attempts calls (slept reason) h = tt

    check_calls-Steps :
        (current : Agent) (attempts calls : ℕ) (choice : Choice) (tc : ToolCallRequest)
        (tcs : List ToolCallRequest) (invalid : Option (String × String))
        → Returns
            (check_calls env config agent_id wake_id canary_hex current attempts calls choice
              (tc ∷ tcs)
              invalid)
            (Steps attempts calls)
    unfolding check_calls answer_calls
    check_calls-Steps current attempts calls choice tc tcs (some (tool_name, why)) =
        report_invalid-Steps attempts calls tool_name why
    check_calls-Steps current attempts calls choice tc tcs none = after _ (λ _.
        Triple-bind
          (some_calls-Counted current fits tc tcs calls (tool_calls-Counted current fits tcs))
          (λ b. Triple-pure _ (λ w c. batch-Steps current attempts calls b c)))

    -- A choice that calls a tool, or stops without.
    abbrev Forward : Choice → Type 0
    Forward choice =
        ((tc : ToolCallRequest) × (tcs : List ToolCallRequest) × (choice.message.tool_calls
            ≡ some (tc ∷ tcs)))
        ⊎ ((choice.message.tool_calls ≡ none) × (choice.finish_reason ≡ "stop"))

    stops_here :
        (attempts calls : ℕ) (choice : Choice)
        → choice.finish_reason ≡ "stop"
        → Returns
            (no_calls env config agent_id wake_id canary_hex attempts calls choice)
            (Steps attempts calls)
    unfolding no_calls
    stops_here attempts calls choice stops = after _ (λ _.
        Triple-if (choice.finish_reason ==ˢ "stop") (λ _. Triple-pure _ (λ w _. tt))
          (λ e. ground (arith, e, ap (λ s. s ==ˢ "stop") stops ∙ ==ˢ_refl "stop")))

    choose-Steps :
        (current : Agent) (attempts calls : ℕ) (o : Option Choice)
        → ((choice : Choice) → o ≡ some choice → Forward choice)
        → Returns
            (choose env config agent_id wake_id canary_hex current attempts calls o)
            (Steps attempts calls)
    unfolding choose follow no_calls
    choose-Steps current attempts calls none h = Triple-pure _ (λ w _. tt)
    choose-Steps current attempts calls (some choice) h = elim (h choice refl) [
      | inl (tc, tcs, e) ↦
          rw (e, follow)
            (check_calls-Steps current attempts calls choice tc tcs (first_invalid env (tc ∷ tcs)))
      | inr (e, stops) ↦ rw (e, follow) (stops_here attempts calls choice stops)
    ]

    screen-Steps :
        (current : Agent) (attempts calls : ℕ) (response : ChatResponse) (echo : Option String)
        → ((choice : Choice) → head? response.choices ≡ some choice → Forward choice)
        → Returns
            (screen env config agent_id wake_id canary_hex current attempts calls response echo)
            (Steps attempts calls)
    unfolding screen report_echo
    screen-Steps current attempts calls response (some where_found) h =
        after _ (λ _. Triple-pure _ (λ w _. tt))
    screen-Steps current attempts calls response none h =
        after _ (λ _. choose-Steps current attempts calls (head? response.choices) h)

    hear-Steps :
        (current : Agent) (attempts calls n : ℕ) (o : Option ChatResponse)
        → Progressing env
        → env.chat n ≡ o
        → Returns
            (hear env config agent_id wake_id canary_hex current attempts calls o)
            (Steps attempts calls)
    unfolding hear
    hear-Steps current attempts calls n none p e = Triple-pure _ (λ w _. tt)
    hear-Steps current attempts calls n (some response) p e =
        screen-Steps current attempts calls response (scan_for_canary response canary_hex)
          (λ choice first. p.progress n response choice e first)

    ask-Steps :
        (current : Agent) (attempts calls : ℕ)
        → Progressing env
        → Returns
            (ask env.chat >>= hear env config agent_id wake_id canary_hex current attempts calls)
            (Steps attempts calls)
    unfolding ask ◌>>=◌
    ask-Steps current attempts calls p = record {
      at = λ w _.
          (hear-Steps current attempts calls w.tick (env.chat w.tick) p refl).at (ticked w) tt;
    }

    turn-Steps :
        (attempts calls : ℕ)
        → Progressing env
        → Returns
            (turn env config agent_id wake_id canary_hex attempts calls)
            (Steps attempts calls)
    unfolding turn consult
    turn-Steps attempts calls p = after _ (λ row. after _ (λ current.
        Triple-if (leb config.iteration_cap current.wake_iteration_count)
          (λ _. Triple-pure _ (λ w _. tt))
          (λ _. after _ (λ _. ask-Steps current attempts calls p))))

    -- How much is left: turns whose calls are dispatched, and turns that are schema-invalid.
    abbrev left_over : ℕ → ℕ → ℕ
    left_over attempts calls = (limit - calls) * (cap + 1) + (cap - attempts)

    Steps-left_over :
        (attempts calls a c : ℕ)
        → calls ≤ limit
        → ((c ≡ calls) × (a ≡ attempts + 1) × (a < cap)) ⊎ ((calls < c) × (c ≤ limit) × (a ≡ 0))
        → left_over a c < left_over attempts calls
    Steps-left_over attempts calls a c h (inl (same, next, below)) =
        rw (same, next) (omega (arith, next, below))
    Steps-left_over attempts calls a c h (inr (more, less, reset)) =
        rw reset
          (omega (arith, more, less, h, mul-le-mul_right (cap + 1) (fewer calls c more less)))
      where
        fewer : (calls c : ℕ) → calls < c → c ≤ limit → (limit - c) + 1 ≤ limit - calls
        fewer calls c more less = omega (arith, more, less)

    -- The loop comes to an end.
    abbrev is_over : LoopEnd → Bool
    is_over unfinished = false
    is_over (ending reason) = true
    is_over (ended reason) = true

    abbrev Finished : LoopEnd → Type 0
    Finished e = is_over e ≡ true

    proceed-Finished :
        (rest : ℕ → ℕ → M LoopEnd) (attempts calls : ℕ) (e : TurnEnd)
        → Steps attempts calls e
        → ((a c : ℕ)
            → ((c ≡ calls) × (a ≡ attempts + 1) × (a < cap)) ⊎ ((calls < c) × (c ≤ limit) × (a ≡ 0))
            → Returns (rest a c) Finished)
        → Returns (proceed env config agent_id wake_id canary_hex rest e) Finished
    unfolding proceed
    proceed-Finished rest attempts calls (stop reason) s t = Triple-pure _ (λ w _. refl)
    proceed-Finished rest attempts calls (asleep reason) s t = Triple-pure _ (λ w _. refl)
    proceed-Finished rest attempts calls (again a c) s t = t a c s

    Steps-le :
        (attempts calls a c : ℕ)
        → calls ≤ limit
        → ((c ≡ calls) × (a ≡ attempts + 1) × (a < cap)) ⊎ ((calls < c) × (c ≤ limit) × (a ≡ 0))
        → c ≤ limit
    Steps-le attempts calls a c h (inl (same, next, below)) = omega (arith, same, h)
    Steps-le attempts calls a c h (inr (more, less, reset)) = less

    wake_loop-Finished :
        (fuel attempts calls : ℕ)
        → Progressing env
        → calls ≤ limit
        → left_over attempts calls < fuel
        → Returns (wake_loop env config agent_id wake_id canary_hex fuel attempts calls) Finished
    unfolding wake_loop
    wake_loop-Finished zero attempts calls p h enough = ground (arith, enough)
    wake_loop-Finished (suc fuel) attempts calls p h enough =
        Triple-bind (turn-Steps attempts calls p) (λ e. record {
          at = λ w steps.
              (proceed-Finished (wake_loop env config agent_id wake_id canary_hex fuel) attempts
                  calls e steps
                  (λ a c s.
                    wake_loop-Finished fuel a c p (Steps-le attempts calls a c h s)
                      (omega (arith, Steps-left_over attempts calls a c h s, enough)))).at
                w tt;
        })

    finish-is_some :
        (e : LoopEnd)
        → Finished e
        → Returns (finish env config agent_id wake_id e) (λ o. is_some o ≡ true)
    unfolding finish
    finish-is_some unfinished h = ground (arith, h)
    finish-is_some (ended reason) h = Triple-pure _ (λ w _. refl)
    finish-is_some (ending reason) h =
        after _ (λ row. after _ (λ prior. after _ (λ done. Triple-pure _ (λ w _. refl))))

  at_start : (fuel l k : ℕ) → l * (k + 1) + k < fuel → (l - 0) * (k + 1) + (k - 0) < fuel
  at_start fuel l k h = rw (less_zero l, less_zero k) h
    where
      less_zero : (n : ℕ) → n - 0 ≡ n
      less_zero n = omega arith

  run-is_some :
      (fuel : ℕ)
      → Progressing env
      → config.tool_call_rate_limit_per_wake < 2 ^ 32
      → config.tool_call_rate_limit_per_wake * (config.schema_invalid_retry_cap + 1)
          + config.schema_invalid_retry_cap
        < fuel
      → Returns (run_wake_loop env config agent_id wake_id fuel) (λ o. is_some o ≡ true)
  unfolding run_wake_loop
  run-is_some fuel p fits enough = after _ (λ canary_hex.
      Triple-bind
        (wake_loop-Finished canary_hex fits fuel 0 0 p (omega arith) (at_start fuel _ _ enough))
        (λ e. record { at = λ w h. (finish-is_some canary_hex fits e h).at w tt }))

  -- Where every response of the model calls a tool or stops, the rate limit is a 32-bit number, and
  -- the fuel exceeds `limit * (cap + 1) + cap` for the limit of tool calls and the cap of
  -- schema-invalid responses, a wake from any world never runs out of fuel: it returns a reason or
  -- an error.
  pub run_wake_loop-is_some :
      (fuel : ℕ) (w : World)
      → Progressing env
      → config.tool_call_rate_limit_per_wake < 2 ^ 32
      → config.tool_call_rate_limit_per_wake * (config.schema_invalid_retry_cap + 1)
          + config.schema_invalid_retry_cap
        < fuel
      → Post
          (λ o _. is_some o ≡ true)
          (λ _. Unit)
          (run_wake_loop env config agent_id wake_id fuel w)
  run_wake_loop-is_some fuel w p fits enough = (run-is_some fuel p fits enough).at w tt
