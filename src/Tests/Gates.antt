-- ===== src/Tests/Gates.antt =====
-- The gates at concrete inputs.
use open_pincery.Prelude.{◌≤◌, ◌≡◌, refl, ◌⊎◌, none, some, [], ◌∷◌, arith, is_some, ◌↔◌}
use open_pincery.Status.{tool_dispatching, from_db_str, as_db_str, db_asleep, from_db_str-as_db_str}
use open_pincery.Capability as capability
use open_pincery.Capability.{supervised, required_for, mode_allows}
use open_pincery.Capability.Gate.{permitted, mode_allows-permitted}
use open_pincery.Llm.Canary.{scan_for_canary, scan_for_canary-written, any_contains, written}
use open_pincery.Db.{ok, ◌>>=◌}
use open_pincery.Agents.Exclusive.{acquisitions, acquisitions-le, acquisitions-shut}
use open_pincery.Nonce.{mint, consume, accepted}
use open_pincery.Nonce.Consume.{consume_iff, mint-consume, Ready}
use open_pincery.Nonce.Once.{minting, consuming, acceptances, acceptances-le}
use open_pincery.Tools.Dispatch.{dispatch_tool}
use open_pincery.Tools.Gate.{dispatch_tool-runs, Ran}
use open_pincery.Shape.{capability_shape}
use open_pincery.Tests.{quiet, world, agent, call, response, choice}

from_db_str-as_db_str_example : from_db_str (as_db_str tool_dispatching) ≡ some tool_dispatching
from_db_str-as_db_str_example = from_db_str-as_db_str tool_dispatching

mode_allows-permitted_example :
    mode_allows (capability.from_db_str "supervised") (required_for "shell")
    ≡ permitted "supervised" "shell"
mode_allows-permitted_example = mode_allows-permitted "supervised" "shell"

scan_for_canary-written_example :
    is_some (scan_for_canary (response (choice (some "so: c0ffee") none "stop")) "c0ffee")
    ≡ any_contains "c0ffee" (written (choice (some "so: c0ffee") none "stop" ∷ []))
scan_for_canary-written_example =
    scan_for_canary-written (response (choice (some "so: c0ffee") none "stop")) "c0ffee"

acquisitions-le_example : acquisitions quiet 7 (7 ∷ 8 ∷ 7 ∷ []) (world db_asleep) ≤ 1
acquisitions-le_example = acquisitions-le quiet 7 (7 ∷ 8 ∷ 7 ∷ []) (world db_asleep)

acquisitions-shut_example : acquisitions quiet 7 (7 ∷ 7 ∷ []) (world "awake") ≡ 0
acquisitions-shut_example =
    acquisitions-shut quiet 7 (7 ∷ 7 ∷ []) (world "awake") (agent "awake") refl refl

-- A minted nonce, spent, and tried again.
acceptances-le_example :
    acceptances quiet 1 1000
      (minting 9 1 "shell" "{}"
        ∷ consuming 1000 9 1 "shell" (capability_shape quiet "{}")
        ∷ consuming 1000 9 1 "shell" (capability_shape quiet "{}")
        ∷ [])
      (world "awake")
    ≤ 1
acceptances-le_example =
    acceptances-le quiet 1 1000
      (minting 9 1 "shell" "{}"
        ∷ consuming 1000 9 1 "shell" (capability_shape quiet "{}")
        ∷ consuming 1000 9 1 "shell" (capability_shape quiet "{}")
        ∷ [])
      (world "awake")

mint-consume_example :
    ((do
      ticket ← mint quiet 9 1 "shell" "{}"
      consume quiet ticket.nonce 9 1 "shell" ticket.capability_shape)
      (world "awake")).0
    ≡ ok accepted
mint-consume_example =
    mint-consume quiet 9 1 "shell" "{}" (world "awake") refl refl refl (omega arith)

consume_iff_example :
    ((consume quiet 1000 9 1 "shell" "x" (world "awake")).0 ≡ ok accepted)
    ↔ Ready quiet 1000 9 1 "shell" "x" (world "awake")
consume_iff_example = consume_iff quiet 1000 9 1 "shell" "x" (world "awake")

dispatch_tool-runs_example :
    ((dispatch_tool quiet 7 9 1
        (call "shell" "ls")
        supervised
        (record { nonce = 1000; capability_shape = "x" })
        (world "tool_executing")).1.runs
      ≡ [])
    ⊎ Ran quiet 9 1
        (call "shell" "ls")
        supervised
        (record { nonce = 1000; capability_shape = "x" })
        (world "tool_executing")
        (dispatch_tool quiet 7 9 1
          (call "shell" "ls")
          supervised
          (record { nonce = 1000; capability_shape = "x" })
          (world "tool_executing")).1
dispatch_tool-runs_example =
    dispatch_tool-runs quiet 7 9 1 (call "shell" "ls") supervised
      (record { nonce = 1000; capability_shape = "x" }) (world "tool_executing")
