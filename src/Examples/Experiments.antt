-- ===== src/Examples/Experiments.antt =====
-- Experiments of the gateway without nodes.
use iot_lab_gateway.Rest
use iot_lab_gateway.Rest.{Handler, respond}
use iot_lab_gateway.Rest.Blocking.{IsRefused, IsReadable, respond-IsRefused}
use iot_lab_gateway.Prelude.{
  Option, String, false, ℕ, ◌≡◌, ◌≢◌, refl, true, false, none, some, List, [], ◌∷◌, inl, inr, arith,
}
use iot_lab_gateway.Prelude.Int.{pos}
use iot_lab_gateway.Json.{null}
use iot_lab_gateway.Effects.{State, returned, raised, environment_error}
use iot_lab_gateway.Effects.Triples.{Post}
use iot_lab_gateway.ControlNode.None.{NoControlNode}
use iot_lab_gateway.Manager.{Manager, Held, exp_start, exp_stop, timeout_exp_stop, would_block}
use iot_lab_gateway.Manager.Requests.{auto_test, Request, start, stop, timer_fires, handle, serve}
use iot_lab_gateway.Manager.Consistency.{IsConsistent, IsIdle, Started}
use iot_lab_gateway.Manager.Starting.{exp_start-Started}
use iot_lab_gateway.Manager.Experiments.{exp_stop-IsIdle}
use iot_lab_gateway.Manager.Autotests.{Tests}
use iot_lab_gateway.Examples.Autotests.{bench, texts}
use iot_lab_gateway.Manager.Moves.{Moves, Follows, session}
use iot_lab_gateway.Manager.Refinement.Handling.{handle-Moves, serve-Follows}
use iot_lab_gateway.Manager.Serving.{serve-IsConsistent, handle-blocked, timeout_exp_stop-stale}
use iot_lab_gateway.Examples.{calm, board, no_control_node, no_open_node, idle}

abbrev Gateway : Type 0
Gateway = State (Manager NoControlNode (Unit {0}))

abbrev tests : Tests NoControlNode (Unit {0}) String
tests = record { bench = bench; floats = texts; fuel = 3 }

abbrev launched : Gateway
launched = (exp_start calm board no_control_node no_open_node 1 "harter" 42 none null 60 idle).1

abbrev busy : Gateway
busy = record idle { self = record idle.self { rlock = some (record { owner = 2; count = 1 }) } }

idle-IsConsistent : IsConsistent idle.self
idle-IsConsistent = (λ _. (refl, refl, refl, refl, refl), λ r. cc r, refl, λ t h. cc h)

abbrev some_requests : List (ℕ × Request)
some_requests =
    (1, start "harter" 42 none null 60)
    ∷ (2, timer_fires 41 "harter")
    ∷ (2, auto_test none false false false)
    ∷ (3, stop)
    ∷ []

exp_start-run :
    (exp_start calm board no_control_node no_open_node 1 "harter" 42 none null 60 idle).0
    ≡ returned (pos 0)
unfolding exp_start iot_lab_gateway.Manager.synchronous iot_lab_gateway.Profile.from_dict
    iot_lab_gateway.ElfTarget.is_compatible_with_node iot_lab_gateway.Effects.total
    iot_lab_gateway.ControlNode.None.start_experiment iot_lab_gateway.Prelude.Int.◌+ℤ◌
exp_start-run = refl

launched-runs : launched.self.experiment_is_running ≡ true
unfolding exp_start iot_lab_gateway.Manager.synchronous iot_lab_gateway.Profile.from_dict
    iot_lab_gateway.ElfTarget.is_compatible_with_node iot_lab_gateway.Effects.total
    iot_lab_gateway.ControlNode.None.start_experiment
launched-runs = refl

exp_start-Started_example :
    Post
      (Started "harter" 42 60)
      IsConsistent
      (exp_start calm board no_control_node no_open_node 1 "harter" 42 none null 60 idle)
exp_start-Started_example =
    exp_start-Started calm board no_control_node no_open_node 1 "harter" 42 none null 60 idle
      idle-IsConsistent

launched-IsConsistent : IsConsistent launched.self
unfolding serve handle
launched-IsConsistent =
    (serve-IsConsistent calm board no_control_node no_open_node tests
      ((1, start "harter" 42 none null 60) ∷ []) idle idle-IsConsistent refl).0

exp_stop-IsIdle_example :
    Post (λ code. IsIdle) IsConsistent (exp_stop calm board no_control_node no_open_node 1 launched)
exp_stop-IsIdle_example =
    exp_stop-IsIdle calm board no_control_node no_open_node 1 launched launched-IsConsistent

serve-IsConsistent_example :
    IsConsistent (serve calm board no_control_node no_open_node tests some_requests idle).1.self
    × ((serve calm board no_control_node no_open_node tests some_requests idle).1.self.rlock ≡ none)
serve-IsConsistent_example =
    serve-IsConsistent calm board no_control_node no_open_node tests some_requests idle
      idle-IsConsistent refl

two_is_not_one : ◌≢◌ {A = ℕ} 2 1
two_is_not_one e = cc e

handle-blocked_example :
    handle calm board no_control_node no_open_node tests 1 stop busy
    ≡ (raised (environment_error would_block), busy)
handle-blocked_example =
    handle-blocked calm board no_control_node no_open_node tests 1 stop
      (record { owner = 2; count = 1 }) busy refl two_is_not_one

other_number : ◌≢◌ {A = Option ℕ} (some 42) (some 41)
other_number e = cc e

timeout_exp_stop-stale_example :
    timeout_exp_stop calm board no_control_node no_open_node 2 41 "harter" launched
    ≡ (returned tt, launched)
unfolding exp_start iot_lab_gateway.Manager.synchronous iot_lab_gateway.Profile.from_dict
    iot_lab_gateway.ElfTarget.is_compatible_with_node iot_lab_gateway.Effects.total
    iot_lab_gateway.ControlNode.None.start_experiment
timeout_exp_stop-stale_example =
    timeout_exp_stop-stale calm board no_control_node no_open_node tests 2 41 "harter" launched refl
      (inl other_number)

abbrev start_request : Handler
start_request = Rest.post_exp_start "harter" 42 "60" (some "a.elf") (Rest.json null)

start_request-IsReadable : IsReadable calm busy.trace start_request
start_request-IsReadable = (("/tmp/firmware.bin", refl), λ e. cc e)

respond-IsRefused_example :
    IsRefused (respond calm board no_control_node no_open_node tests 1 start_request) busy
respond-IsRefused_example =
    respond-IsRefused calm board no_control_node no_open_node tests 1 start_request
      (record { owner = 2; count = 1 }) busy refl two_is_not_one start_request-IsReadable

launched-session : session launched.self ≡ some (42, "harter")
unfolding exp_start iot_lab_gateway.Manager.synchronous iot_lab_gateway.Profile.from_dict
    iot_lab_gateway.ElfTarget.is_compatible_with_node iot_lab_gateway.Effects.total
    iot_lab_gateway.ControlNode.None.start_experiment
launched-session = refl

handle-Moves_example :
    Moves
      (timer_fires 42 "harter")
      (handle calm board no_control_node no_open_node tests 2 (timer_fires 42 "harter") launched).0
      (session launched.self)
      (session
        (handle calm board no_control_node no_open_node tests 2
          (timer_fires 42 "harter")
          launched).1.self)
handle-Moves_example =
    handle-Moves calm board no_control_node no_open_node tests 2 (timer_fires 42 "harter") launched

serve-Follows_example :
    Follows some_requests
      (serve calm board no_control_node no_open_node tests some_requests idle).0
      (session idle.self)
      (session (serve calm board no_control_node no_open_node tests some_requests idle).1.self)
serve-Follows_example =
    serve-Follows calm board no_control_node no_open_node tests some_requests idle
