-- ===== src/OpenNode/WithEdbg/Teardown.antt =====
-- What `teardown` leaves of a debug session.
use iot_lab_gateway.Prelude.{String, Bool, false, ◌≡◌, refl, Option, none, some, ◌∷◌, [], List}
use iot_lab_gateway.Prelude.Int.{ℤ, pos, ◌+ℤ◌}
use iot_lab_gateway.Effects.{
  World, State, Result, returned, raised, Action, Part, gets, modify, on, total,
}
use iot_lab_gateway.Effects.Triples.{
  Post, Triple, Keeps, Triple-bind, Triple-pure, Triple-gets, Triple-modify, Triple-if, Triple-post,
  Triple-pre, Keeps-total, Keeps-on, Keeps-Steady,
}
use iot_lab_gateway.Common.{wait_tty, wait_no_tty, tty_detect_time, path_or}
use iot_lab_gateway.Manager.Quiet.{Steady-wait_tty, Steady-wait_no_tty}
use iot_lab_gateway.OpenOcd
use iot_lab_gateway.OpenOcd.{OpenOcd}
use iot_lab_gateway.OpenOcd.Debug.{debug-debug_stop}
use iot_lab_gateway.Edbg
use iot_lab_gateway.Redirection
use iot_lab_gateway.OpenNode.WithEdbg.{
  EdbgNode, openocd_part, edbg_part, redirection_part, edbg_tty, flash, debug_stop, teardown,
}

-- No debug mode, and no debugger process.
abbrev pub NotInDebug : EdbgNode → Type 0
NotInDebug n = n.in_debug ≡ false

abbrev pub IsDetached : EdbgNode → Type 0
IsDetached n = NotInDebug n × (n.openocd.debug ≡ false)

Post-always :
    {O A : Type 0} (Q : O → Type 0) (r : Result A) (t : State O) → Q t.self → Post (λ a. Q) Q (r, t)
Post-always Q (returned a) t q = q
Post-always Q (raised e) t q = q

-- A method of a part whose result is known of every state.
Triple-on :
    {O C A : Type 0} {P Q : O → Type 0} {R : C → Type 0} (part : Part O C) (m : Action C A)
    → ((t : State C) → R (m t).1.self)
    → ((c : C) (o : O) → P o → R c → Q (part.put c o))
    → Triple P (on part m) (λ a. Q) Q
Triple-on {Q = Q} part m r h = record {
  at = λ s p.
      let t : State _ = record { self = part.get s.self; trace = s.trace } in
      Post-always Q (m t).0 (record { self = part.put (m t).1.self s.self; trace = (m t).1.trace })
        (h (m t).1.self s.self p (r t));
}

Triple-total-cons :
    {O : Type 0} {P Q R E : O → Type 0} (m : Action O ℤ) (ms : List (Action O ℤ))
    → Triple P m (λ a. R) E
    → Triple R (total ms) (λ a. Q) E
    → Triple P (total (m ∷ ms)) (λ a. Q) E
unfolding total
Triple-total-cons {Q = Q} m ms k ks =
    Triple-bind m _ k
      λ code. Triple-bind (total ms) _ ks λ rest. Triple-pure (code +ℤ rest) (λ o q. q)

module _ (world : World) (type_name fw_idle : String) where
  flash-IsDetached :
      (firmware : Option String) (binary : Bool) (offset : ℤ)
      → Keeps IsDetached (flash world type_name fw_idle firmware binary offset)
  unfolding flash
  flash-IsDetached firmware binary offset =
      let path = path_or firmware fw_idle in
      Triple-bind (modify (λ n. record n { current_fw = some path })) _
        (Triple-modify {Q = λ _. IsDetached} _ (λ n p. p))
        λ _.
          Triple-bind (gets (λ n. n.in_debug)) _
            (Triple-gets {Q = λ d n. IsDetached n × (n.in_debug ≡ d)} _ (λ n p. (p, refl)))
            λ debugged.
              Triple-if debugged {m = on openocd_part (OpenOcd.flash world path binary offset)}
                (λ e. record { at = λ s p. absurd (cc (p.0.0, p.1, e)) })
                (λ e.
                  Triple-pre (λ n p. p.0)
                    (Keeps-on edbg_part (Edbg.flash world path binary offset) (λ d n p. p)))

  debug_stop-IsDetached :
      Triple NotInDebug (debug_stop world type_name fw_idle) (λ code. IsDetached) NotInDebug
  unfolding debug_stop
  debug_stop-IsDetached =
      Triple-bind (modify (λ n. record n { in_debug = false })) _
        (Triple-modify {Q = λ _. NotInDebug} _ (λ n p. refl))
        λ _.
          Triple-post
            (Triple-on {Q = IsDetached} {R = λ o. o.debug ≡ false} openocd_part
              (OpenOcd.debug_stop world) (λ t. debug-debug_stop world t) (λ o n p r. (p, r)))
            (λ a n p. p) (λ n p. p.0)

  abbrev last_steps : List (Action EdbgNode ℤ)
  last_steps =
      on redirection_part (Redirection.stop world)
      ∷ flash world type_name fw_idle none false (pos 0)
      ∷ []

  teardown-Triple :
      Triple (λ n. Unit {0}) (teardown world type_name fw_idle) (λ code. IsDetached) NotInDebug
  unfolding teardown
  teardown-Triple =
      Triple-bind (modify (λ n. record n { in_debug = false })) _
        (Triple-modify {Q = λ _. NotInDebug} _ (λ n p. refl))
        λ _.
          Triple-bind (wait_no_tty world edbg_tty tty_detect_time) _
            (Keeps-Steady (Steady-wait_no_tty world edbg_tty tty_detect_time))
            λ _.
              Triple-total-cons (wait_tty world edbg_tty tty_detect_time) _
                (Keeps-Steady (Steady-wait_tty world edbg_tty tty_detect_time))
                (Triple-total-cons (debug_stop world type_name fw_idle) last_steps
                  debug_stop-IsDetached
                  (Triple-post
                    (Keeps-total last_steps (
                      Keeps-on redirection_part (Redirection.stop world) (λ r n p. p),
                      (flash-IsDetached none false (pos 0), tt),
                    ))
                    (λ a n p. p) (λ n p. p.0)))

  -- Whatever state a node is in, `teardown` leaves it out of debug mode, also where it raises, and
  -- where it returns no debugger process is held.
  pub teardown-IsDetached :
      (s : State EdbgNode)
      → Post (λ code. IsDetached) NotInDebug (teardown world type_name fw_idle s)
  teardown-IsDetached s = teardown-Triple.at s tt
