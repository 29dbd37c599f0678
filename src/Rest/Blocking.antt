-- ===== src/Rest/Blocking.antt =====
-- A request while another thread runs one.
use iot_lab_gateway.Prelude.{
  String, Option, List, ℕ, Bool, false, [], ◌∷◌, ◌≡◌, ◌≢◌, ap, ◌∙◌, refl, some, none,
}
use iot_lab_gateway.Prelude.Int.{ℤ, pos}
use iot_lab_gateway.Text.{concat}
use iot_lab_gateway.Json.{null}
use iot_lab_gateway.Effects.{
  World, Call, done, on, temp_file, State, Action, returned, raised, environment_error, pure, ◌>>=◌,
}
use iot_lab_gateway.Effects.Steps.{>>=-raised, try-raised}
use iot_lab_gateway.ControlNode.{ControlNode}
use iot_lab_gateway.OpenNode.{OpenNode}
use iot_lab_gateway.Manager.{exp_start, open_node, Manager, Board, Held, would_block}
use iot_lab_gateway.Manager.Requests.{
  Request, start, stop, update_profile, flash, soft_reset, power_start, power_stop, debug_start,
  debug_stop, ask_status, sleep_seconds, handle,
}
use iot_lab_gateway.Manager.Serving.{handle-blocked}
use iot_lab_gateway.Manager.Autotests.{Tests, auto_tests, run_part, run_tests}
use iot_lab_gateway.Manager.Locking.{synchronous-blocked}
use iot_lab_gateway.Rest.Autotests.{arguments, arguments_of}
use iot_lab_gateway.OpenOcd.{attempted}
use iot_lab_gateway.Rest.{
  Upload, with_upload, flash_upload, timeout_of, unless_blocked, cb_wrap, respond, answer,
  extract_firmware, Response, ret, unavailable, missing, unreadable, json, Handler, post_exp_start,
  delete_exp_stop, post_exp_update, post_open_flash, binary_of, offset_of, put_flash_idle,
  put_reset, put_open_start, put_open_stop, put_debug_start, put_debug_stop, put_autotest, reported,
  get_status, get_sleep, with_ret,
}

-- The answer 503, with the manager as it was.
abbrev pub IsRefused : {S : Type 0} → Action S Response → State S → Type 0
IsRefused m s = ((m s).0 ≡ returned unavailable) × ((m s).1.self ≡ s.self)

-- The upload, if there is one, is copied to a temporary file.
abbrev pub IsSaved : World → List Call → Option String → Type 0
IsSaved world calls none = Unit
IsSaved world calls (some name) =
    (path : String) × (world calls (temp_file (concat ("--" ∷ name ∷ []))) ≡ done path)

-- The profile of the request, if it has one, is JSON, and its firmware, if it has one, can be saved;
-- a flash has a firmware, and arguments that can be converted; the arguments of auto-tests are
-- accepted.
abbrev pub IsReadable : World → List Call → Handler → Type 0
IsReadable world calls (post_open_flash binary offset firmware) =
    IsSaved world calls firmware
    × (firmware ≢ none)
    × ((b : Bool) × (binary_of binary ≡ some b))
    × ((i : ℤ) × (offset_of offset ≡ some i))
IsReadable world calls (post_exp_start user exp_id timeout firmware profile) =
    IsSaved world calls firmware × (profile ≢ unreadable)
IsReadable world calls (post_exp_update profile) = profile ≢ unreadable
IsReadable world calls (put_autotest mode channel gps with_flash) =
    (c : Option ℕ) × (b f g : Bool) × (arguments_of mode channel gps with_flash ≡ arguments c b f g)
IsReadable world calls h = Unit

with_ret-blocked :
    {S : Type 0} (m : Action S ℤ) (s : State S)
    → m s ≡ (raised (environment_error would_block), s)
    → with_ret m s ≡ (raised (environment_error would_block), s)
with_ret-blocked m s e =
    >>=-raised m (λ code. pure (ret code)) s (ap (λ x. x.0) e)
    ∙ ap (λ x. (raised (environment_error would_block), x.1)) e

cb_wrap-IsRefused :
    {S : Type 0} (m : Action S Response) (s t : State S)
    → t.self ≡ s.self
    → m s ≡ (raised (environment_error would_block), t)
    → IsRefused (cb_wrap m) s
unfolding cb_wrap
cb_wrap-IsRefused m s t h e =
    let k = try-raised m unless_blocked s (ap (λ x. x.0) e) in
    (ap (λ x. x.0) k, ap (λ x. x.1.self) k ∙ ap (λ x. x.1.self) e ∙ h)

after :
    {S A B : Type 0} (m : Action S A) (f : A → Action S B) (s t : State S) (a : A)
    → m s ≡ (returned a, t)
    → (m >>= f) s ≡ f a t
after m f s t a e = ap (λ x. elim x.0 [ returned b ↦ f b x.1 | raised x' ↦ (raised x', x.1) ]) e

-- The call that copies an upload, and the state behind it.
abbrev saving : String → Call
saving name = temp_file (concat ("--" ∷ name ∷ []))

abbrev behind : {S : Type 0} → String → State S → State S
behind name s = record { self = s.self; trace = saving name ∷ s.trace }

saved :
    {S : Type 0} (world : World) (name path : String) (s : State S)
    → world s.trace (saving name) ≡ done path
    → extract_firmware world (some name) s ≡ (returned (some path), behind name s)
unfolding extract_firmware
saved world name path s made =
    ap (λ made. (attempted made >>= λ path. pure (some path)) (behind name s)) made

module _ {C O F : Type 0} (world : World) (board : Board) (cn : ControlNode C) (node : OpenNode O)
    (tests : Tests C O F) where
  refused_request :
      (me : ℕ) (request : Request) (h : Held) (s : State (Manager C O))
      → s.self.rlock ≡ some h
      → h.owner ≢ me
      → with_ret (handle world board cn node tests me request) s
        ≡ (raised (environment_error would_block), s)
  refused_request me request h s e d =
      with_ret-blocked (handle world board cn node tests me request) s
        (handle-blocked world board cn node tests me request h s e d)

  -- The end of `post_exp_start`, with the path of the upload.
  abbrev starting : ℕ → String → ℕ → String → Upload → Option String → Action (Manager C O) Response
  starting me user exp_id timeout profile path =
      with_upload profile
        λ v. exp_start world board cn node me user exp_id path v (timeout_of timeout)

  answer-blocked :
      (me : ℕ) (handler : Handler) (h : Held) (s : State (Manager C O))
      → s.self.rlock ≡ some h
      → h.owner ≢ me
      → IsReadable world s.trace handler
      → (t : State (Manager C O)) × (t.self ≡ s.self)
        × (answer world board cn node tests me handler s
            ≡ (raised (environment_error would_block), t))
  unfolding answer handle auto_tests extract_firmware
  answer-blocked me (post_exp_start user exp_id timeout firmware unreadable) h s e d r =
      absurd (r.1 refl)
  answer-blocked me (post_exp_start user exp_id timeout none missing) h s e d r =
      (s, refl, refused_request me (start user exp_id none null (timeout_of timeout)) h s e d)
  answer-blocked me (post_exp_start user exp_id timeout none (json v)) h s e d r =
      (s, refl, refused_request me (start user exp_id none v (timeout_of timeout)) h s e d)
  answer-blocked me (post_exp_start user exp_id timeout (some name) missing) h s e d
        ((path, made), r) =
      (
        behind name s,
        refl,
        after (extract_firmware world (some name)) (starting me user exp_id timeout missing) s
              (behind name s) (some path) (saved world name path s made)
            ∙ refused_request me (start user exp_id (some path) null (timeout_of timeout)) h
                (behind name s) e d,
      )
  answer-blocked me (post_exp_start user exp_id timeout (some name) (json v)) h s e d
        ((path, made), r) =
      (
        behind name s,
        refl,
        after (extract_firmware world (some name)) (starting me user exp_id timeout (json v)) s
              (behind name s) (some path) (saved world name path s made)
            ∙ refused_request me (start user exp_id (some path) v (timeout_of timeout)) h
                (behind name s) e d,
      )
  answer-blocked me delete_exp_stop h s e d r = (s, refl, refused_request me stop h s e d)
  answer-blocked me (post_exp_update unreadable) h s e d r = absurd (r refl)
  answer-blocked me (post_exp_update missing) h s e d r =
      (s, refl, refused_request me (update_profile null) h s e d)
  answer-blocked me (post_exp_update (json v)) h s e d r =
      (s, refl, refused_request me (update_profile v) h s e d)
  answer-blocked me (post_open_flash binary offset none) h s e d r = absurd (r.1 refl)
  answer-blocked me (post_open_flash binary offset (some name)) h s e d
        ((path, made), firmware, (b, is_binary), (i, is_offset)) =
      (
        behind name s,
        refl,
        rw (is_binary, is_offset)
            (after (extract_firmware world (some name))
                (flash_upload world board cn node tests me b i) s (behind name s) (some path)
                (saved world name path s made)
              ∙ refused_request me (flash open_node (some path) b i) h (behind name s) e d),
      )
  answer-blocked me put_flash_idle h s e d r =
      (s, refl, refused_request me (flash open_node none false (pos 0)) h s e d)
  answer-blocked me put_reset h s e d r =
      (s, refl, refused_request me (soft_reset open_node) h s e d)
  answer-blocked me put_open_start h s e d r =
      (s, refl, refused_request me (power_start null) h s e d)
  answer-blocked me put_open_stop h s e d r =
      (s, refl, refused_request me (power_stop null) h s e d)
  answer-blocked me put_debug_start h s e d r = (s, refl, refused_request me debug_start h s e d)
  answer-blocked me put_debug_stop h s e d r = (s, refl, refused_request me debug_stop h s e d)
  answer-blocked me (put_autotest mode channel gps with_flash) h s e d (c, b, f, g, accepted) = (
    s,
    refl,
    rw accepted (
        ap
          (λ x. elim x.0 [
            | returned a ↦ (returned (reported a), x.1)
            | raised x' ↦ (raised x', x.1)
          ])
          (synchronous-blocked me (on run_part (run_tests world tests c b f g)) h s e d)),
  )
  answer-blocked me get_status h s e d r = (s, refl, refused_request me ask_status h s e d)
  answer-blocked me (get_sleep seconds) h s e d r =
      (s, refl, refused_request me (sleep_seconds seconds) h s e d)

  -- While another thread holds the lock, every request whose profile, if it has one, is JSON, whose
  -- firmware, if it has one, can be saved to a temporary file, and whose arguments, if it is a flash
  -- or the auto-tests, are accepted, is answered with status 503, and the manager stays as it was.
  pub respond-IsRefused :
      (me : ℕ) (handler : Handler) (h : Held) (s : State (Manager C O))
      → s.self.rlock ≡ some h
      → h.owner ≢ me
      → IsReadable world s.trace handler
      → IsRefused (respond world board cn node tests me handler) s
  unfolding respond
  respond-IsRefused me handler h s e d r =
      let (t, same, raises) = answer-blocked me handler h s e d r in
      cb_wrap-IsRefused (answer world board cn node tests me handler) s t same raises
