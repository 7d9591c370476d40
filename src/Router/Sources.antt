-- ===== src/Router/Sources.antt =====
-- The calls that the proxy makes of a device source (internal/proxy/command_router.go). The gRPC
-- client of a source is a parameter: `dial` is the outcome of its creation, and each call's answer
-- may depend on the calls made so far, the latest first.
use sair.Base.{ℕ, Bool, Option, none, some, List, [], ◌∷◌, ◌++◌}
use sair.Text.{Bytes, utf8, has_prefix}
use sair.Result.{Result, ok, err}
use sair.Ports.Branch.{if◌then◌else◌}
use sair.Ports.World.{not_found, other_code, Error, Err, WifiState}
use sair.Adb.Number.{decimal}

pub data Request : Type 0 where
  set_wifi_request : Bytes → WifiState → Bytes → Request
  reset_packages_request : Bytes → Option (List Bytes) → Request
  wake_request reset_bluetooth_request recent_log_request reboot_request ui_automation_request :
      Bytes → Request
  hold_updates_request : Bytes → Bool → Request
  wedged_radio_request : Bytes → Bytes → Request
  -- A tunnel to a phone, with the command that it starts with.
  forward_request : Bytes → Bytes → Request

-- A call made of the source at an address.
abbrev pub Trace : Type 0
Trace = List (Bytes × Request)

-- A source's answer, with the fields that any of the calls reads.
pub record Reply : Type 0 where
  pub removed : List Bytes
  pub suggestions_removed : List Bytes
  pub lines : List Bytes
  pub rebooted : Bool
  pub uptime_seconds : ℕ
  pub cleared : Bytes

-- `resolve` is ResolveSource, the device tracker's; a tunnel's answer is what it carries until its
-- end or its deadline.
pub record Sources : Type 0 where
  pub resolve : Bytes → Bytes
  pub dial : Bytes → Err
  pub call : Trace → Bytes → Request → Result Error Reply
  pub tunnel : Trace → Bytes → Request → Result Error Bytes

abbrev pub M : Type 0 → Type 0
M A = Trace → A × Trace

unfoldable pub not_attached : Bytes → Error
not_attached serial = record {
  code = not_found;
  message = utf8 "device " ++ (serial ++ utf8 " is not attached to this proxy");
}

unfoldable pub dialled : {A : Type 0} → Sources → Bytes → M (Result Error A) → M (Result Error A)
dialled s addr next = elim (s.dial addr) [ some e ↦ (λ t. (err e, t)) | none ↦ next ]

-- The start of every call: which source has the phone, and its client.
unfoldable pub at_source :
    {A : Type 0} → Sources → Bytes → (Bytes → M (Result Error A)) → M (Result Error A)
unfolding not_attached dialled
at_source s serial next t = elim (s.resolve serial) [
  | [] ↦ (err (not_attached serial), t)
  | b ∷ addr ↦ dialled s (b ∷ addr) (next (b ∷ addr)) t
]

unfoldable pub call_source :
    {A : Type 0} → Sources → Bytes → Request → (Reply → A) → M (Result Error A)
unfolding at_source
call_source s serial r read =
    at_source s serial λ addr t.
      (elim (s.call t addr r) [ ok reply ↦ ok (read reply) | err e ↦ err e ], (addr, r) ∷ t)

unfoldable pub set_wifi : Sources → Bytes → WifiState → Bytes → M (Result Error (Unit {0}))
set_wifi s serial state band = call_source s serial (set_wifi_request serial state band) λ _. tt

unfoldable pub reset_packages :
    Sources → Bytes → Option (List Bytes) → M (Result Error (List Bytes × List Bytes))
reset_packages s serial since =
    call_source s serial (reset_packages_request serial since)
      λ r. (r.removed, r.suggestions_removed)

unfoldable pub wake : Sources → Bytes → M (Result Error (Unit {0}))
wake s serial = call_source s serial (wake_request serial) λ _. tt

unfoldable pub reset_bluetooth : Sources → Bytes → M (Result Error (Unit {0}))
reset_bluetooth s serial = call_source s serial (reset_bluetooth_request serial) λ _. tt

unfoldable pub hold_updates : Sources → Bytes → Bool → M (Result Error (Unit {0}))
hold_updates s serial hold = call_source s serial (hold_updates_request serial hold) λ _. tt

unfoldable pub recent_source_log : Sources → Bytes → M (Result Error (List Bytes))
recent_source_log s serial = call_source s serial (recent_log_request serial) λ r. r.lines

-- Whether it was rebooted, and its uptime in seconds.
unfoldable pub reboot_if_stale : Sources → Bytes → M (Result Error (Bool × ℕ))
reboot_if_stale s serial =
    call_source s serial (reboot_request serial) λ r. (r.rebooted, r.uptime_seconds)

unfoldable pub reboot_if_wedged : Sources → Bytes → Bytes → M (Result Error Bool)
reboot_if_wedged s serial radio =
    call_source s serial (wedged_radio_request serial radio) λ r. r.rebooted

unfoldable pub clear_ui_automation : Sources → Bytes → M (Result Error Bytes)
clear_ui_automation s serial = call_source s serial (ui_automation_request serial) λ r. r.cleared

bad_reply : Bytes → Bytes → Error
bad_reply what reply = record { code = other_code; message = what ++ (utf8 ": " ++ reply) }

-- A tunnel is opened by ForwardToDevice, which looks for the client itself: where there is none the
-- answer is empty.
unfoldable pub forwarded : Sources → Bytes → Request → M (Result Error Bytes)
forwarded s addr r t = elim (s.dial addr) [
  | some e ↦ (ok [], t)
  | none ↦ (s.tunnel t addr r, (addr, r) ∷ t)
]

answers_with : Bytes → Bytes → Result Error Bytes → Result Error (Unit {0})
unfolding bad_reply
answers_with prefix what (err e) = err e
answers_with prefix what (ok reply) =
    if has_prefix reply prefix then ok tt else err (bad_reply what reply)

unfoldable pub resolved :
    {A : Type 0} → Sources → Bytes → (Bytes → M (Result Error A)) → M (Result Error A)
unfolding not_attached
resolved s serial next t = elim (s.resolve serial) [
  | [] ↦ (err (not_attached serial), t)
  | b ∷ addr ↦ next (b ∷ addr) t
]

-- The text of an error has the reply itself, where the source quotes it.
unfoldable pub add_reverse_forward : Sources → Bytes → ℕ → M (Result Error (Unit {0}))
unfolding resolved answers_with
add_reverse_forward s serial port =
    let p = decimal port in
    resolved s serial λ addr t.
      let (r, t') =
        forwarded s addr
          (forward_request serial (utf8 "reverse:forward:tcp:" ++ (p ++ (utf8 ";tcp:" ++ p)))) t in
      (answers_with (utf8 "OKAYOKAY") (utf8 "reverse tcp:" ++ (p ++ (utf8 " on " ++ serial))) r, t')

unfoldable pub remove_reverse_forwards : Sources → Bytes → M (Result Error (Unit {0}))
unfolding resolved answers_with
remove_reverse_forwards s serial = resolved s serial λ addr t.
    let (r, t') = forwarded s addr (forward_request serial (utf8 "reverse:killforward-all")) t in
    (answers_with (utf8 "OKAY") (utf8 "reverse --remove-all on " ++ serial) r, t')

-- `wifiUnmanaged`.
