-- ===== src/Tests/Ingress.antt =====
-- A channel whose deliveries are signed, its webhook, and a POS that takes orders:
-- libs/adapter/hmac_verify.py and services/core/app/api/v1/webhooks.py.
use Prim.Native.String.{◌++◌ as str_append}
use posnet_adapter.Prelude.{
  ℕ, ◌+◌, ◌*◌, ◌≤◌, ◌%◌, String, ◌≡◌, refl, sym, true, false, Option, none, some, List, [], ◌∷◌,
  map, arith, str_eq, if◌then◌else◌, inl,
}
use posnet_adapter.Prelude.Int.{ℤ, pos, ◌+ℤ◌, ◌-ℤ◌}
use posnet_adapter.Prelude.Exec.{Result, ok, err}
use posnet_adapter.Adapter.Errors.{Failure, adapter_error, permanent, other_exception}
use posnet_adapter.Adapter.Signature.{codes, verify_signature, is_beyond_float, skew_between}
use posnet_adapter.Adapter.Signature.Window.{
  IsHex, verify_signature_expires, verify_signature_accepts,
}
use posnet_adapter.OrderIngest.{duplicate, reserve_order, ingest_channel_order}
use posnet_adapter.Inventory.{apply_movement, effect}
use posnet_adapter.Webhooks.{
  ChannelRow, WebhookAdapter, PosSource, App, Request, Hub, http, Admitted, PushFailure,
  admit_delivery, authenticate, receive_webhook, write_order_to_pos, delivery, after_commit,
}
use posnet_adapter.Webhooks.Delivery.{
  is_aborted, receive_webhook-aborted, Passes, let_through, receive_webhook_twice,
}
use posnet_adapter.Webhooks.Answers.{Answered, receive_webhook-Answered}
use posnet_adapter.Tests.Stock.{shop, shop-IsConsistent, order}

-- Stands for the digest: hexadecimal digits that depend on the secret and on what is signed.
abbrev digits : List ℕ → List ℕ
digits s = map (λ c. 97 + c % 6) s

digits-IsHex : (s : List ℕ) → IsHex (digits s)
digits-IsHex [] = tt
digits-IsHex (c ∷ s) = (ground arith, digits-IsHex s)

abbrev mac : String → String → List ℕ
mac secret signed = digits (codes (str_append secret signed))

abbrev parse_int : String → Option ℤ
parse_int t = if str_eq t "1000" then some (pos 1000) else none

abbrev show_int : ℤ → String
show_int ts = "1000"

-- The digest of "1000.{}" under "key".
abbrev signature : String
signature = "sha256=ffbbaaaedf"

mac-IsHex : (signed : String) → IsHex (mac "key" signed)
mac-IsHex signed = digits-IsHex (codes (str_append "key" signed))

not_huge : is_beyond_float (pos 1000) ≡ false
unfolding is_beyond_float
not_huge = refl

close_enough : skew_between 1100000000 (pos 1000) ≤ 300 * 1000000
unfolding ◌-ℤ◌
close_enough = omega arith

fresh_delivery :
    verify_signature mac parse_int show_int "{}" "key" (some signature) (some "1000") 300 1100000000
    ≡ ok true
unfolding verify_signature ◌-ℤ◌
fresh_delivery = refl

verify_signature_accepts_example :
    verify_signature mac parse_int show_int "{}" "key" (some signature) (some "1000") 300 1100000000
    ≡ ok true
verify_signature_accepts_example =
    verify_signature_accepts mac parse_int show_int "{}" "key" signature "1000" (pos 1000) 300
      1100000000 mac-IsHex refl not_huge close_enough refl (inl refl)

verify_signature_expires_example : ¬ (
    verify_signature mac parse_int show_int "{}" "key" (some signature) (some "1000") 300 1800000000
    ≡ ok true)
verify_signature_expires_example =
    verify_signature_expires mac parse_int show_int "{}" "key" signature "{}" "key" signature "1000"
      300 1100000000 1800000000 fresh_delivery (omega arith)

-- A signature with a character beyond ASCII is not rejected: the comparison raises.
beyond_ascii :
    verify_signature mac parse_int show_int "{}" "key" (some "é") none 300 0 ≡ err other_exception
unfolding verify_signature
beyond_ascii = refl

abbrev row : ChannelRow
row = record {
  id = 9;
  tenant_id = 1;
  code = "bazar";
  status = "active";
  config = some (record { base_url = none; webhook_secret = some "key"; safety_stock = 0 });
}

-- The world is the list of the calls, the latest first. The channel refuses every acknowledgement.
abbrev gone : Failure
gone = adapter_error (record { kind = permanent; message = "gone"; retry_after_seconds = none })

abbrev adapter : WebhookAdapter (List String)
adapter = record {
  supports_webhook_orders = true;
  webhook_signature_header = some "X-Signature";
  webhook_timestamp_header = some "X-Timestamp";
  normalize_webhook = λ body headers. ok (order (pos 4));
  acknowledge_order = λ id status w. (err gone, str_append "ack " status ∷ w);
}

abbrev pos_source : PosSource (List String)
pos_source = record { supports_push_order = true; push_order = λ o w. (ok tt, "pos" ∷ w) }

abbrev app : App (List String)
app = record {
  webhook_adapter_factory = some (λ c. ok adapter);
  pos_source_factory = some (λ tenant. some pos_source);
  channels = row ∷ [];
  mac = mac;
  parse_int = parse_int;
  show_int = show_int;
}

abbrev headers : String → Option String
headers name =
    if str_eq name "X-Signature"
    then some signature
    else if str_eq name "X-Timestamp"
    then some "1000"
    else none

abbrev request_at : ℕ → Request
request_at now = record { tenant_id = 1; code = "bazar"; body = "{}"; headers = headers; now = now }

abbrev hub : Hub (List String)
hub = record { db = shop; world = [] }

abbrev let_in : Admitted (List String)
let_in = record { channel = row; adapter = adapter; order = order (pos 4) }

admitted_now : admit_delivery app (λ c. ok adapter) (request_at 1100000000) shop ≡ (ok let_in, shop)
unfolding admit_delivery authenticate verify_signature ◌-ℤ◌
admitted_now = refl

request_at-Passes : Passes app (request_at 1100000000) let_in
request_at-Passes =
    let_through app (request_at 1100000000) (λ c. ok adapter) let_in shop refl admitted_now

-- The same delivery ten minutes later.
late_reply :
    (receive_webhook app (request_at 1700000000) hub).0 ≡ err (http 401 "invalid webhook signature")
unfolding receive_webhook delivery admit_delivery authenticate verify_signature ◌-ℤ◌
late_reply = refl

late_aborts : is_aborted (receive_webhook app (request_at 1700000000) hub).0 ≡ true
late_aborts = rw late_reply refl

receive_webhook-aborted_example : (receive_webhook app (request_at 1700000000) hub).1 ≡ hub
receive_webhook-aborted_example =
    receive_webhook-aborted app (request_at 1700000000) hub late_aborts

receive_webhook_twice_example :
    let again = (receive_webhook app (request_at 1100000000) hub).1 in
    receive_webhook app (request_at 1100000000) again
    ≡ (ok (record { channel_order_id = "A-1"; status = duplicate }), again)
receive_webhook_twice_example =
    receive_webhook_twice app (request_at 1100000000) (request_at 1100000000) let_in let_in hub
      request_at-Passes request_at-Passes refl refl refl shop-IsConsistent refl

receive_webhook-Answered_example : Answered app (request_at 1100000000) let_in hub
receive_webhook-Answered_example =
    receive_webhook-Answered app (request_at 1100000000) let_in hub request_at-Passes
      shop-IsConsistent refl (λ id status w e raised. (_, sym (err_inj raised)))
      (λ o w e raised. absurd (no_error raised))
  where
    err_inj : {e e' : Failure} → ◌≡◌ {A = Result Failure (Unit {0})} (err e) (err e') → e ≡ e'
    err_inj h = cc

    no_error : {e : PushFailure} → ◌≡◌ {A = Result PushFailure (Unit {0})} (ok tt) (err e) → ⊥
    no_error h = cc

-- The order is reserved, written to the POS, and stays so although the acknowledgement failed.
calls_made :
    (receive_webhook app (request_at 1100000000) hub).1.world ≡ "ack confirmed" ∷ "pos" ∷ []
unfolding receive_webhook delivery admit_delivery authenticate verify_signature ingest_channel_order
    reserve_order apply_movement effect ◌+ℤ◌ ◌-ℤ◌ after_commit write_order_to_pos
calls_made = refl
